-- ===== src/Server/Routine/Axil/Slave.antt =====
-- What AXILRoutine relies on in the design: at its AXI-Lite port the design is a bank of registers, in
-- the terms of the AXI-Lite protocol.
use knockout_kraken.Base.{List, ℕ, ◌≡◌, ◌≢◌, ap, ◌∙◌, true, false, if◌then◌else◌, ◌==◌}
use knockout_kraken.Server.Ports.{
  Output, Input, s_axil_aw_awready, s_axil_w_wready, s_axil_b_bvalid, s_axil_ar_arready,
  s_axil_r_rvalid, s_axil_r_rdata, s_axil_aw_awaddr, s_axil_aw_awvalid, s_axil_w_wdata,
  s_axil_w_wvalid, s_axil_b_bready, s_axil_ar_araddr, s_axil_ar_arvalid, s_axil_r_rready,
}
use knockout_kraken.Server.Ipc.{IpcServer}
use knockout_kraken.Server.Routine.{Setting, Shared}
use knockout_kraken.Server.Routine.Protocol.{Protocol, Follows}
use knockout_kraken.Server.Routine.Protocol.Handshakes.{At}

-- The levels of the inputs.
pub record Pins : Type 0 where
  pub awaddr : ℕ
  pub awvalid : ℕ
  pub wdata : ℕ
  pub wvalid : ℕ
  pub bready : ℕ
  pub araddr : ℕ
  pub arvalid : ℕ
  pub rready : ℕ

abbrev pub drive : Input → ℕ → Pins → Pins
drive s_axil_aw_awaddr n p = record p { awaddr = n }
drive s_axil_aw_awvalid n p = record p { awvalid = n }
drive s_axil_w_wdata n p = record p { wdata = n }
drive s_axil_w_wvalid n p = record p { wvalid = n }
drive s_axil_b_bready n p = record p { bready = n }
drive s_axil_ar_araddr n p = record p { araddr = n }
drive s_axil_ar_arvalid n p = record p { arvalid = n }
drive s_axil_r_rready n p = record p { rready = n }
drive i n p = p

-- Between transactions; a write whose address is taken; one that is done and not acknowledged; a read
-- whose data is not taken.
pub data Phase : Type 0 where
  idle responding : Phase
  addressed reading : ℕ → Phase

pub record Bank : Type 0 where
  pub phase : Phase
  pub registers : ℕ → ℕ

pub data Channel : Type 0 where
  write_address write_data write_response read_address read_data : Channel

-- The end of a channel that the design drives.
abbrev pub signal : Channel → Output
signal write_address = s_axil_aw_awready
signal write_data = s_axil_w_wready
signal write_response = s_axil_b_bvalid
signal read_address = s_axil_ar_arready
signal read_data = s_axil_r_rvalid

-- The channel on which the simulator waits for a transfer.
abbrev pub Asked : Channel → Pins → Phase → Type 0
Asked write_address p idle = (p.awvalid ≡ 1) × (p.arvalid ≡ 0)
Asked write_data p (addressed a) = p.wvalid ≡ 1
Asked write_response p responding = p.bready ≡ 1
Asked read_address p idle = (p.arvalid ≡ 1) × (p.awvalid ≡ 0)
Asked read_data p (reading v) = p.rready ≡ 1
Asked _ p _ = false ≡ true

abbrev pub write_register : (ℕ → ℕ) → ℕ → ℕ → ℕ → ℕ
write_register registers addr word a = if addr == a then word else registers a

-- A transfer on the channel.
abbrev pub transferred : Channel → Pins → Bank → Bank
transferred write_address p k = record k { phase = addressed p.awaddr }
transferred read_address p k = record k { phase = reading (k.registers p.araddr) }
transferred write_response p k = record k { phase = idle }
transferred read_data p k = record k { phase = idle }
transferred write_data p k = elim k.phase [
  | addressed a ↦ record { phase = responding; registers = write_register k.registers a p.wdata }
  | _ ↦ k
]

-- The data of a read.
abbrev pub Shown : Phase → (Output → ℕ) → Type 0
Shown (reading word) get = get s_axil_r_rvalid ≢ 0 → get s_axil_r_rdata ≡ word
Shown _ get = Unit {0}

abbrev pub axil : Protocol
axil = record {
  Pins = Pins;
  Status = Bank;
  Channel = Channel;
  drive = drive;
  drive_wide = λ i bytes p. p;
  signal = signal;
  Asked = λ c p k. Asked c p k.phase;
  transferred = transferred;
  Shows = λ k get get_wide. Shown k.phase get;
  Still = λ p k. ⊥;
}

-- What a tick leaves alone: the routine's own socket, and the bytes under way on it to the server and
-- to the client.
abbrev pub socket_of :
    {V W : Type 0} → (W → List ℕ × List ℕ) → Shared V W → IpcServer × (List ℕ × List ℕ)
socket_of under_way s = (s.ipc, under_way s.world)

pub record AxilSlave {V W : Type 0} (x : Setting V W) : Type 0 where
  pub under_way : W → List ℕ × List ℕ
  pub port : Follows axil x (socket_of under_way)

module _ {V W : Type 0} (x : Setting V W) (slave : AxilSlave x) where
  -- The socket of the routine is as it was.
  pub record Untouched (s s' : Shared V W) : Type 0 where
    pub same_ipc : s'.ipc ≡ s.ipc
    pub same_socket : slave.under_way s'.world ≡ slave.under_way s.world

  pub to_Untouched :
      (s s' : Shared V W)
      → socket_of slave.under_way s' ≡ socket_of slave.under_way s
      → Untouched s s'
  to_Untouched s s' e = record {
    same_ipc = ap (λ (u : IpcServer × (List ℕ × List ℕ)). u.0) e;
    same_socket = ap (λ (u : IpcServer × (List ℕ × List ℕ)). u.1) e;
  }

  -- Between transactions nothing is asked for.
  pub record Rests (s : Shared V W) (registers : ℕ → ℕ) : Type 0 where
    pub no_write : (slave.port.pins s.dut.design).awvalid ≡ 0
    pub no_read : (slave.port.pins s.dut.design).arvalid ≡ 0
    pub holds : slave.port.state s.dut.design ≡ record { phase = idle; registers = registers }

  pub rested :
      (p : Pins) (s : Shared V W) (registers : ℕ → ℕ)
      → At axil x
          (socket_of slave.under_way)
          slave.port
          p
          (record { phase = idle; registers = registers })
          s
      → p.awvalid ≡ 0
      → p.arvalid ≡ 0
      → Rests s registers
  rested p s registers (hp, hk) no_write no_read = record {
    no_write = ap (λ (q : Pins). q.awvalid) hp ∙ no_write;
    no_read = ap (λ (q : Pins). q.arvalid) hp ∙ no_read;
    holds = hk;
  }
