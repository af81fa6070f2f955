-- ===== src/Server/Routine/Axi/Slave.antt =====
-- What AXIRoutine relies on in the design: behind its AXI port the design is a memory that is accessed
-- in bursts of 64-byte blocks, in the terms of the AXI protocol.
use knockout_kraken.Base.{
  List, ℕ, zero, suc, ◌+◌, ◌%◌, ◌≡◌, ◌≢◌, ap, ◌∙◌, false, true, if◌then◌else◌, ◌==◌, ◌&&◌, segment,
  store_at,
}
use knockout_kraken.Server.Ports.{
  Output, WideOutput, Input, WideInput, s_axi_aw_awready, s_axi_w_wready, s_axi_b_bvalid,
  s_axi_ar_arready, s_axi_r_rvalid, s_axi_r_rlast, s_axi_r_rdata, s_axi_aw_awaddr, s_axi_aw_awsize,
  s_axi_aw_awburst, s_axi_aw_awlen, s_axi_aw_awvalid, s_axi_w_wlast, s_axi_w_wstrb, s_axi_w_wvalid,
  s_axi_b_bready, s_axi_ar_araddr, s_axi_ar_arlen, s_axi_ar_arburst, s_axi_ar_arsize,
  s_axi_ar_arvalid, s_axi_r_rready, s_axi_w_wdata,
}
use knockout_kraken.Server.Routine.{Setting, Shared}
use knockout_kraken.Server.Routine.Protocol.{last_mark, Protocol, Follows}
use knockout_kraken.Server.Routine.Protocol.Handshakes.{At}

-- The levels of the inputs. A length has eight bits.
pub record Pins : Type 0 where
  pub awaddr : ℕ
  pub awsize : ℕ
  pub awburst : ℕ
  pub awlen : ℕ
  pub awvalid : ℕ
  pub wdata : List ℕ
  pub wlast : ℕ
  pub wstrb : ℕ
  pub wvalid : ℕ
  pub bready : ℕ
  pub araddr : ℕ
  pub arlen : ℕ
  pub arburst : ℕ
  pub arsize : ℕ
  pub arvalid : ℕ
  pub rready : ℕ

abbrev pub drive : Input → ℕ → Pins → Pins
drive s_axi_aw_awaddr n p = record p { awaddr = n }
drive s_axi_aw_awsize n p = record p { awsize = n }
drive s_axi_aw_awburst n p = record p { awburst = n }
drive s_axi_aw_awlen n p = record p { awlen = n % 256 }
drive s_axi_aw_awvalid n p = record p { awvalid = n }
drive s_axi_w_wlast n p = record p { wlast = n }
drive s_axi_w_wstrb n p = record p { wstrb = n }
drive s_axi_w_wvalid n p = record p { wvalid = n }
drive s_axi_b_bready n p = record p { bready = n }
drive s_axi_ar_araddr n p = record p { araddr = n }
drive s_axi_ar_arlen n p = record p { arlen = n % 256 }
drive s_axi_ar_arburst n p = record p { arburst = n }
drive s_axi_ar_arsize n p = record p { arsize = n }
drive s_axi_ar_arvalid n p = record p { arvalid = n }
drive s_axi_r_rready n p = record p { rready = n }
drive i n p = p

abbrev pub drive_wide : WideInput → List ℕ → Pins → Pins
drive_wide s_axi_w_wdata bytes p = record p { wdata = bytes }
drive_wide i bytes p = p

-- Between bursts; in a write burst and in a read burst, with the address of the next block and the
-- number of blocks that come after it; behind the last block of a write; and where the simulator has
-- broken the protocol.
pub data Phase : Type 0 where
  idle responding broken : Phase
  writing reading : (addr more : ℕ) → Phase

pub record Ram : Type 0 where
  pub phase : Phase
  pub memory : ℕ → ℕ

pub data Channel : Type 0 where
  write_address write_data write_response read_address read_data : Channel

abbrev pub signal : Channel → Output
signal write_address = s_axi_aw_awready
signal write_data = s_axi_w_wready
signal write_response = s_axi_b_bvalid
signal read_address = s_axi_ar_arready
signal read_data = s_axi_r_rvalid

abbrev pub Asked : Channel → Pins → Phase → Type 0
Asked write_address p idle = (p.awvalid ≡ 1) × (p.arvalid ≡ 0)
Asked write_data p (writing addr more) = p.wvalid ≡ 1
Asked write_response p responding = p.bready ≡ 1
Asked read_address p idle = (p.arvalid ≡ 1) × (p.awvalid ≡ 0)
Asked read_data p (reading addr more) = p.rready ≡ 1
Asked _ p _ = false ≡ true

-- Nothing is offered on the channel that comes next.
abbrev pub Still : Pins → Phase → Type 0
Still p idle = (p.awvalid ≡ 0) × (p.arvalid ≡ 0)
Still p (writing addr more) = p.wvalid ≡ 0
Still p responding = p.bready ≡ 0
Still p (reading addr more) = p.rready ≡ 0
Still p broken = Unit {0}

-- A burst is of 64-byte blocks at increasing addresses.
abbrev pub opened : (size burst : ℕ) → Phase → Phase
opened size burst next = if size == 6 && burst == 1 then next else broken

abbrev pub wrote : ℕ → ℕ → Phase
wrote addr zero = responding
wrote addr (suc more) = writing (addr + 64) more

abbrev pub read_on : ℕ → ℕ → Phase
read_on addr zero = idle
read_on addr (suc more) = reading (addr + 64) more

-- A block with all its bytes enabled.
abbrev pub write_block : Pins → (addr more : ℕ) → (ℕ → ℕ) → Ram
write_block p addr more memory =
    if p.wstrb == 0xFFFF_FFFF_FFFF_FFFF && p.wlast == last_mark more
    then record { phase = wrote addr more; memory = store_at memory addr p.wdata }
    else record { phase = broken; memory = memory }

abbrev pub moved : Channel → Pins → Phase → (ℕ → ℕ) → Ram
moved write_address p k memory = record {
  phase = opened p.awsize p.awburst (writing p.awaddr p.awlen);
  memory = memory;
}
moved write_data p (writing addr more) memory = write_block p addr more memory
moved write_response p k memory = record { phase = idle; memory = memory }
moved read_address p k memory = record {
  phase = opened p.arsize p.arburst (reading p.araddr p.arlen);
  memory = memory;
}
moved read_data p (reading addr more) memory = record { phase = read_on addr more; memory = memory }
moved c p k memory = record { phase = k; memory = memory }

-- A read burst gives the blocks in order, the last one marked. The next burst is not taken before it
-- is over, and between bursts no block is offered.
abbrev pub Shown : Phase → (ℕ → ℕ) → (Output → ℕ) → (WideOutput → List ℕ) → Type 0
Shown idle memory get get_wide = get s_axi_r_rvalid ≡ 0
Shown (reading addr more) memory get get_wide =
    (get s_axi_ar_arready ≡ 0)
    × (get s_axi_r_rvalid ≢ 0
        → (get_wide s_axi_r_rdata ≡ segment memory addr 64) × (get s_axi_r_rlast ≡ last_mark more))
Shown _ memory get get_wide = Unit {0}

abbrev pub axi : Protocol
axi = record {
  Pins = Pins;
  Status = Ram;
  Channel = Channel;
  drive = drive;
  drive_wide = drive_wide;
  signal = signal;
  Asked = λ c p k. Asked c p k.phase;
  transferred = λ c p k. moved c p k.phase k.memory;
  Shows = λ k. Shown k.phase k.memory;
  Still = λ p k. Still p k.phase;
}

module _ {V W A : Type 0} (x : Setting V W) (view : Shared V W → A)
    (slave : Follows axi x view) where
  -- Between bursts nothing is offered.
  pub record Rests (s : Shared V W) (memory : ℕ → ℕ) : Type 0 where
    pub no_write : (slave.pins s.dut.design).awvalid ≡ 0
    pub no_read : (slave.pins s.dut.design).arvalid ≡ 0
    pub no_ready : (slave.pins s.dut.design).rready ≡ 0
    pub holds : slave.state s.dut.design ≡ record { phase = idle; memory = memory }

  pub rested :
      (p : Pins) (s : Shared V W) (memory : ℕ → ℕ)
      → At axi x view slave p (record { phase = idle; memory = memory }) s
      → p.awvalid ≡ 0
      → p.arvalid ≡ 0
      → p.rready ≡ 0
      → Rests s memory
  rested p s memory (hp, hk) no_write no_read no_ready = record {
    no_write = ap (λ (q : Pins). q.awvalid) hp ∙ no_write;
    no_read = ap (λ (q : Pins). q.arvalid) hp ∙ no_read;
    no_ready = ap (λ (q : Pins). q.rready) hp ∙ no_ready;
    holds = hk;
  }
