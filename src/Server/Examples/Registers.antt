-- ===== src/Server/Examples/Registers.antt =====
-- A design that is a bank of registers, ready at once on every channel.
use knockout_kraken.Base.{
  List, ℕ, suc, ◌-◌, ◌^◌, ◌≡◌, refl, arith, false, [], if◌then◌else◌, ◌==◌, pos, le_bytes,
}
use knockout_kraken.Socket.{Sockets, sent, recv_failed, eagain}
use knockout_kraken.Wire.{MemoryRequestAxil}
use knockout_kraken.Server.Ports.{Output, s_axil_r_rdata}
use knockout_kraken.Server.Routine.{Setting, Shared, must_reply}
use knockout_kraken.Server.Routine.Axil.{serve_axil}
use knockout_kraken.Server.Routine.Axil.Slave.{
  Pins, drive, Phase, idle, responding, addressed, reading, Bank, Channel, write_address,
  write_data, write_response, read_address, read_data, signal, Asked, write_register, transferred,
  AxilSlave, Shown, Rests, Untouched,
}
use knockout_kraken.Server.Routine.Axil.Transactions.{serve_axil-Rests}

pub record Bus : Type 0 where
  pub pins : Pins
  pub bank : Bank

abbrev pub word_of : Phase → ℕ
word_of (reading word) = word
word_of _ = 0

abbrev pub level : Output → Phase → ℕ
level s_axil_r_rdata p = word_of p
level o p = 1

-- A rising edge.
abbrev pub edge : Pins → Phase → (ℕ → ℕ) → Bank
edge p idle registers =
    let k : Bank = record { phase = idle; registers = registers } in
    if p.awvalid == 1
    then transferred write_address p k
    else (if p.arvalid == 1 then transferred read_address p k else k)
edge p (addressed a) registers =
    let k : Bank = record { phase = addressed a; registers = registers } in
    if p.wvalid == 1 then transferred write_data p k else k
edge p responding registers =
    let k : Bank = record { phase = responding; registers = registers } in
    if p.bready == 1 then transferred write_response p k else k
edge p (reading v) registers =
    let k : Bank = record { phase = reading v; registers = registers } in
    if p.rready == 1 then transferred read_data p k else k

pub edge_transfers :
    (c : Channel) (p : Pins) (ph : Phase) (registers : ℕ → ℕ)
    → Asked c p ph
    → edge p ph registers ≡ transferred c p (record { phase = ph; registers = registers })
edge_transfers write_address p idle registers (h, k) = rw h
edge_transfers read_address p idle registers (h, k) = rw (h, k)
edge_transfers write_data p (addressed a) registers h = rw h
edge_transfers write_response p responding registers h = rw h
edge_transfers read_data p (reading v) registers h = rw h
edge_transfers c p ph registers h = ground arith

abbrev pub clocked : {W : Type 0} → Shared Bus W → Shared Bus W
clocked s =
    let v = s.dut.design in
    record s {
      dut = record s.dut { design = record v { bank = edge v.pins v.bank.phase v.bank.registers } };
    }

abbrev pub silent : Sockets ℕ
silent = record {
  send = λ fd bs w. (sent 1, w);
  recv = λ fd n w. (recv_failed eagain, w);
  socket = λ w. (pos 3, w);
  connect = λ fd name w. (pos 0, w);
  bind = λ fd name w. (pos 0, w);
  listen = λ fd n w. (pos 0, w);
  accept = λ fd w. (pos 4, w);
  close = λ fd w. (pos 0, w);
}

abbrev pub bus : {W : Type 0} → Sockets W → Setting Bus W
bus os = record {
  design = record { eval = λ v. v; set_clock = λ n v. v; set_reset = λ n v. v };
  ports = record {
    get = λ o v. level o v.bank.phase;
    get_wide = λ o v. [];
    set = λ i n v. record v { pins = drive i n v.pins };
    set_wide = λ i bs v. v;
  };
  os = os;
  tick = λ s. (false, clocked s);
  fuel = 8;
}

pub ready : (c : Channel) (p : Phase) → level (signal c) p ≡ 1
ready write_address p = refl
ready write_data p = refl
ready write_response p = refl
ready read_address p = refl
ready read_data p = refl

pub word-Shown : (p : Phase) → Shown p (λ o. level o p)
word-Shown idle = tt
word-Shown (addressed a) = tt
word-Shown responding = tt
word-Shown (reading word) = λ up. refl

abbrev pub slave :
    {W : Type 0} (os : Sockets W) (fuel : ℕ)
    → (W → List ℕ × List ℕ)
    → AxilSlave (record (bus os) { fuel = suc fuel })
slave os fuel under_way = record {
  under_way = under_way;
  port = record {
    pins = λ v. v.pins;
    state = λ v. v.bank;
    patience = λ v. 0;
    set_pins = λ i n v. refl;
    set_state = λ i n v. refl;
    set_wide_pins = λ i bytes v. refl;
    set_wide_state = λ i bytes v. refl;
    eval_pins = λ v. refl;
    eval_state = λ v. refl;
    fuel_enough = λ v. omega arith;
    shows = λ v. word-Shown v.bank.phase;
    view_design = λ s v. refl;
    tick_goes = λ s. refl;
    tick_pins = λ s. refl;
    tick_view = λ s. refl;
    tick_stalled = λ c s asked down. absurd (omega (arith, ready c s.dut.design.bank.phase, down));
    tick_transfers = λ c s asked up.
        edge_transfers c s.dut.design.pins s.dut.design.bank.phase s.dut.design.bank.registers
          asked;
    tick_still = λ s h. absurd h;
  };
}

abbrev setting : Setting Bus ℕ
setting = bus silent

abbrev nothing_under_way : ℕ → List ℕ × List ℕ
nothing_under_way w = ([], [])

abbrev own : AxilSlave setting
own = slave silent 7 nothing_under_way

abbrev pub blank : ℕ → ℕ
blank a = 0

abbrev pub resting : {W : Type 0} → W → Shared Bus W
resting world = record {
  dut = record {
    design = record {
      pins = record {
        awaddr = 0;
        awvalid = 0;
        wdata = 0;
        wvalid = 0;
        bready = 0;
        araddr = 0;
        arvalid = 0;
        rready = 0;
      };
      bank = record { phase = idle; registers = blank };
    };
    dram = blank;
    dram_size = 2 ^ 24;
    dram_addr_mask = 2 ^ 25 - 1;
    axi_base_addr = 2 ^ 24;
    time = 0;
    ready_thread = 0;
    decoupled_count = 0;
    threads = [];
    terminating = false;
    error_occurred = false;
  };
  ipc = record { name = "/dev/shm/axi_lite"; socket_fd = pos 3; client_fd = pos 4; error = false };
  world = world;
}

abbrev start_thread : MemoryRequestAxil
start_thread = record { addr = 0x9004; byte_size = 4; is_write = 1; w_data = 7 }

serve_axil-Rests_example :
    (s' : Shared Bus ℕ) × (serve_axil setting start_thread (resting 0)
      ≡ must_reply setting (le_bytes 4 0) s')
    × Rests setting own s' (write_register blank 0x9004 7)
    × Untouched setting own (resting 0) s'
serve_axil-Rests_example =
    serve_axil-Rests setting own start_thread (resting 0) blank (omega arith) refl
      (record { no_write = refl; no_read = refl; holds = refl })
