-- ===== src/Server/Examples/Machine.antt =====
-- Designs that follow a protocol, for the examples: their inputs, the state of the protocol, and
-- whether they take one more tick before they move.
use knockout_kraken.Base.{
  ℕ, ◌-◌, ◌^◌, ◌<◌, ◌≡◌, ◌≢◌, refl, arith, List, [], Bool, true, false, if◌then◌else◌, pos,
}
use knockout_kraken.Server.Ports.{Output, WideOutput}
use knockout_kraken.Server.Routine.{Setting, Shared}
use knockout_kraken.Server.Routine.Protocol.{Protocol, Follows}
use knockout_kraken.Server.Examples.Registers.{silent}

pub record Machine (p : Protocol) : Type 0 where
  pub level : Bool → p.Status → Output → ℕ
  pub bytes : p.Status → WideOutput → List ℕ
  pub next : Bool → p.Pins → p.Status → p.Status
  pub shown : (slow : Bool) (k : p.Status) → p.Shows k (level slow k) (bytes k)
  pub moves :
      (slow : Bool) (c : p.Channel) (q : p.Pins) (k : p.Status)
      → p.Asked c q k
      → level slow k (p.signal c) ≢ 0
      → next slow q k ≡ p.transferred c q k
  pub stalls :
      (slow : Bool) (c : p.Channel) (q : p.Pins) (k : p.Status)
      → p.Asked c q k
      → level slow k (p.signal c) ≡ 0
      → (next slow q k ≡ k) × (slow ≡ true)
  pub stills : (slow : Bool) (q : p.Pins) (k : p.Status) → p.Still q k → next slow q k ≡ k

module _ (p : Protocol) (m : Machine p) where
  pub record Wires : Type 0 where
    pub pins : p.Pins
    pub state : p.Status
    pub slow : Bool

  abbrev pub clocked : Shared Wires ℕ → Shared Wires ℕ
  clocked s =
      let v = s.dut.design in
      record s {
        dut = record s.dut {
          design = record v { state = m.next v.slow v.pins v.state; slow = false };
        };
      }

  abbrev pub setting : Setting Wires ℕ
  setting = record {
    design = record { eval = λ v. v; set_clock = λ n v. v; set_reset = λ n v. v };
    ports = record {
      get = λ o v. m.level v.slow v.state o;
      get_wide = λ o v. m.bytes v.state o;
      set = λ i n v. record v { pins = p.drive i n v.pins };
      set_wide = λ i bs v. record v { pins = p.drive_wide i bs v.pins };
    };
    os = silent;
    tick = λ s. (false, clocked s);
    fuel = 8;
  }

  abbrev pub patience : Bool → ℕ
  patience slow = if slow then 1 else 0

  pub patient : (slow : Bool) → patience slow < 8
  patient true = omega arith
  patient false = omega arith

  pub less : (slow : Bool) → slow ≡ true → 0 < patience slow
  less slow e = rw e (omega arith)

  abbrev pub follows :
      {A : Type 0}
      → (view : Shared Wires ℕ → A)
      → ((s : Shared Wires ℕ) (v : Wires)
          → view (record s { dut = record s.dut { design = v } }) ≡ view s)
      → Follows p setting view
  follows view same = record {
    pins = λ v. v.pins;
    state = λ v. v.state;
    patience = λ v. patience v.slow;
    set_pins = λ i n v. refl;
    set_state = λ i n v. refl;
    set_wide_pins = λ i bs v. refl;
    set_wide_state = λ i bs v. refl;
    eval_pins = λ v. refl;
    eval_state = λ v. refl;
    fuel_enough = λ v. patient v.slow;
    shows = λ v. m.shown v.slow v.state;
    view_design = same;
    tick_goes = λ s. refl;
    tick_pins = λ s. refl;
    tick_view = λ s. same s (clocked s).dut.design;
    tick_stalled = λ c s asked down.
        let v = s.dut.design in
        let (kept, still_slow) = m.stalls v.slow c v.pins v.state asked down in
        (kept, less v.slow still_slow);
    tick_transfers =
        λ c s asked up. m.moves s.dut.design.slow c s.dut.design.pins s.dut.design.state asked up;
    tick_still = λ s h. m.stills s.dut.design.slow s.dut.design.pins s.dut.design.state h;
  }

  abbrev pub shared : p.Pins → p.Status → Bool → (ℕ → ℕ) → Shared Wires ℕ
  shared q k slow dram = record {
    dut = record {
      design = record { pins = q; state = k; slow = slow };
      dram = dram;
      dram_size = 2 ^ 24;
      dram_addr_mask = 2 ^ 25 - 1;
      axi_base_addr = 2 ^ 24;
      time = 0;
      ready_thread = 0;
      decoupled_count = 0;
      threads = [];
      terminating = false;
      error_occurred = false;
    };
    ipc = record { name = "/dev/shm/axi"; socket_fd = pos 3; client_fd = pos 4; error = false };
    world = 0;
  }
