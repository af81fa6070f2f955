-- ===== src/Server/Routine/Protocol.antt =====
-- What the routines of regression/src/server/subroutine.cc rely on in the design, which is generated:
-- at the other end of each port it follows a protocol. A protocol has channels; on each of them
-- something is transferred at a clock edge at which valid and ready are both up.
pub mod Handshakes
use knockout_kraken.Base.{ℕ, zero, suc, ◌+◌, List, ◌<◌, ◌≡◌, ◌≢◌, arith, false, if◌then◌else◌, ◌==◌}
use knockout_kraken.Server.Ports.{Output, WideOutput, Input, WideInput}
use knockout_kraken.Server.Routine.{Setting, Shared}

pub record Protocol : Type 1 where
  -- The levels of the inputs, the state of the transactions, and the channels.
  pub Pins : Type 0
  pub Status : Type 0
  pub Channel : Type 0
  pub drive : Input → ℕ → Pins → Pins
  pub drive_wide : WideInput → List ℕ → Pins → Pins
  -- The end of a channel that the design drives.
  pub signal : Channel → Output
  -- The simulator has raised its own end of the channel, and the state has the channel next.
  pub Asked : Channel → Pins → Status → Type 0
  -- A transfer on the channel.
  pub transferred : Channel → Pins → Status → Status
  -- What the design drives in a state.
  pub Shows : Status → (Output → ℕ) → (WideOutput → List ℕ) → Type 0
  -- Nothing is offered for a transfer.
  pub Still : Pins → Status → Type 0

-- A port is set.
pub data Change : Type 0 where
  level : Input → ℕ → Change
  wide : WideInput → List ℕ → Change

-- The last block of a burst is marked as the last, and no other.
abbrev pub last_mark : ℕ → ℕ
last_mark zero = 1
last_mark (suc more) = 0

pub mark_last :
    (curr more len : ℕ) → len ≡ curr + more → (if curr == len then 1 else 0) ≡ last_mark more
mark_last curr zero len e = ground arith
mark_last curr (suc more) len e = ground arith

pub zero_more : (more : ℕ) → more ≡ 0 + more
zero_more more = omega arith

-- The design follows the protocol `p`: its inputs, its state, and how long it may leave a channel
-- waiting. `view` is a part of what the threads share that ticks leave alone.
pub record Follows {V W A : Type 0} (p : Protocol) (x : Setting V W) (view : Shared V W → A)
    : Type 0 where
  pub pins : V → p.Pins
  pub state : V → p.Status
  pub patience : V → ℕ
  pub set_pins : (i : Input) (n : ℕ) (v : V) → pins (x.ports.set i n v) ≡ p.drive i n (pins v)
  pub set_state : (i : Input) (n : ℕ) (v : V) → state (x.ports.set i n v) ≡ state v
  pub set_wide_pins :
      (i : WideInput) (bytes : List ℕ) (v : V)
      → pins (x.ports.set_wide i bytes v) ≡ p.drive_wide i bytes (pins v)
  pub set_wide_state :
      (i : WideInput) (bytes : List ℕ) (v : V) → state (x.ports.set_wide i bytes v) ≡ state v
  pub eval_pins : (v : V) → pins (x.design.eval v) ≡ pins v
  pub eval_state : (v : V) → state (x.design.eval v) ≡ state v
  pub fuel_enough : (v : V) → patience v < x.fuel
  pub shows : (v : V) → p.Shows (state v) (λ o. x.ports.get o v) (λ o. x.ports.get_wide o v)
  pub view_design :
      (s : Shared V W) (v : V) → view (record s { dut = record s.dut { design = v } }) ≡ view s
  pub tick_goes : (s : Shared V W) → (x.tick s).0 ≡ false
  pub tick_pins : (s : Shared V W) → pins (x.tick s).1.dut.design ≡ pins s.dut.design
  pub tick_view : (s : Shared V W) → view (x.tick s).1 ≡ view s
  pub tick_stalled :
      (c : p.Channel) (s : Shared V W)
      → p.Asked c (pins s.dut.design) (state s.dut.design)
      → x.ports.get (p.signal c) s.dut.design ≡ 0
      → (state (x.tick s).1.dut.design ≡ state s.dut.design)
        × (patience (x.tick s).1.dut.design < patience s.dut.design)
  pub tick_transfers :
      (c : p.Channel) (s : Shared V W)
      → p.Asked c (pins s.dut.design) (state s.dut.design)
      → x.ports.get (p.signal c) s.dut.design ≢ 0
      → state (x.tick s).1.dut.design ≡ p.transferred c (pins s.dut.design) (state s.dut.design)
  pub tick_still :
      (s : Shared V W)
      → p.Still (pins s.dut.design) (state s.dut.design)
      → state (x.tick s).1.dut.design ≡ state s.dut.design
