-- ===== src/Server/Routine.antt =====
-- What the threads of regression/src/server/subroutine.cc are made of: the macros TICK and CHECK of
-- dut.hh, access to the ports, and the loops that wait for a signal. Lines printed are left out.
pub mod Protocol
pub mod Dram
pub mod Axil
pub mod Axi
pub mod Rounds
pub mod Memory
pub mod Bursts
pub mod Waits
use knockout_kraken.Base.{
  ℕ, zero, suc, Bool, true, false, List, [], ◌∷◌, Option, none, some, if◌then◌else◌, ◌==◌,
}
use knockout_kraken.Socket.{Sockets}
use knockout_kraken.Server.Dut.{Design, TopDut, report_error}
use knockout_kraken.Server.Ipc.{IpcServer, Polled, reply}
use knockout_kraken.Server.Ports.{Output, WideOutput, Input, WideInput, Ports}

-- What a thread reads and changes: the object `dut`, its `ipc`, and the operating system.
pub record Shared (V W : Type 0) : Type 0 where
  pub dut : TopDut V
  pub ipc : IpcServer
  pub world : W

-- A piece of a routine goes on, has returned from the routine, or has jumped to `wait_for_join`.
pub data Outcome (A : Type 0) : Type 0 where
  go : A → Outcome A
  returned : Outcome A
  joining : Outcome A

-- `none` is a piece that has not come to its end within the fuel of its loops.
abbrev pub R : Type 0 → Type 0 → Type 0
R S A = S → Option (Outcome A × S)

abbrev pub pure : {S A : Type 0} → A → R S A
pure a s = some (go a, s)

abbrev pub spin : {S A : Type 0} → R S A
spin s = none

-- `goto wait_for_join;`
abbrev pub join : {S A : Type 0} → R S A
join s = some (joining, s)

infixl 5 ◌>>=◌ ◌>>◌
abbrev pub ◌>>=◌ : {S A B : Type 0} → R S A → (A → R S B) → R S B
◌>>=◌ m f s = elim (m s) [
  | none ↦ none
  | some (o, s') ↦ elim o [
    | go a ↦ f a s'
    | returned ↦ some (returned, s')
    | joining ↦ some (joining, s')
  ]
]

abbrev pub ◌>>◌ : {S B : Type 0} → R S (Unit {0}) → R S B → R S B
m >> k = m >>= λ _. k

abbrev pub when : {S : Type 0} → Bool → R S (Unit {0}) → R S (Unit {0})
when b m = if b then m else pure tt

-- `while(true) { ... }`
pub forever : {S : Type 0} → ℕ → R S (Unit {0}) → R S (Unit {0})
forever zero body = spin
forever (suc fuel) body = do body; forever fuel body

-- What the code depends on: the generated design and its ports, the sockets, and `tick`, which is
-- `waitForTick` from its call to its return: all that the main thread and the other threads do
-- meanwhile, and what it returns. `fuel` bounds each loop.
pub record Setting (V W : Type 0) : Type 0 where
  pub design : Design V
  pub ports : Ports V
  pub os : Sockets W
  pub tick : Shared V W → Bool × Shared V W
  pub fuel : ℕ

module _ {V W : Type 0} (x : Setting V W) where
  open x use {design, ports, os, tick, fuel}

  abbrev pub Piece : Type 0 → Type 0
  Piece A = R (Shared V W) A

  -- `TICK(dut)`
  abbrev pub tick_once : Piece (Unit {0})
  tick_once s = let (terminate, s') = tick s in some (if terminate then returned else go tt, s')

  abbrev pub fault : Shared V W → Shared V W
  unfolding report_error
  fault s = record s { dut = report_error s.dut }

  abbrev pub report : Piece (Unit {0})
  report s = some (go tt, fault s)

  -- `CHECK(dut, state, message)`
  abbrev pub check : Bool → Piece (Unit {0})
  check state s = if state then some (go tt, s) else some (joining, fault s)

  abbrev pub get_dut : Piece (TopDut V)
  get_dut s = some (go s.dut, s)

  abbrev pub with_dram : (ℕ → ℕ) → Piece (Unit {0})
  with_dram dram s = some (go tt, record s { dut = record s.dut { dram = dram } })

  abbrev on_design : (V → V) → Piece (Unit {0})
  on_design f s = some (go tt, record s { dut = record s.dut { design = f s.dut.design } })

  abbrev pub peek : Output → Piece ℕ
  peek o s = some (go (ports.get o s.dut.design), s)

  abbrev pub peek_wide : WideOutput → Piece (List ℕ)
  peek_wide o s = some (go (ports.get_wide o s.dut.design), s)

  abbrev pub poke : Input → ℕ → Piece (Unit {0})
  poke i n = on_design (ports.set i n)

  abbrev pub poke_wide : WideInput → List ℕ → Piece (Unit {0})
  poke_wide i bs = on_design (ports.set_wide i bs)

  abbrev pub eval : Piece (Unit {0})
  eval = on_design design.eval

  -- `while (!signal) TICK(dut);`
  unfoldable pub wait_until : ℕ → Output → Piece (Unit {0})
  wait_until zero o = spin
  wait_until (suc n) o = do
    level ← peek o
    let more = do tick_once; wait_until n o
    if level == 0 then more else pure tt

  -- `while (signal) TICK(dut);`
  unfoldable pub wait_while : ℕ → Output → Piece (Unit {0})
  wait_while zero o = spin
  wait_while (suc n) o = do
    level ← peek o
    let more = do tick_once; wait_while n o
    if level == 0 then pure tt else more

  -- `dut.reportError(...); TICK(dut); goto wait_for_join;`
  abbrev pub give_up : {A : Type 0} → Piece A
  give_up = do report; tick_once; join

  -- The loop around `getRequestAXIL` or `getRequestAXI`, over the memory of `result`.
  unfoldable pub poll : ℕ → (IpcServer → (ℕ → ℕ) → W → Option (Polled W)) → (ℕ → ℕ) → Piece (ℕ → ℕ)
  poll zero request mem s = none
  poll (suc n) request mem s = elim (request s.ipc mem s.world) [
    | none ↦ none
    | some p ↦
        let s' = record s { ipc = p.server; world = p.world } in
        let again : Piece (ℕ → ℕ) = (do tick_once; poll n request p.mem) in
        if p.done then some (go p.mem, s') else (if p.server.error then give_up s' else again s')
  ]

  -- `ipc.reply`
  abbrev pub send_reply : List ℕ → Piece Bool
  send_reply bytes s = elim (reply os fuel s.ipc bytes s.world) [
    | none ↦ none
    | some (done, ipc, world) ↦ some (go done, record s { ipc = ipc; world = world })
  ]

  -- `if (!ipc.reply(...)) { ... goto wait_for_join; }`
  abbrev pub must_reply : List ℕ → Piece (Unit {0})
  must_reply bytes = do done ← send_reply bytes; if done then pure tt else give_up

  -- A routine: its loop, and behind `wait_for_join` ticks without end.
  abbrev pub routine : Piece (Unit {0}) → Piece (Unit {0})
  routine body s = elim (forever fuel body s) [
    | none ↦ none
    | some (o, s') ↦ elim o [
      | go _ ↦ some (go tt, s')
      | returned ↦ some (returned, s')
      | joining ↦ forever fuel tick_once s'
    ]
  ]
