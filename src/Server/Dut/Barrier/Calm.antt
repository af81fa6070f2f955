-- ===== src/Server/Dut/Barrier/Calm.antt =====
-- The counter of the ready threads, as long as no wait has ended spuriously.
use knockout_kraken.Base.{
  tally, ℕ, ◌+◌, ◌^◌, ◌≤◌, ◌<◌, ◌≡◌, refl, arith, Bool, true, false, List, ◌∷◌, ◌++◌, length, subst,
  if◌then◌else◌,
}
use knockout_kraken.Base.Word.{u64}
use knockout_kraken.Server.Dut.{
  Design, Thread, running, parked, finished, tick_start, tick_done, after_wait, wait_for_tick,
  report_error, set_terminating,
}
use knockout_kraken.Server.Dut.Barrier.{
  Main, setup, ticking, between, closing, last_tick, closed, System, Step, register, first_tick,
  next_tick, end_tick, begin_join, join_tick, end_join, wait, spurious, fault, IsNotified, Phase,
  Inv, moved_in, Moved, tick_done_lem,
}
use knockout_kraken.Server.Dut.Barrier.Tally.{is_running, is_finished, tally-wake}

-- In the wait of a tick each thread is at work or counted.
abbrev pub Calm : Main → ℕ → List Thread → Type 0
Calm ticking ready ts = ready + tally is_running ts ≡ length ts
Calm between ready ts = tally is_running ts ≡ 0
Calm closing ready ts = (tally is_running ts ≡ 0) × (tally is_finished ts ≡ 0)
Calm last_tick ready ts = ready + tally is_running ts ≡ length ts
Calm _ ready ts = Unit

wait-Calm :
    (m : Main) (ready : ℕ) (t : Thread) (ts ts' : List Thread)
    → length ts < 2 ^ 64
    → is_running t ≡ 0
    → Moved running t ts ts'
    → Calm m ready ts
    → Calm m (u64 (ready + 1)) ts'
wait-Calm setup ready t ts ts' small r v c = tt
wait-Calm ticking ready t ts ts' small r v c = omega (arith, v, c, r)
wait-Calm between ready t ts ts' small r v c = absurd (omega (arith, v, c, r))
wait-Calm closing ready t ts ts' small r v c = absurd (omega (arith, v, c, r))
wait-Calm last_tick ready t ts ts' small r v c = omega (arith, v, c, r)
wait-Calm closed ready t ts ts' small r v c = tt

after_wait_stops : (term : Bool) → is_running (if term then finished else parked) ≡ 0
after_wait_stops true = refl
after_wait_stops false = refl

module _ {V : Type 0} (v : Design V) where
  abbrev pub IsCalm : System V → Type 0
  IsCalm s = Calm s.main s.dut.ready_thread s.dut.threads

  pub Phase-at :
      {s : System V} {m : Main}
      → Inv s
      → s.main ≡ m
      → Phase m s.dut.ready_thread s.dut.terminating s.dut.threads
  Phase-at {s = s} inv e =
      subst (λ (m : Main). Phase m s.dut.ready_thread s.dut.terminating s.dut.threads) e inv.phase

  pub Calm-at :
      (s : System V) {m : Main} → IsCalm s → s.main ≡ m → Calm m s.dut.ready_thread s.dut.threads
  Calm-at s calm e = subst (λ (m : Main). Calm m s.dut.ready_thread s.dut.threads) e calm

  -- The wait of a tick is over only when no thread is at work, if no more are counted than are not.
  pub done_stops :
      (s : System V)
      → Inv s
      → length s.dut.threads < 2 ^ 64
      → s.dut.ready_thread + tally is_running s.dut.threads ≤ length s.dut.threads
      → tick_done s.dut ≡ true
      → tally is_running s.dut.threads ≡ 0
  done_stops s inv small le done =
      ground (arith, le, (tick_done_lem s.dut small inv.attached (omega (arith, le))).0 done)

  woken-Calm :
      (s : System V)
      → Inv s
      → tally is_finished s.dut.threads ≡ 0
      → (tick_start v s.dut).ready_thread + tally is_running (tick_start v s.dut).threads
        ≡ length (tick_start v s.dut).threads
  unfolding tick_start
  woken-Calm s inv none = omega (arith, tally-wake s.dut.threads, inv.none_decoupled)

  pub Step-Calm :
      {s t : System V} (step : Step v s t)
      → length s.dut.threads < 2 ^ 64
      → Inv s
      → IsNotified step
      → IsCalm s
      → IsCalm t
  unfolding report_error set_terminating wait_for_tick
  Step-Calm (register e) small inv n c = tt
  Step-Calm {s = s} (first_tick e) small inv n c = woken-Calm s inv (Phase-at inv e).0
  Step-Calm {s = s} (next_tick e) small inv n c = woken-Calm s inv (Phase-at inv e).0
  Step-Calm {s = s} (end_tick e done) small inv n c =
      let c' = Calm-at s c e in done_stops s inv small (omega (arith, c')) done
  Step-Calm {s = s} (begin_join e) small inv n c = (Calm-at s c e, (Phase-at inv e).0)
  Step-Calm {s = s} (join_tick e) small inv n c = woken-Calm s inv (Calm-at s c e).1
  Step-Calm (end_join e done) small inv n c = tt
  Step-Calm {s = s} (wait xs ys e) small inv n c =
      wait-Calm s.main s.dut.ready_thread (after_wait s.dut) s.dut.threads
        (xs ++ after_wait s.dut ∷ ys) small (after_wait_stops s.dut.terminating)
        (moved_in s.dut running (after_wait s.dut) xs ys e) c
  Step-Calm (spurious xs ys e) small inv n c = absurd n
  Step-Calm fault small inv n c = c
