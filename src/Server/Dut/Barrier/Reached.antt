-- ===== src/Server/Dut/Barrier/Reached.antt =====
-- What holds in every state that the simulator reaches: the barrier of `tick` and the end of `join`.
use knockout_kraken.Base.{
  tally, tally-append, ℕ, ◌+◌, ◌^◌, ◌≤◌, ◌<◌, ◌≡◌, ◌↔◌, ◌⊎◌, inl, inr, refl, arith, true, false,
  List, [], ◌∷◌, ◌++◌, some, length, length-append,
}
use knockout_kraken.Server.Dut.{
  Design, Thread, running, parked, TopDut, new_dut, tick_start, tick_done, after_wait,
  wait_for_tick, report_error, register_subroutine, set_terminating,
}
use knockout_kraken.Server.Dut.Barrier.{
  setup, ticking, last_tick, closed, System, Step, register, first_tick, next_tick, end_tick,
  begin_join, join_tick, end_join, wait, spurious, fault, Reach, start, later, Notified, Inv,
  moved_in, wait-Inv, spurious-Inv, tick-Inv, join_tick-Inv, tick_done_lem,
}
use knockout_kraken.Server.Dut.Barrier.Calm.{IsCalm, Phase-at, Calm-at, done_stops, Step-Calm}
use knockout_kraken.Server.Dut.Barrier.Tally.{is_running, is_parked, is_finished, tally-wake}

module _ {V : Type 0} (v : Design V) where
  -- No step loses a thread.
  Step-grows : {s t : System V} → Step v s t → length s.dut.threads ≤ length t.dut.threads
  unfolding tick_start wait_for_tick report_error register_subroutine set_terminating
  Step-grows {s = s} (register e) = omega (arith, length-append s.dut.threads (running ∷ []))
  Step-grows {s = s} (first_tick e) = omega (arith, tally-wake s.dut.threads)
  Step-grows {s = s} (next_tick e) = omega (arith, tally-wake s.dut.threads)
  Step-grows (end_tick e d) = omega arith
  Step-grows (begin_join e) = omega arith
  Step-grows {s = s} (join_tick e) = omega (arith, tally-wake s.dut.threads)
  Step-grows (end_join e d) = omega arith
  Step-grows {s = s} (wait xs ys e) =
      omega (arith, moved_in s.dut running (after_wait s.dut) xs ys e)
  Step-grows {s = s} (spurious xs ys e) = omega (arith, moved_in s.dut parked running xs ys e)
  Step-grows fault = omega arith

  register-Inv :
      (s : System V)
      → s.main ≡ setup
      → Inv s
      → Inv (record { dut = register_subroutine s.dut; main = setup })
  unfolding register_subroutine
  register-Inv s e inv =
      let p = Phase-at v inv e in
      let ts = s.dut.threads in
      record {
        attached = inv.attached;
        none_decoupled = omega (
          arith,
          inv.none_decoupled,
          tally-append is_running ts (running ∷ []),
          tally-append is_parked ts (running ∷ []),
          tally-append is_finished ts (running ∷ []),
          length-append ts (running ∷ []),
        );
        phase = (omega (arith, p.0, tally-append is_finished ts (running ∷ [])), p.1);
      }

  Step-Inv : {s t : System V} → length s.dut.threads < 2 ^ 64 → Inv s → Step v s t → Inv t
  unfolding report_error set_terminating
  Step-Inv {s = s} small inv (register e) = register-Inv s e inv
  Step-Inv {s = s} small inv (first_tick e) =
      let p = Phase-at v inv e in tick-Inv v s.dut s.main inv p.0 p.1
  Step-Inv {s = s} small inv (next_tick e) =
      let p = Phase-at v inv e in tick-Inv v s.dut s.main inv p.0 p.1
  Step-Inv {s = s} small inv (end_tick e done) = record {
    attached = inv.attached;
    none_decoupled = inv.none_decoupled;
    phase = Phase-at v inv e;
  }
  Step-Inv {s = s} small inv (begin_join e) = record {
    attached = inv.attached;
    none_decoupled = inv.none_decoupled;
    phase = refl;
  }
  Step-Inv {s = s} small inv (join_tick e) = join_tick-Inv v s.dut (record {
    attached = inv.attached;
    none_decoupled = inv.none_decoupled;
    phase = Phase-at v inv e;
  })
  Step-Inv {s = s} small inv (end_join e done) =
      let p = Phase-at v inv e in
      record {
        attached = inv.attached;
        none_decoupled = inv.none_decoupled;
        phase = (done_stops v s inv small p.0 done, p.1, p.2);
      }
  Step-Inv {s = s} small inv (wait xs ys e) = wait-Inv s.dut s.main xs ys e inv
  Step-Inv {s = s} small inv (spurious xs ys e) = spurious-Inv s.dut s.main xs ys e inv
  Step-Inv {s = s} small inv fault = record {
    attached = inv.attached;
    none_decoupled = inv.none_decoupled;
    phase = inv.phase;
  }

  module _ (size : ℕ) (fresh : V) (uninit : ℕ → ℕ) (d : TopDut V)
      (made : new_dut v size fresh uninit ≡ some d) where
    start-Inv : Inv (record { dut = d; main = setup })
    unfolding new_dut
    start-Inv = ground arith

    Reach-Inv : {s : System V} → Reach v d s → length s.dut.threads < 2 ^ 64 → Inv s
    Reach-Inv start small = start-Inv
    Reach-Inv (later {s = s} r step) small =
        let before : length s.dut.threads < 2 ^ 64 = omega (arith, Step-grows step) in
        Step-Inv before (Reach-Inv r before) step

    Reach-Calm :
        {s : System V} (r : Reach v d s) → Notified r → length s.dut.threads < 2 ^ 64 → IsCalm v s
    Reach-Calm start n small = tt
    Reach-Calm (later {s = s} r step) (n, m) small =
        let before : length s.dut.threads < 2 ^ 64 = omega (arith, Step-grows step) in
        Step-Calm v step before (Reach-Inv r before) m (Reach-Calm r n before)

    counted_lem :
        {s : System V} (r : Reach v d s)
        → Notified r
        → length s.dut.threads < 2 ^ 64
        → (s.main ≡ ticking) ⊎ (s.main ≡ last_tick)
        → s.dut.ready_thread + tally is_running s.dut.threads ≡ length s.dut.threads
    counted_lem {s = s} r n small at =
        let calm = Reach-Calm r n small in
        elim at [ inl e ↦ Calm-at v s calm e | inr e ↦ Calm-at v s calm e ]

    -- In every state that the threads of a new object reach without a spurious return from the wait
    -- of a thread, with fewer than 2^64 threads, while the main thread is in the wait of a tick or of
    -- the last tick in join: it goes on exactly when no registered thread is still at work.
    pub tick_done_iff :
        {s : System V} (r : Reach v d s)
        → Notified r
        → length s.dut.threads < 2 ^ 64
        → (s.main ≡ ticking) ⊎ (s.main ≡ last_tick)
        → (tick_done s.dut ≡ true) ↔ (tally is_running s.dut.threads ≡ 0)
    tick_done_iff {s = s} r n small at =
        let e = counted_lem r n small at in
        ground (arith, e, tick_done_lem s.dut small (Reach-Inv r small).attached (omega (arith, e)))

    -- In every state that the threads of a new object reach, spurious returns from their waits
    -- included, with fewer than 2^64 threads: behind the last tick of join every registered thread
    -- has left waitForTick with true, so that the joins of the threads return.
    pub closed_finished :
        {s : System V}
        → Reach v d s
        → length s.dut.threads < 2 ^ 64
        → s.main ≡ closed
        → tally is_finished s.dut.threads ≡ length s.dut.threads
    closed_finished r small e =
        let inv = Reach-Inv r small in
        let p = Phase-at v inv e in omega (arith, inv.none_decoupled, p.0, p.1)

    -- The wait of a thread has no condition of its own. If, in a state of a tick that is reached
    -- without a spurious return, with fewer than 2^64 - 1 threads, all have come back, and a parked one
    -- wakes by itself before the main thread has looked and comes back once more, then no thread is
    -- at work and the condition of tick has become false: the simulator stands still.
    pub spurious_wakeup_stalls :
        {s : System V} (xs ys : List Thread) (r : Reach v d s)
        → Notified r
        → length s.dut.threads + 1 < 2 ^ 64
        → s.main ≡ ticking
        → s.dut.threads ≡ xs ++ parked ∷ ys
        → tally is_running s.dut.threads ≡ 0
        → (tick_done s.dut ≡ true)
          × (tally is_running (wait_for_tick s.dut (xs ++ after_wait s.dut ∷ ys)).threads ≡ 0)
          × (tick_done (wait_for_tick s.dut (xs ++ after_wait s.dut ∷ ys)) ≡ false)
    unfolding tick_done wait_for_tick
    spurious_wakeup_stalls {s = s} xs ys r n small e at none =
        let inv = Reach-Inv r (omega arith) in
        let c = counted_lem r n (omega arith) (inl e) in
        let p = Phase-at v inv e in
        ground (
          arith,
          p,
          c,
          inv.attached,
          at,
          none,
          length-append xs (parked ∷ ys),
          tally-append is_running xs (parked ∷ ys),
        )
