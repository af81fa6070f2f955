-- ===== src/Example/SyncClock/Missed.antt =====
-- A thread that has counted, but does not wait yet when the main thread notifies, misses its wake-up.
use knockout_kraken.Base.{ℕ, ◌+◌, ◌<◌, ◌≡◌, ◌≢◌, ap, arith, tally}
use knockout_kraken.Example.SyncClock.{
  Sub, entering, counted, waiting, returned, State, initial, ticked, Step, count, sleep, release,
  at_once, wake, leave, joined, Reach, here, later, spurious, IsNotified, Notified,
}
use knockout_kraken.Example.SyncClock.Rounds.{
  is_entering, is_counted, is_waiting, is_finished, moved, tally-notified, tick_all_counted,
}

-- Too few threads can still count for another tick, and one is in `waitTick`.
record Stalled (s : State) : Type 0 where
  all_threads :
      tally is_entering s.subs
        + tally is_counted s.subs
        + tally is_waiting s.subs
        + tally is_finished s.subs
      ≡ 6
  few : s.thread_cnt + tally is_entering s.subs < 6
  inside : 0 < tally is_counted s.subs + tally is_waiting s.subs
  running : s.top ≢ returned

Step-Stalled : {s t : State} (step : Step s t) → IsNotified step → Stalled s → Stalled t
Step-Stalled {s = s} (count xs ys i r e at) m st =
    let go = λ (f : Sub → ℕ). moved f s.subs xs ys (entering r) (counted r) at in
    record {
      all_threads =
          omega
            (arith, st.all_threads, go is_entering, go is_counted, go is_waiting, go is_finished);
      few = omega (arith, st.few, go is_entering);
      inside = omega (arith, st.inside, go is_counted, go is_waiting);
      running = st.running;
    }
Step-Stalled {s = s} (sleep xs ys r at) m st =
    let go = λ (f : Sub → ℕ). moved f s.subs xs ys (counted r) (waiting r) at in
    record {
      all_threads =
          omega
            (arith, st.all_threads, go is_entering, go is_counted, go is_waiting, go is_finished);
      few = omega (arith, st.few, go is_entering);
      inside = omega (arith, st.inside, go is_counted, go is_waiting);
      running = st.running;
    }
Step-Stalled (spurious xs ys r at) m st = absurd m
Step-Stalled (release i e n) m st = record {
  all_threads = st.all_threads;
  few = st.few;
  inside = st.inside;
  running = λ h. cc;
}
Step-Stalled (at_once i e n) m st = absurd (omega (arith, st.few, n))
Step-Stalled (wake i e n) m st = absurd (omega (arith, st.few, n))
Step-Stalled (leave e) m st = record {
  all_threads = st.all_threads;
  few = st.few;
  inside = st.inside;
  running = λ h. cc;
}
Step-Stalled (joined e all) m st =
    absurd (omega (arith, st.inside, ap (tally is_counted) all, ap (tally is_waiting) all))

Reach-Stalled : {s t : State} → Stalled s → (r : Reach s t) → Notified r → Stalled t
Reach-Stalled st here n = st
Reach-Stalled st (later r step) (n, m) = Step-Stalled step m (Reach-Stalled st r n)

-- When the main thread ticks in a reachable state in which some thread has counted but does not wait
-- yet, and no wait ends but by a notification, the program never ends: in no state reached from there
-- has the main thread returned, however many rounds are left.
pub missed_never_returns :
    {s t : State} (i : ℕ) (r : Reach initial s)
    → Notified r
    → s.thread_cnt ≡ 6
    → 0 < tally is_counted s.subs
    → (after : Reach (ticked i s) t) → Notified after
    → t.top ≢ returned
missed_never_returns {s = s} i r n six counted_ after n' =
    let all = tick_all_counted r n six in
    let at = tally-notified s.subs in
    let stalled : Stalled (ticked i s) = record {
      all_threads = omega (arith, all, at);
      few = omega (arith, all, at);
      inside = omega (arith, counted_, at);
      running = λ h. cc;
    } in
    (Reach-Stalled stalled after n').running
