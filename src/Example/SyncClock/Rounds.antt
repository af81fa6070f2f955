-- ===== src/Example/SyncClock/Rounds.antt =====
-- The main thread ticks only when all six threads have counted.
use knockout_kraken.Base.{
  ℕ, zero, suc, ◌+◌, ◌≤◌, ◌≡◌, refl, ap, arith, List, [], ◌∷◌, ◌++◌, map, tally, tally-append,
}
use knockout_kraken.Example.SyncClock.{
  Sub, entering, counted, waiting, finished, State, notified, initial, ticked, Step, count, sleep,
  release, at_once, wake, leave, joined, Reach, here, later, spurious, IsNotified, Notified,
}

abbrev pub is_entering : Sub → ℕ
is_entering (entering r) = 1
is_entering _ = 0

abbrev pub is_counted : Sub → ℕ
is_counted (counted r) = 1
is_counted _ = 0

abbrev pub is_waiting : Sub → ℕ
is_waiting (waiting r) = 1
is_waiting _ = 0

abbrev pub is_finished : Sub → ℕ
is_finished finished = 1
is_finished _ = 0

-- The counts when one thread goes from `a` to `b`.
pub moved :
    (f : Sub → ℕ) (ts xs ys : List Sub) (a b : Sub)
    → ts ≡ xs ++ a ∷ ys
    → tally f (xs ++ b ∷ ys) + f a ≡ tally f ts + f b
moved f ts xs ys a b e =
    omega (arith, ap (tally f) e, tally-append f xs (a ∷ ys), tally-append f xs (b ∷ ys))

-- `notify_all` makes the waiting threads enter or finish.
pub tally-notified :
    (ts : List Sub)
    → (tally is_entering (map notified ts) + tally is_finished (map notified ts)
        ≡ tally is_entering ts + tally is_finished ts + tally is_waiting ts)
      × (tally is_counted (map notified ts) ≡ tally is_counted ts)
      × (tally is_waiting (map notified ts) ≡ 0)
tally-notified [] = (refl, refl, refl)
tally-notified (entering r ∷ ts) = omega (arith, tally-notified ts)
tally-notified (counted r ∷ ts) = omega (arith, tally-notified ts)
tally-notified (waiting zero ∷ ts) = omega (arith, tally-notified ts)
tally-notified (waiting (suc r) ∷ ts) = omega (arith, tally-notified ts)
tally-notified (finished ∷ ts) = omega (arith, tally-notified ts)

-- Each count is by a thread that is still in `waitTick`.
pub record Inv (s : State) : Type 0 where
  pub all_threads :
      tally is_entering s.subs
        + tally is_counted s.subs
        + tally is_waiting s.subs
        + tally is_finished s.subs
      ≡ 6
  pub in_wait : s.thread_cnt ≤ tally is_counted s.subs + tally is_waiting s.subs

pub ticked-Inv : (i : ℕ) (s : State) → Inv s → Inv (ticked i s)
ticked-Inv i s inv = omega (arith, tally-notified s.subs, inv.all_threads)

pub Step-Inv : {s t : State} (step : Step s t) → IsNotified step → Inv s → Inv t
Step-Inv {s = s} (count xs ys i r e at) n inv =
    let go = λ (f : Sub → ℕ). moved f s.subs xs ys (entering r) (counted r) at in
    omega (arith, inv, go is_entering, go is_counted, go is_waiting, go is_finished)
Step-Inv {s = s} (sleep xs ys r at) n inv =
    let go = λ (f : Sub → ℕ). moved f s.subs xs ys (counted r) (waiting r) at in
    omega (arith, inv, go is_entering, go is_counted, go is_waiting, go is_finished)
Step-Inv (spurious xs ys r at) n inv = absurd n
Step-Inv (release i e k) n inv = omega (arith, inv)
Step-Inv {s = s} (at_once i e k) n inv = ticked-Inv i s inv
Step-Inv {s = s} (wake i e k) n inv = ticked-Inv i s inv
Step-Inv (leave e) n inv = omega (arith, inv)
Step-Inv (joined e all) n inv = omega (arith, inv)

pub Reach-Inv : {s : State} (r : Reach initial s) → Notified r → Inv s
Reach-Inv here n = omega arith
Reach-Inv (later r step) (n, m) = Step-Inv step m (Reach-Inv r n)

-- In every state that is reached without a spurious return from the wait of a thread, when the counter
-- has come to six, every thread has counted and is still in `waitTick`: none is about to enter it and
-- none has finished.
pub tick_all_counted :
    {s : State} (r : Reach initial s)
    → Notified r
    → s.thread_cnt ≡ 6
    → (tally is_entering s.subs ≡ 0)
      × (tally is_finished s.subs ≡ 0)
      × (tally is_counted s.subs + tally is_waiting s.subs ≡ 6)
tick_all_counted r n e = omega (arith, Reach-Inv r n, e)
