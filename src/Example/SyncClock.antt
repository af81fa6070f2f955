-- ===== src/Example/SyncClock.antt =====
-- regression/src/example/fuck_routine.cc: six threads that tick with the main thread, in any
-- interleaving. What the threads print is left out.
pub mod Rounds
pub mod Missed
use knockout_kraken.Base.{ℕ, zero, suc, ◌+◌, ◌≡◌, ◌≢◌, List, [], ◌∷◌, ◌++◌, map, replicate, tally}

-- Where a thread is, with the rounds of its loop that are left after the one it is in: before it
-- takes `thread_cnt_lock` in `waitTick`, after it has released it, in `top_to_sub.wait`, and behind
-- the loop.
pub data Sub : Type 0 where
  entering counted waiting : ℕ → Sub
  finished : Sub

-- Where the main thread is, with the rounds of its loop that are left: with `thread_cnt_lock` held, in
-- `sub_to_top.wait` with the lock released, in the joins (the lock is still held), and at its end.
pub data Top : Type 0 where
  holding asleep : ℕ → Top
  joining returned : Top

pub record State : Type 0 where
  pub top : Top
  pub thread_cnt : ℕ
  pub subs : List Sub

abbrev pub thread_number : ℕ
thread_number = 6

-- A thread whose wait ends goes on to its next round.
abbrev pub next_round : ℕ → Sub
next_round zero = finished
next_round (suc r) = entering r

-- `top_to_sub.notify_all()`.
abbrev pub notified : Sub → Sub
notified (waiting r) = next_round r
notified t = t

-- Before the main thread has come to its loop.
abbrev pub initial : State
initial = record { top = holding 10; thread_cnt = 0; subs = replicate thread_number (entering 9) }

-- The state behind the body of the main thread's loop, `i` rounds being left.
abbrev pub ticked : ℕ → State → State
ticked i s = record { top = holding i; thread_cnt = 0; subs = map notified s.subs }

-- A wait of a thread ends by the notification of a tick, or spuriously: it has no condition of its own.
pub data Step (s : State) : State → Type 0 where
  -- The first block of `waitTick`, which takes the lock. The wait of the main thread has a condition
  -- of its own, so that its notification adds nothing to `wake`.
  count :
      (xs ys : List Sub) (i r : ℕ)
      → s.top ≡ asleep i
      → s.subs ≡ xs ++ entering r ∷ ys
      → Step s (record s { thread_cnt = s.thread_cnt + 1; subs = xs ++ counted r ∷ ys })
  sleep :
      (xs ys : List Sub) (r : ℕ)
      → s.subs ≡ xs ++ counted r ∷ ys
      → Step s (record s { subs = xs ++ waiting r ∷ ys })
  spurious :
      (xs ys : List Sub) (r : ℕ)
      → s.subs ≡ xs ++ waiting r ∷ ys
      → Step s (record s { subs = xs ++ next_round r ∷ ys })
  -- The condition is tested first with the lock held, and again after each wake-up.
  release :
      (i : ℕ)
      → s.top ≡ holding (suc i)
      → s.thread_cnt ≢ thread_number
      → Step s (record s { top = asleep (suc i) })
  at_once : (i : ℕ) → s.top ≡ holding (suc i) → s.thread_cnt ≡ thread_number → Step s (ticked i s)
  wake : (i : ℕ) → s.top ≡ asleep (suc i) → s.thread_cnt ≡ thread_number → Step s (ticked i s)
  leave : s.top ≡ holding 0 → Step s (record s { top = joining })
  joined :
      s.top ≡ joining
      → s.subs ≡ replicate thread_number finished
      → Step s (record s { top = returned })

pub data Reach (s : State) : State → Type 0 where
  here : Reach s s
  later : {t u : State} → Reach s t → Step t u → Reach s u

abbrev pub IsNotified : {s t : State} → Step s t → Type 0
IsNotified (spurious xs ys r at) = ⊥
IsNotified _ = Unit

-- No wait on the way has ended spuriously.
abbrev pub Notified : {s t : State} → Reach s t → Type 0
Notified here = Unit
Notified (later r step) = Notified r × IsNotified step
