-- ===== src/Server/Dut/Barrier.antt =====
-- The threads of the simulator in any interleaving: main.cc registers the subroutines, ticks, and
-- joins; a subroutine works between two calls of `waitForTick`. The routines of subroutine.cc never
-- decouple, so no step here does.
pub mod Tally
pub mod Calm
pub mod Reached
use knockout_kraken.Base.{
  tally, tally-append, ℕ, zero, suc, ◌+◌, ◌-◌, ◌%◌, ◌^◌, ◌≤◌, ◌<◌, ◌≡◌, ◌≢◌, ◌↔◌, refl, sym, subst,
  ap, ◌∙◌, arith, Bool, true, false, List, [], ◌∷◌, ◌++◌, map, length, length-append, ==_iff,
  if◌then◌else◌,
}
use knockout_kraken.Base.Word.{u64}
use Tally.{is_running, is_parked, is_finished, tally-wake}
use knockout_kraken.Server.Dut.{
  Design, Thread, running, parked, decoupled, finished, TopDut, wake, tick_start, tick_done,
  after_wait, wait_for_tick, report_error, register_subroutine, set_terminating,
}

-- Where the main thread is: registering, in the wait of `tick`, between two ticks, in `join` before
-- its tick, in the wait of that tick, and behind it.
pub data Main : Type 0 where
  setup ticking between closing last_tick closed : Main

pub record System (V : Type 0) : Type 0 where
  pub dut : TopDut V
  pub main : Main

-- A wait of a thread ends by the notification of a tick, or spuriously: it has no condition of its own.
pub data Step {V : Type 0} (v : Design V) (s : System V) : System V → Type 0 where
  register : s.main ≡ setup → Step v s (record { dut = register_subroutine s.dut; main = setup })
  first_tick : s.main ≡ setup → Step v s (record { dut = tick_start v s.dut; main = ticking })
  next_tick : s.main ≡ between → Step v s (record { dut = tick_start v s.dut; main = ticking })
  end_tick :
      s.main ≡ ticking → tick_done s.dut ≡ true → Step v s (record { dut = s.dut; main = between })
  begin_join :
      s.main ≡ between → Step v s (record { dut = set_terminating true s.dut; main = closing })
  join_tick : s.main ≡ closing → Step v s (record { dut = tick_start v s.dut; main = last_tick })
  end_join :
      s.main ≡ last_tick → tick_done s.dut ≡ true → Step v s (record { dut = s.dut; main = closed })
  wait :
      (xs ys : List Thread)
      → s.dut.threads ≡ xs ++ running ∷ ys
      → Step v s (record { dut = wait_for_tick s.dut (xs ++ after_wait s.dut ∷ ys); main = s.main })
  spurious :
      (xs ys : List Thread)
      → s.dut.threads ≡ xs ++ parked ∷ ys
      → Step v s (record { dut = record s.dut { threads = xs ++ running ∷ ys }; main = s.main })
  fault : Step v s (record { dut = report_error s.dut; main = s.main })

pub data Reach {V : Type 0} (v : Design V) (d : TopDut V) : System V → Type 0 where
  start : Reach v d (record { dut = d; main = setup })
  later : {s t : System V} → Reach v d s → Step v s t → Reach v d t

abbrev pub IsNotified : {V : Type 0} {v : Design V} {s t : System V} → Step v s t → Type 0
IsNotified (spurious xs ys e) = ⊥
IsNotified _ = Unit

-- No wait on the way has ended spuriously.
abbrev pub Notified :
    {V : Type 0} {v : Design V} {d : TopDut V} {s : System V} → Reach v d s → Type 0
Notified start = Unit
Notified (later r step) = Notified r × IsNotified step

-- What each place of the main thread says about the counter and the threads.
abbrev pub Phase : Main → ℕ → Bool → List Thread → Type 0
Phase closing ready term ts = term ≡ true
Phase last_tick ready term ts =
    (ready + tally is_running ts ≤ length ts) × (tally is_parked ts ≡ 0) × (term ≡ true)
Phase closed ready term ts = (tally is_running ts ≡ 0) × (tally is_parked ts ≡ 0) × (term ≡ true)
Phase _ ready term ts = (tally is_finished ts ≡ 0) × (term ≡ false)

pub record Inv {V : Type 0} (s : System V) : Type 0 where
  pub attached : s.dut.decoupled_count ≡ 0
  pub none_decoupled :
      tally is_running s.dut.threads
        + tally is_parked s.dut.threads
        + tally is_finished s.dut.threads
      ≡ length s.dut.threads
  pub phase : Phase s.main s.dut.ready_thread s.dut.terminating s.dut.threads

-- The counts after one thread has gone from `a` to `b`.
abbrev pub Moved : Thread → Thread → List Thread → List Thread → Type 0
Moved a b ts ts' =
    (tally is_running ts' + is_running a ≡ tally is_running ts + is_running b)
    × (tally is_parked ts' + is_parked a ≡ tally is_parked ts + is_parked b)
    × (tally is_finished ts' + is_finished a ≡ tally is_finished ts + is_finished b)
    × (length ts' ≡ length ts)

moved : (a b : Thread) (xs ys : List Thread) → Moved a b (xs ++ a ∷ ys) (xs ++ b ∷ ys)
moved a b [] ys = omega arith
moved a b (x ∷ xs) ys = omega (arith, moved a b xs ys)

-- The same for the threads of the object.
pub moved_in :
    {V : Type 0} (d : TopDut V) (a b : Thread) (xs ys : List Thread)
    → d.threads ≡ xs ++ a ∷ ys
    → Moved a b d.threads (xs ++ b ∷ ys)
moved_in d a b xs ys e =
    subst (λ (ts : List Thread). Moved a b ts (xs ++ b ∷ ys)) (sym e) (moved a b xs ys)

-- A thread that runs keeps `Phase` by its wait.
wait-Phase :
    (m : Main) (ready : ℕ) (term : Bool) (ts ts' : List Thread)
    → Moved running (if term then finished else parked) ts ts'
    → Phase m ready term ts
    → Phase m (u64 (ready + 1)) term ts'
wait-Phase setup ready term ts ts' v p = ground arith
wait-Phase ticking ready term ts ts' v p = ground arith
wait-Phase between ready term ts ts' v p = ground arith
wait-Phase closing ready term ts ts' v p = p
wait-Phase last_tick ready term ts ts' v p = ground arith
wait-Phase closed ready term ts ts' v p = ground arith

pub wait-Inv :
    {V : Type 0} (d : TopDut V) (m : Main) (xs ys : List Thread)
    → d.threads ≡ xs ++ running ∷ ys
    → Inv (record { dut = d; main = m })
    → Inv (record { dut = wait_for_tick d (xs ++ after_wait d ∷ ys); main = m })
unfolding wait_for_tick
wait-Inv d m xs ys e inv =
    let v = moved_in d running (after_wait d) xs ys e in
    record {
      attached = inv.attached;
      none_decoupled = ground (arith, v, inv.none_decoupled);
      phase =
          wait-Phase m d.ready_thread d.terminating d.threads (xs ++ after_wait d ∷ ys) v inv.phase;
    }

spurious-Phase :
    (m : Main) (ready : ℕ) (term : Bool) (ts ts' : List Thread)
    → Moved parked running ts ts'
    → Phase m ready term ts
    → Phase m ready term ts'
spurious-Phase setup ready term ts ts' v p = (omega (arith, v, p.0), p.1)
spurious-Phase ticking ready term ts ts' v p = (omega (arith, v, p.0), p.1)
spurious-Phase between ready term ts ts' v p = (omega (arith, v, p.0), p.1)
spurious-Phase closing ready term ts ts' v p = p
spurious-Phase last_tick ready term ts ts' v p = absurd (omega (arith, v, p.1))
spurious-Phase closed ready term ts ts' v p = absurd (omega (arith, v, p.1))

pub spurious-Inv :
    {V : Type 0} (d : TopDut V) (m : Main) (xs ys : List Thread)
    → d.threads ≡ xs ++ parked ∷ ys
    → Inv (record { dut = d; main = m })
    → Inv (record { dut = record d { threads = xs ++ running ∷ ys }; main = m })
spurious-Inv d m xs ys e inv =
    let v = moved_in d parked running xs ys e in
    record {
      attached = inv.attached;
      none_decoupled = omega (arith, v, inv.none_decoupled);
      phase =
          spurious-Phase m d.ready_thread d.terminating d.threads (xs ++ running ∷ ys) v inv.phase;
    }

pub tick-Inv :
    {V : Type 0} (v : Design V) (d : TopDut V) (m : Main)
    → Inv (record { dut = d; main = m })
    → tally is_finished d.threads ≡ 0
    → d.terminating ≡ false
    → Inv (record { dut = tick_start v d; main = ticking })
unfolding tick_start
tick-Inv v d m inv none term = record {
  attached = inv.attached;
  none_decoupled = omega (arith, tally-wake d.threads, inv.none_decoupled);
  phase = (omega (arith, tally-wake d.threads), term);
}

pub join_tick-Inv :
    {V : Type 0} (v : Design V) (d : TopDut V)
    → Inv (record { dut = d; main = closing })
    → Inv (record { dut = tick_start v d; main = last_tick })
unfolding tick_start
join_tick-Inv v d inv = record {
  attached = inv.attached;
  none_decoupled = omega (arith, tally-wake d.threads, inv.none_decoupled);
  phase = (
    omega (arith, tally-wake d.threads, inv.none_decoupled),
    omega (arith, tally-wake d.threads),
    inv.phase,
  );
}

-- `tick` goes on exactly when all threads have come back.
pub tick_done_lem :
    {V : Type 0} (d : TopDut V)
    → length d.threads < 2 ^ 64
    → d.decoupled_count ≡ 0
    → d.ready_thread ≤ length d.threads
    → (tick_done d ≡ true) ↔ (d.ready_thread ≡ length d.threads)
unfolding tick_done
tick_done_lem d small att le = ground arith
