-- ===== src/Client/Test/Stress/Endless.antt =====
-- The wait for the first transplants of the threads.
use knockout_kraken.Base.{ℕ, zero, suc, ◌<◌, ◌≡◌, refl, arith, none, some, ≢→==}
use knockout_kraken.Base.Monad.{ok, ◌>>=◌, ◌>>◌}
use knockout_kraken.Client.Interface.{transplant_pending}
use knockout_kraken.Client.Test.{Driver}
use knockout_kraken.Client.Test.Stress.{wait_transplants}

module _ {C W : Type 0} (d : Driver C W) (c : C) (thid_n pages_per_thread : ℕ) where
  -- The test gives the threads a hundred rounds to come back, and does not count the rounds: over a
  -- device on which no thread is ever pending, the wait for one thread or more never ends, whatever
  -- the fuel.
  pub wait_transplants_endless :
      (fuel threads_mask pending_threads : ℕ) (w : W)
      → ((v : W) → (v' : W) × (transplant_pending (d.calls c) v ≡ some (ok 0, v')))
      → 0 < threads_mask
      → wait_transplants d c thid_n pages_per_thread fuel threads_mask 0 pending_threads w ≡ none
  unfolding wait_transplants
  wait_transplants_endless zero threads_mask pending_threads w idle some_threads = refl
  wait_transplants_endless (suc fuel) threads_mask pending_threads w idle some_threads =
      let (v, e) = idle w in
      rw (≢→== 0 threads_mask (omega arith), e, ◌>>=◌, ◌>>◌)
        (wait_transplants_endless fuel threads_mask 0 (d.sleep 100000 v) idle some_threads)
