-- ===== src/Server/Dut/Barrier/Tally.antt =====
-- Counting the threads of a kind.
use knockout_kraken.Base.{tally, ℕ, ◌+◌, ◌≡◌, refl, arith, List, [], ◌∷◌, map, length}
use knockout_kraken.Server.Dut.{Thread, running, parked, decoupled, finished, wake}

abbrev pub is_running : Thread → ℕ
is_running running = 1
is_running _ = 0

abbrev pub is_parked : Thread → ℕ
is_parked parked = 1
is_parked _ = 0

abbrev pub is_finished : Thread → ℕ
is_finished finished = 1
is_finished _ = 0

-- `notify_all` makes the parked threads run.
pub tally-wake :
    (ts : List Thread)
    → (tally is_running (map wake ts) ≡ tally is_running ts + tally is_parked ts)
      × (tally is_parked (map wake ts) ≡ 0)
      × (tally is_finished (map wake ts) ≡ tally is_finished ts)
      × (length (map wake ts) ≡ length ts)
tally-wake [] = (refl, refl, refl, refl)
tally-wake (running ∷ ts) = omega (arith, tally-wake ts)
tally-wake (parked ∷ ts) = omega (arith, tally-wake ts)
tally-wake (decoupled ∷ ts) = omega (arith, tally-wake ts)
tally-wake (finished ∷ ts) = omega (arith, tally-wake ts)
