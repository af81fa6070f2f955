-- ===== src/Client/Examples/Testing.antt =====
-- The tests of the client over a device that is memory throughout.
use knockout_kraken.Base.{
  ℕ, ◌≡◌, ◌≢◌, ◌↔◌, refl, arith, [], some, none, pos, replicate, length-replicate, ◌<◌,
}
use knockout_kraken.Base.Monad.{ok}
use knockout_kraken.Client.Interface.{ArmflexArchState, transplant_pending}
use knockout_kraken.Client.Examples.Device.{device, registers, blank, blank-Words}
use knockout_kraken.Client.Test.{Driver, init_arch_state, require_state_is_identical}
use knockout_kraken.Client.Test.Cases.{transplant_in, poll_pending}
use knockout_kraken.Client.Test.LoadStore.{
  check_ldst_all_sizes_pair_store, write_page_block, init_mem_slot_pair, pair_byte,
}
use knockout_kraken.Client.Test.LoadStore.Slots.{check_pair_store-write_page_block}
use knockout_kraken.Client.Test.Stress.{wait_transplants}
use knockout_kraken.Client.Test.Stress.Endless.{wait_transplants_endless}
use knockout_kraken.Client.Fpga.{Fpga}
use knockout_kraken.Client.Test.Passes.{
  Identical, state-Identical_iff, poll_pending_returns, transplant_in_passes,
}

abbrev tested : Driver (Unit {0}) (ℕ → ℕ)
tested = record {
  context = tt;
  init_fpga_context = λ c w. some (ok c, w);
  calls = λ c. device;
  release_fpga_context = λ c w. (pos 0, w);
  sleep = λ n w. w;
  stale = blank;
  stale_page = [];
  stale_state = init_arch_state 0;
  fuel = 10;
}

abbrev fresh : ArmflexArchState
fresh = init_arch_state 5

abbrev flagged : ArmflexArchState
flagged = record fresh { nzcv = 16 }

state-Identical_iff_example :
    (require_state_is_identical fresh flagged blank ≡ some (ok tt, blank)) ↔ Identical fresh flagged
state-Identical_iff_example = state-Identical_iff fresh flagged blank

poll_pending_returns_example : poll_pending tested tt 1000 0 blank ≢ none
unfolding transplant_pending
poll_pending_returns_example = poll_pending_returns tested tt blank λ w e. grind arith

transplant_in_passes_example : (w' : ℕ → ℕ) × (transplant_in tested 1234 blank ≡ some (ok tt, w'))
transplant_in_passes_example =
    transplant_in_passes tested tt blank blank blank 1234 0 0x8000 refl registers blank-Words
      (omega arith, omega arith, omega arith, omega arith) (omega arith)

-- A device on which no thread is ever pending.
abbrev never_pending : Fpga (ℕ → ℕ)
never_pending = record device { read_axil = λ a w. some (ok 0, w) }

wait_transplants_endless_example :
    wait_transplants (record tested { calls = λ c. never_pending }) tt 4 1 1000 15 0 0 blank ≡ none
unfolding transplant_pending
wait_transplants_endless_example =
    wait_transplants_endless (record tested { calls = λ c. never_pending }) tt 4 1 1000 15 0 blank
      (λ v. (v, refl)) (omega arith)

check_pair_store-write_page_block_example :
    (check_ldst_all_sizes_pair_store
        (write_page_block (replicate 4096 0) (init_mem_slot_pair (replicate 32 0) 5 6 8) 0xA020 8)
        0xA020
        8
        5
        7
        blank
      ≡ some (ok tt, blank))
    ↔ ((i : ℕ) → i < 8 → pair_byte 5 6 8 i ≡ pair_byte 5 7 8 i)
check_pair_store-write_page_block_example =
    check_pair_store-write_page_block (replicate 4096 0) (replicate 32 0) 0xA020 8 5 6 5 7 blank
      (omega arith) (omega (arith, length-replicate {A = ℕ} 4096 0))
