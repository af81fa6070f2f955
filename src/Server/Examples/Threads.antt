-- ===== src/Server/Examples/Threads.antt =====
-- Two threads behind a design that is its clock and its reset only.
use knockout_kraken.Base.{
  tally, ℕ, ◌-◌, ◌^◌, ◌≡◌, ◌↔◌, inl, refl, arith, Bool, true, false, List, [], ◌∷◌, some,
}
use knockout_kraken.Server.Dut.{
  Design, Thread, running, parked, finished, TopDut, new_dut, tick_start, tick_done, wait_for_tick,
  register_subroutine, addr_mask, power2_loop, set_terminating,
}
use knockout_kraken.Server.Dut.Barrier.{
  ticking, closed, System, register, first_tick, end_tick, begin_join, join_tick, end_join, wait,
  Reach, start, later, Notified,
}
use knockout_kraken.Server.Dut.Barrier.Tally.{is_running, is_finished}
use knockout_kraken.Server.Dut.Barrier.Reached.{
  tick_done_iff, closed_finished, spurious_wakeup_stalls,
}

record Wires : Type 0 where
  clock : ℕ
  resetting : ℕ

abbrev design : Design Wires
design = record {
  eval = λ v. v;
  set_clock = λ n v. record v { clock = n };
  set_reset = λ n v. record v { resetting = n };
}

abbrev blank : ℕ → ℕ
blank a = 0

abbrev fresh : Wires
fresh = record { clock = 0; resetting = 0 }

abbrev dut_with : ℕ → ℕ → List Thread → Bool → TopDut Wires
dut_with time ready threads terminating = record {
  design = fresh;
  dram = blank;
  dram_size = 2 ^ 24;
  dram_addr_mask = 2 ^ 25 - 1;
  axi_base_addr = 2 ^ 24;
  time = time;
  ready_thread = ready;
  decoupled_count = 0;
  threads = threads;
  terminating = terminating;
  error_occurred = false;
}

abbrev made : TopDut Wires
made = dut_with 0 0 [] false

abbrev at_work : System Wires
at_work = record { dut = dut_with 2 1 (parked ∷ running ∷ []) false; main = ticking }

abbrev all_back : System Wires
all_back = record { dut = dut_with 2 2 (parked ∷ parked ∷ []) false; main = ticking }

to_at_work : Reach design made at_work
unfolding tick_start wait_for_tick register_subroutine
to_at_work =
    later (later (later (later start (register refl)) (register refl)) (first_tick refl))
      (wait [] (running ∷ []) refl)

to_at_work-Notified : Notified to_at_work
unfolding to_at_work
to_at_work-Notified = ((((tt, tt), tt), tt), tt)

to_all_back : Reach design made all_back
unfolding wait_for_tick
to_all_back = later to_at_work (wait (parked ∷ []) [] refl)

to_all_back-Notified : Notified to_all_back
unfolding to_all_back
to_all_back-Notified = (to_at_work-Notified, tt)

abbrev gone : System Wires
gone = record { dut = dut_with 4 2 (finished ∷ finished ∷ []) true; main = closed }

gone-Reach : Reach design made gone
unfolding tick_start tick_done wait_for_tick set_terminating
gone-Reach =
    later
      (later
        (later
          (later (later (later to_all_back (end_tick refl refl)) (begin_join refl))
            (join_tick refl))
          (wait [] (running ∷ []) refl))
        (wait (finished ∷ []) [] refl))
      (end_join refl refl)

made-new_dut : new_dut design (2 ^ 24) fresh blank ≡ some made
unfolding new_dut addr_mask power2_loop
made-new_dut = refl

tick_done_iff_example :
    (tick_done at_work.dut ≡ true) ↔ (tally is_running (parked ∷ running ∷ []) ≡ 0)
tick_done_iff_example =
    tick_done_iff design (2 ^ 24) fresh blank made made-new_dut to_at_work to_at_work-Notified
      (omega arith) (inl refl)

closed_finished_example : tally is_finished (finished ∷ finished ∷ []) ≡ 2
closed_finished_example =
    closed_finished design (2 ^ 24) fresh blank made made-new_dut gone-Reach (omega arith) refl

spurious_wakeup_stalls_example :
    (tick_done all_back.dut ≡ true)
    × (tally is_running (wait_for_tick all_back.dut (parked ∷ parked ∷ [])).threads ≡ 0)
    × (tick_done (wait_for_tick all_back.dut (parked ∷ parked ∷ [])) ≡ false)
spurious_wakeup_stalls_example =
    spurious_wakeup_stalls design (2 ^ 24) fresh blank made made-new_dut [] (parked ∷ [])
      to_all_back to_all_back-Notified (omega arith) refl refl refl
