-- ===== src/Client/Test/HostControl.antt =====
-- regression/src/client/tests/host-control.cc: a thread that loops for ever, stopped by the host. An
-- assertion that fails ends the test as a REQUIRE does.
use knockout_kraken.Base.{ℕ, true, not, List, Option, replicate, ◌==◌}
use knockout_kraken.Base.Monad.{M, pure, ◌>>=◌, ◌>>◌, attempt, out}
use knockout_kraken.Client.Message.{MemoryAccessType, access_code, make_miss_reply}
use knockout_kraken.Client.Interface.{
  page_size, register_and_push_state, transplant_start, transplant_pending, transplant_stop_cpu,
  push_page_to_fpga,
}
use knockout_kraken.Client.Test.{
  Driver, require, no_thread, init_arch_state, advance_ticks, release, send,
}
use knockout_kraken.Client.Test.Cases.{start}
use knockout_kraken.Client.Test.States.{init_state_infinite_loop, of_int, load_over}

module _ {C W : Type 0} (d : Driver C W) (write_sim_ctrl : C → ℕ → ℕ → M W (Unit {0})) where
  open d use {calls, stale}

  -- `advanceTicks(&ctx, 100)`, its result ignored.
  abbrev advance : C → M W (Unit {0})
  advance c = do _ ← attempt (advance_ticks (write_sim_ctrl c) 100); pure tt

  -- `transplant_pending(&ctx, &pending_threads)`, its result ignored.
  abbrev pending : C → M W ℕ
  pending c = do r ← attempt (transplant_pending (calls c)); pure (out 0 r)

  unfoldable pub host_cmd_stop_cpu : Option (List ℕ) → M W (Unit {0})
  unfolding init_arch_state load_over
  host_cmd_stop_cpu file = do
    c ← start d
    let asid : ℕ = 0x10
    let state = init_state_infinite_loop true (init_arch_state 0xABCD_ABCD_0000)
    let paddr = of_int (calls c).base_address.page_base
    page ← load_over (replicate page_size 0) file
    _ ← attempt (push_page_to_fpga (calls c) paddr page)
    _ ← send d c (
        make_miss_reply (access_code MemoryAccessType.inst_fetch) no_thread asid state.pc paddr
          stale)
    _ ← attempt (register_and_push_state (calls c) 0 asid state)
    advance c
    _ ← attempt (transplant_start (calls c) 0)
    advance c
    running ← pending c
    require (running == 0)
    advance c
    _ ← attempt (transplant_stop_cpu (calls c) 0)
    advance c
    stopped ← pending c
    require (not (stopped == 0))
    release d c
