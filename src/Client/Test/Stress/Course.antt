-- ===== src/Client/Test/Stress/Course.antt =====
-- regression/src/client/tests/back-pressure.cc: the course of the test, and its two test cases.
use knockout_kraken.Base.{
  ℕ, zero, suc, ◌+◌, ◌*◌, ◌-◌, ◌^◌, Bool, true, false, List, Option, bit_or, ◌==◌, if◌then◌else◌,
  leb,
}
use knockout_kraken.Base.Word.{u32, u64, ◌<<<◌}
use knockout_kraken.Base.Monad.{M, pure, spin, ◌>>=◌, ◌>>◌, attempt, out}
use knockout_kraken.Client.Message.{MessageFpga, MemoryAccessType, access_code, make_miss_reply}
use knockout_kraken.Client.Interface.{
  ArmflexArchState, page_size, register_and_push_state, transplant_back, transplant_start,
  transplant_pending, transplant_free_pending, has_message_pending, push_page_to_fpga,
}
use knockout_kraken.Client.Test.{
  Driver, require, require_ok, no_thread, state_after, require_state_is_identical,
  make_deadbeef_page, make_zero_page, release, send, synchronize_page,
}
use knockout_kraken.Client.Test.Cases.{start}
use knockout_kraken.Client.Test.States.{load_over}
use knockout_kraken.Client.Test.Stress.{
  check_page_per_word, page_inst_paddr, page_data_ld_paddr, vaddr_ld, vaddr_st, asid_of,
  initial_state, for_threads, wait_transplants, take_pending, Progress, first_cursor,
  page_data_st_paddr, thread_offset, page_of,
}

module _ {C W : Type 0} (d : Driver C W) (c : C) (thid_n pages_per_thread : ℕ) where
  open d use {calls, stale, fuel}

  -- The wait for the programs to complete, on fuel.
  unfoldable pub wait_programs :
      ℕ
      → (threads_mask completed pending_threads iterations : ℕ) → MessageFpga
      → Progress d c thid_n pages_per_thread
      → M W (Unit {0})
  unfolding take_pending
  wait_programs zero threads_mask completed pending_threads iterations m p = spin
  wait_programs (suc fuel) threads_mask completed pending_threads iterations m p =
      let again : M W (Unit {0}) = do
        r ← attempt (transplant_pending (calls c))
        let pending = out pending_threads r
        let free : M W (Unit {0}) = do
          _ ← attempt (transplant_free_pending (calls c) pending)
          pure tt
        if pending == 0 then pure tt else free
        has_message ← has_message_pending (calls c)
        let none_yet : M W (MessageFpga × ℕ × Progress d c thid_n pages_per_thread) =
            pure (m, iterations, p)
        let one : M W (MessageFpga × ℕ × Progress d c thid_n pages_per_thread) =
            take_pending d c thid_n pages_per_thread m iterations p
        next ← if has_message then one else none_yet
        wait_programs fuel threads_mask (bit_or completed pending) pending next.1 next.0 next.2
      in if completed == threads_mask then pure tt else again

  -- A thread is registered and its state pushed.
  abbrev pub register_thread : (pc thid : ℕ) → M W (Unit {0})
  register_thread pc thid = do
    _ ← attempt (
        register_and_push_state (calls c) thid (asid_of d c thid_n pages_per_thread thid)
          (initial_state d c thid_n pages_per_thread pc thid))
    pure tt

  -- The replies for the page of instructions, one into the other.
  pub map_instructions : MessageFpga → (thid left : ℕ) → M W MessageFpga
  map_instructions reply thid zero = pure reply
  map_instructions reply thid (suc left) = do
    let reply' =
        make_miss_reply (access_code MemoryAccessType.inst_fetch) no_thread
          (asid_of d c thid_n pages_per_thread thid) 0x3000 page_inst_paddr reply
    _ ← send d c reply'
    map_instructions reply' (thid + 1) left

  -- The state that a thread has come back with, over what the one before has left in the buffer.
  pub verify_states : ArmflexArchState → (thid left : ℕ) → M W (Unit {0})
  verify_states fetched thid zero = pure tt
  verify_states fetched thid (suc left) = do
    back ← attempt (transplant_back (calls c) thid)
    let fetched' = state_after fetched back
    require_state_is_identical fetched' (initial_state d c thid_n pages_per_thread 0x3000 thid)
    verify_states fetched' (thid + 1) left

  -- The first start of the threads, to see that they are transplanted back unchanged.
  unfoldable pub check_transplants : ℕ → M W (Unit {0})
  unfolding wait_transplants verify_states for_threads
  check_transplants threads_mask = do
    for_threads d c thid_n pages_per_thread (λ thid. require_ok (transplant_start (calls c) thid)) 0
        thid_n
    wait_transplants d c thid_n pages_per_thread fuel threads_mask 0 0
    verify_states d.stale_state 0 thid_n

  -- A page that the threads have stored.
  abbrev pub verify_page : (page thid : ℕ) → M W (Unit {0})
  verify_page page thid = do
    let paddr =
        page_data_st_paddr d c thid_n pages_per_thread
        + thread_offset d c thid_n pages_per_thread thid
        + page * page_size
    actual ←
        synchronize_page d c (asid_of d c thid_n pages_per_thread thid) make_zero_page
          (vaddr_st + page * page_size) paddr true
    check_page_per_word (page_of d c thid_n pages_per_thread thid page) actual

  pub verify_pages : (page left : ℕ) → M W (Unit {0})
  verify_pages page zero = pure tt
  verify_pages page (suc left) = do
    for_threads d c thid_n pages_per_thread (verify_page page) 0 thid_n
    verify_pages (page + 1) left

  unfoldable pub test_stress_memory : Bool → Option (List ℕ) → M W (Unit {0})
  unfolding load_over check_transplants wait_programs map_instructions verify_pages for_threads
  test_stress_memory safe_check_transplants file = do
    require (leb thid_n 32)
    -- The shift is in 64 bits and the mask in 32.
    let threads_mask = u32 (u64 (1 <<< thid_n) + 2 ^ 64 - 1)
    page ← load_over (make_deadbeef_page page_size) file
    let first_pc : ℕ = if safe_check_transplants then 0x3000 else 0x3004
    for_threads d c thid_n pages_per_thread (register_thread first_pc) 0 thid_n
    _ ← attempt (push_page_to_fpga (calls c) page_inst_paddr page)
    reply ← map_instructions stale 0 thid_n
    if safe_check_transplants then check_transplants threads_mask else pure tt
    let restart : ℕ → M W (Unit {0}) =
        λ thid. (register_thread 0x3004 thid >> require_ok (transplant_start (calls c) thid))
    for_threads d c thid_n pages_per_thread restart 0 thid_n
    wait_programs fuel threads_mask 0 0 0 stale (record {
      loads = first_cursor d c thid_n pages_per_thread page_data_ld_paddr vaddr_ld;
      stores =
          first_cursor d c thid_n pages_per_thread (page_data_st_paddr d c thid_n pages_per_thread)
            vaddr_st;
      reply = reply;
    })
    verify_pages 0 pages_per_thread

module _ {C W : Type 0} (d : Driver C W) where
  unfoldable pub test_pressure_ldp_stp_short : Option (List ℕ) → M W (Unit {0})
  unfolding test_stress_memory
  test_pressure_ldp_stp_short file = do
    c ← start d
    test_stress_memory d c 4 1 true file
    release d c

  unfoldable pub test_pressure_ldp_stp_max_thread_short : Option (List ℕ) → M W (Unit {0})
  unfolding test_stress_memory
  test_pressure_ldp_stp_max_thread_short file = do
    c ← start d
    test_stress_memory d c 32 1 false file
    release d c
