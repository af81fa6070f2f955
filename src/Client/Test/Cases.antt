-- ===== src/Client/Test/Cases.antt =====
-- regression/src/client/main.cpp: the test cases that run no program. What `rand` returns is an
-- argument. A test that fails leaves the context open.
use knockout_kraken.Base.{
  ℕ, zero, suc, ◌+◌, ◌-◌, ◌^◌, Bool, true, false, not, ◌&&◌, List, [], ◌∷◌, replicate, bit_and,
  ◌==◌, if◌then◌else◌, ltb,
}
use knockout_kraken.Base.Word.{u32, ◌<<<◌}
use knockout_kraken.Base.Monad.{ok, M, pure, spin, ◌>>=◌, ◌>>◌, attempt, out}
use knockout_kraken.Client.Message.{
  MessageType, MemoryAccessType, access_code, fault_permission_at, make_evict_request,
  make_miss_reply,
}
use knockout_kraken.Client.Interface.{
  state_words, armflex_tot_regs, page_size, register_thread_with_process, register_and_push_state,
  transplant_push_state, transplant_get_state, transplant_back, transplant_start,
  transplant_pending, check_rx_message_queue, push_page_to_fpga, fetch_page_from_fpga,
}
use knockout_kraken.Client.Test.{
  Driver, require, require_ok, get_asid, no_thread, state_after, require_state_is_identical,
  init_arch_state, sleep, release, send, query_message, require_names,
}

-- `memset(page, 0xAB, PAGE_SIZE)`
abbrev pub filled_page : List ℕ
filled_page = replicate page_size 0xAB

abbrev pub same_bytes : List ℕ → List ℕ → Bool
same_bytes [] [] = true
same_bytes (x ∷ xs) (y ∷ ys) = x == y && same_bytes xs ys
same_bytes xs ys = false

-- `uint64_t va = rand() << 10`, where an `int` that overflows is taken to wrap around.
abbrev pub shifted_int : ℕ → ℕ
shifted_int r = let v = u32 (r <<< 10) in if ltb v (2 ^ 31) then v else 2 ^ 64 - 2 ^ 32 + v

module _ {C W : Type 0} (d : Driver C W) where
  open d use {context, calls, stale, stale_page}

  abbrev pub start : M W C
  start = require_ok (d.init_fpga_context context)

  -- The page is `filled_page`.
  abbrev pub init_fpga_context_and_page : M W C
  init_fpga_context_and_page = start

  -- The loop of ten sends, with `n` left.
  pub send_many : C → ℕ → (ℕ → ℕ) → M W (Unit {0})
  send_many c zero m = pure tt
  send_many c (suc n) m = do _ ← send d c m; send_many c n m

  unfoldable pub multiple_pages_in_a_row : M W (Unit {0})
  unfolding send_many
  multiple_pages_in_a_row = do
    c ← start
    send_many c 10 (
        make_miss_reply (access_code MemoryAccessType.data_store) no_thread 10 0x50000 0x20000
          stale)
    release d c

  unfoldable pub transplant_in : ℕ → M W (Unit {0})
  unfolding transplant_push_state transplant_get_state require_state_is_identical init_arch_state
  transplant_in rand = do
    c ← init_fpga_context_and_page
    let state = init_arch_state rand
    require_ok (transplant_push_state (calls c) 0 (state_words state))
    ws ← require_ok (transplant_get_state (calls c) 0 armflex_tot_regs)
    require_state_is_identical state (state_after d.stale_state (ok ws))
    release d c

  unfoldable pub mmu_push_and_evict_pte : ℕ → M W (Unit {0})
  unfolding require_names
  mmu_push_and_evict_pte rand = do
    c ← init_fpga_context_and_page
    let asid = get_asid 1
    let va = shifted_int rand
    let page_inst_paddr = (calls c).base_address.page_base
    _ ← attempt (push_page_to_fpga (calls c) page_inst_paddr filled_page)
    _ ← send d c (
        make_miss_reply (access_code MemoryAccessType.inst_fetch) no_thread asid va page_inst_paddr
          stale)
    sleep d 100000
    _ ← send d c (make_evict_request asid va stale)
    m1 ← query_message d c
    require_names d MessageType.evict_notify asid va m1
    m2 ← query_message d c
    require_names d MessageType.evict_done asid va m2
    release d c

  -- The two pages are what the loops over `rand` fill `page` with.
  unfoldable pub push_page_and_read_back : List ℕ → List ℕ → M W (Unit {0})
  push_page_and_read_back page1 page2 = do
    c ← init_fpga_context_and_page
    let page_inst_paddr = (calls c).base_address.page_base
    _ ← attempt ((calls c).write_axi (1 <<< 27) page1)
    sleep d 1000000
    r1 ← attempt ((calls c).read_axi (1 <<< 27) page_size)
    require (same_bytes (out (replicate page_size 0) r1) page1)
    _ ← attempt (push_page_to_fpga (calls c) page_inst_paddr page2)
    _ ← send d c (
        make_miss_reply (access_code MemoryAccessType.inst_fetch) no_thread 0 0 page_inst_paddr
          stale)
    sleep d 1000000
    r2 ← attempt (fetch_page_from_fpga (calls c) page_inst_paddr)
    require (same_bytes (out (replicate page_size 0) r2) page2)
    release d c

  unfoldable pub basic_transplant_with_initial_page_fault : ℕ → M W (Unit {0})
  unfolding init_arch_state require_names
  basic_transplant_with_initial_page_fault rand = do
    c ← init_fpga_context_and_page
    let state = init_arch_state rand
    let asid = get_asid 3
    _ ← attempt (register_and_push_state (calls c) 3 asid state)
    _ ← attempt (register_thread_with_process (calls c) 3 asid)
    _ ← attempt (transplant_start (calls c) 3)
    msg ← query_message d c
    require_names d MessageType.page_fault_notify asid state.pc msg
    require (msg fault_permission_at == access_code MemoryAccessType.inst_fetch)
    release d c

  -- `while(!pending_threads)` of transplant-transplants, after so many iterations. The assertion ends
  -- the test as a REQUIRE does. The first argument is fuel.
  unfoldable pub poll_pending : C → ℕ → ℕ → M W ℕ
  poll_pending c zero iterations = spin
  poll_pending c (suc fuel) iterations = do
    pending_threads ← require_ok (transplant_pending (calls c))
    sleep d 10000
    require (ltb (iterations + 1) 1000)
    let rest = poll_pending c fuel (iterations + 1)
    if pending_threads == 0 then rest else pure pending_threads

  unfoldable pub transplant_transplants : ℕ → M W (Unit {0})
  unfolding poll_pending init_arch_state require_state_is_identical
  transplant_transplants rand = do
    c ← init_fpga_context_and_page
    let page_inst_paddr = (calls c).base_address.page_base
    let state = init_arch_state rand
    let asid = get_asid 0
    _ ← attempt (push_page_to_fpga (calls c) page_inst_paddr filled_page)
    _ ← send d c (
        make_miss_reply (access_code MemoryAccessType.inst_fetch) no_thread asid state.pc
          page_inst_paddr stale)
    sleep d 1000000
    _ ← attempt (register_and_push_state (calls c) 0 asid state)
    r1 ← attempt (transplant_get_state (calls c) 0 armflex_tot_regs)
    let pushed = state_after d.stale_state r1
    require_state_is_identical state pushed
    _ ← attempt (transplant_start (calls c) 0)
    pending_threads ← poll_pending c 1000 0
    require (not (pending_threads == 0))
    require (not (bit_and pending_threads (1 <<< 0) == 0))
    r2 ← attempt (transplant_back (calls c) 0)
    require_state_is_identical state (state_after pushed r2)
    queue_state ← require_ok (check_rx_message_queue (calls c))
    require (queue_state == 0)
    release d c
