-- ===== src/Client/Test/Programs.antt =====
-- regression/src/client/main.cpp: the two test cases that run the program of a.bin. The file's bytes are
-- an argument, which is `none` when it cannot be opened.
use knockout_kraken.Base.{
  ℕ, zero, suc, ◌+◌, ◌*◌, true, not, List, ◌++◌, Option, none, some, length, take, drop, replicate,
  bit_and, of_le, pos, ◌==◌, if◌then◌else◌,
}
use knockout_kraken.Base.Word.{u64, ◌<<<◌}
use knockout_kraken.Base.Monad.{M, pure, fail, spin, ◌>>=◌, ◌>>◌, attempt, out}
use knockout_kraken.Client.Message.{
  MessageType, MemoryAccessType, access_code, fault_permission_at, evict_ppn_at,
  evict_permission_at, evict_modified_at, get_ppn_from_paddr, make_evict_request, make_miss_reply,
}
use knockout_kraken.Client.Interface.{
  ArmflexArchState, page_size, register_and_push_state, transplant_back, transplant_start,
  query_thread_state, push_page_to_fpga, fetch_page_from_fpga,
}
use knockout_kraken.Client.Test.{
  Driver, require, require_ok, get_asid, no_thread, state_after, init_arch_state,
  make_deadbeef_page, sleep, release, send, query_into, query_message, require_names,
  synchronize_page,
}
use knockout_kraken.Client.Test.Cases.{init_fpga_context_and_page, same_bytes}

module _ {C W : Type 0} (d : Driver C W) where
  open d use {calls, stale, stale_page}

  -- `fopen`, and `fread` of at most a page into a buffer.
  unfoldable pub load_program : Option (List ℕ) → M W (List ℕ)
  load_program none = fail (pos 1)
  load_program (some bs) = do
    require (not (length bs == 0))
    pure (take page_size (bs ++ drop (length bs) stale_page))

  -- `while(!pending_threads)` of the programs, on fuel, from a value of `pending_threads`.
  pub wait_thread_state : C → ℕ → ℕ → M W ℕ
  wait_thread_state c zero pending_threads = spin
  wait_thread_state c (suc fuel) pending_threads =
      let again : M W ℕ = do
        pending ← require_ok (query_thread_state (calls c))
        sleep d 100000
        wait_thread_state c fuel pending
      in if pending_threads == 0 then again else pure pending_threads

  -- The check of what the program leaves in the registers.
  unfoldable pub check_context : ℕ → ArmflexArchState → M W (Unit {0})
  check_context pc state = do
    require (state.xregs 0 == 10)
    require (state.xregs 1 == 0)
    require (state.pc == u64 (pc + 4 * 6))

  -- The wait for the thread, and its state got back and checked.
  unfoldable pub finish_program : C → ℕ → ℕ → ArmflexArchState → M W ArmflexArchState
  unfolding wait_thread_state check_context
  finish_program c thread_id pc state = do
    pending_threads ← wait_thread_state c d.fuel 0
    require (not (bit_and pending_threads (1 <<< thread_id) == 0))
    r ← attempt (transplant_back (calls c) thread_id)
    let state' = state_after state r
    check_context pc state'
    pure state'

  unfoldable pub execute_instruction_with_context_in_dram : Option (List ℕ) → M W (Unit {0})
  unfolding load_program init_arch_state make_deadbeef_page finish_program require_names
  execute_instruction_with_context_in_dram file = do
    inst_page ← load_program file
    c ← init_fpga_context_and_page d
    let page_inst_paddr = (calls c).base_address.page_base
    let page_data_paddr = u64 (page_inst_paddr + page_size)
    let pc : ℕ = 0x4000_0000
    let state = init_arch_state pc
    let asid = get_asid 3
    _ ← attempt (push_page_to_fpga (calls c) page_inst_paddr inst_page)
    let pf_reply =
        make_miss_reply (access_code MemoryAccessType.inst_fetch) no_thread asid pc page_inst_paddr
          stale
    _ ← send d c pf_reply
    let memory_page = make_deadbeef_page page_size
    _ ← attempt (push_page_to_fpga (calls c) page_data_paddr memory_page)
    _ ← send d c (
        make_miss_reply (access_code MemoryAccessType.data_store) no_thread asid 0 page_data_paddr
          pf_reply)
    r1 ← attempt (fetch_page_from_fpga (calls c) page_inst_paddr)
    let check_page_buffer = out (replicate page_size 0) r1
    require (same_bytes check_page_buffer inst_page)
    r2 ← attempt (fetch_page_from_fpga (calls c) page_data_paddr)
    require (same_bytes (out check_page_buffer r2) memory_page)
    require_ok (register_and_push_state (calls c) 3 asid state)
    require_ok (transplant_start (calls c) 3)
    _ ← finish_program c 3 pc state
    _ ← send d c (make_evict_request asid 0 stale)
    m1 ← query_into d c stale
    require_names d MessageType.evict_notify asid 0 m1
    m2 ← query_into d c m1
    require_names d MessageType.evict_done asid 0 m2
    require (not (m2 evict_modified_at == 0))
    require (m2 evict_ppn_at == get_ppn_from_paddr page_data_paddr)
    require (m2 evict_permission_at == access_code MemoryAccessType.data_store)
    r3 ← attempt (fetch_page_from_fpga (calls c) page_data_paddr)
    require (of_le (take 4 (out stale_page r3)) == 10)
    release d c

  -- The five REQUIREs on a page fault.
  abbrev require_fault : ℕ → ℕ → MemoryAccessType → (ℕ → ℕ) → M W (Unit {0})
  require_fault asid vaddr access m = do
    require_names d MessageType.page_fault_notify asid vaddr m
    require (m fault_permission_at == access_code access)

  unfoldable pub execute_instruction : Option (List ℕ) → M W (Unit {0})
  unfolding load_program init_arch_state finish_program require_names synchronize_page
  execute_instruction file = do
    inst_page ← load_program file
    c ← init_fpga_context_and_page d
    let page_inst_paddr = (calls c).base_address.page_base
    let page_data_paddr = u64 (page_inst_paddr + page_size)
    let pc : ℕ = 0x4000_0000
    let state = init_arch_state pc
    let asid = get_asid 3
    require_ok (register_and_push_state (calls c) 3 asid state)
    require_ok (transplant_start (calls c) 3)
    m1 ← query_into d c stale
    require_fault asid state.pc MemoryAccessType.inst_fetch m1
    _ ← attempt (push_page_to_fpga (calls c) page_inst_paddr inst_page)
    let pf_reply =
        make_miss_reply (access_code MemoryAccessType.inst_fetch) 3 asid pc page_inst_paddr stale
    _ ← send d c pf_reply
    r ← attempt (fetch_page_from_fpga (calls c) page_inst_paddr)
    require (same_bytes (out (replicate page_size 0) r) inst_page)
    m2 ← query_message d c
    require_fault asid 0 MemoryAccessType.data_store m2
    _ ← attempt (push_page_to_fpga (calls c) page_data_paddr (replicate page_size 0))
    _ ← send d c (
        make_miss_reply (access_code MemoryAccessType.data_store) 3 asid 0 page_data_paddr pf_reply)
    _ ← finish_program c 3 pc state
    data_buffer ← synchronize_page d c asid stale_page 0 page_data_paddr true
    require (of_le (take 1 data_buffer) == 10)
    release d c
