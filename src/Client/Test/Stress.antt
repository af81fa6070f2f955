-- ===== src/Client/Test/Stress.antt =====
-- regression/src/client/tests/back-pressure.cc: many threads that load and store whole pages at once.
-- The binary is an argument; `malloc` is taken to succeed.
pub mod Course
pub mod Endless
use knockout_kraken.Base.{
  ℕ, zero, suc, ◌+◌, ◌*◌, ◌-◌, ◌/◌, ◌%◌, ◌^◌, ◌≤◌, Bool, true, false, not, List, [], ◌∷◌, ◌++◌,
  Option, take, drop, bit_and, bit_or, le_bytes, pos, ◌==◌, if◌then◌else◌, ltb, leb,
}
use knockout_kraken.Base.Word.{u32, u64, ◌<<<◌}
use knockout_kraken.Base.Monad.{ok, err, M, pure, fail, spin, ◌>>=◌, ◌>>◌, attempt, out}
use knockout_kraken.Client.Message.{
  MessageFpga, message_of_bytes, MessageType, code_of, type_at, MemoryAccessType, access_code,
  fault_permission_at, fault_thid_at, make_miss_reply,
}
use knockout_kraken.Client.Interface.{
  ArmflexArchState, page_size, register_and_push_state, transplant_back, transplant_start,
  transplant_pending, transplant_free_pending, has_message_pending, get_message_pending,
  push_page_to_fpga,
}
use knockout_kraken.Client.Test.{
  Driver, require, require_ok, get_asid, no_thread, state_after, require_state_is_identical,
  init_arch_state, make_deadbeef_page, make_zero_page, sleep, release, send, require_names,
  synchronize_page,
}
use knockout_kraken.Client.Test.Cases.{start, same_bytes}
use knockout_kraken.Client.Test.States.{init_state_pressure_ldp_stp, load_over}

-- The loops of `tagPage` over the words of a page and over the pages, with how many are left.
abbrev pub tag_words : (thid n_page word left : ℕ) → List ℕ
tag_words thid n_page word zero = []
tag_words thid n_page word (suc left) =
    le_bytes 8 (bit_or (bit_or (u64 (thid <<< 56)) (u64 (n_page <<< 50))) word)
    ++ tag_words thid n_page (word + 1) left

unfoldable pub tag_page : (thid n_page left : ℕ) → List ℕ
tag_page thid n_page zero = []
tag_page thid n_page (suc left) =
    tag_words thid n_page 0 (page_size / 8) ++ tag_page thid (n_page + 1) left

-- `checkPagePerWord`: two pages of whole words are compared word by word.
abbrev pub check_page_per_word : {W : Type 0} → (page_expect page_actual : List ℕ) → M W (Unit {0})
check_page_per_word page_expect page_actual = require (same_bytes page_expect page_actual)

-- How far a thread has come, through the pages that it loads or through those that it stores.
pub record Cursor : Type 0 where
  pub paddr : ℕ
  pub vaddr : ℕ
  pub idx : ℕ

abbrev pub set_cursor : (ℕ → Cursor) → ℕ → Cursor → ℕ → Cursor
set_cursor cursors thid cursor t = if thid == t then cursor else cursors t

abbrev pub advanced : Cursor → Cursor
advanced cursor = record {
  paddr = u64 (cursor.paddr + page_size);
  vaddr = u64 (cursor.vaddr + page_size);
  idx = u32 (cursor.idx + 1);
}

abbrev pub page_inst_paddr : ℕ
page_inst_paddr = 0x10000

abbrev pub page_data_ld_paddr : ℕ
page_data_ld_paddr = 0x20000

abbrev pub vaddr_ld : ℕ
vaddr_ld = 0x100_0000

abbrev pub vaddr_st : ℕ
vaddr_st = 0xF00_0000

-- The buffer of all pages, once each of the `left` threads from `thid` on has tagged its own.
abbrev pub tagged : (pages_per_thread thid left : ℕ) → List ℕ
tagged pages_per_thread thid zero = []
tagged pages_per_thread thid (suc left) =
    tag_page thid 0 pages_per_thread ++ tagged pages_per_thread (thid + 1) left

module _ {C W : Type 0} (d : Driver C W) (c : C) (thid_n pages_per_thread : ℕ) where
  open d use {calls, stale, fuel}

  abbrev pub page_data_st_paddr : ℕ
  page_data_st_paddr = page_data_ld_paddr + u32 (thid_n * pages_per_thread) * page_size

  -- `thid*nDataPagesPerThread*PAGE_SIZE`: the first product has 32 bits.
  abbrev pub thread_offset : ℕ → ℕ
  thread_offset thid = u32 (thid * pages_per_thread) * page_size

  abbrev pub page_of : (thid idx : ℕ) → List ℕ
  page_of thid idx =
      take page_size
        (drop (thread_offset thid + idx * page_size) (tagged pages_per_thread 0 thid_n))

  abbrev pub first_cursor : (base vaddr thid : ℕ) → Cursor
  first_cursor base vaddr thid =
      let registered = ltb thid thid_n in
      record {
        paddr = if registered then base + thread_offset thid else 0;
        vaddr = if registered then vaddr else 0;
        idx = 0;
      }

  -- `asid[thid]`
  abbrev pub asid_of : ℕ → ℕ
  asid_of thid = if ltb thid thid_n then get_asid thid else 0

  abbrev pub initial_state : (pc thid : ℕ) → ArmflexArchState
  initial_state pc thid =
      let state =
        init_state_pressure_ldp_stp (pages_per_thread * page_size) vaddr_ld vaddr_st
          (init_arch_state 0) in
      record state { pc = pc }

  -- For each of the threads from `thid` on, `left` of them.
  unfoldable pub for_threads : (ℕ → M W (Unit {0})) → (thid left : ℕ) → M W (Unit {0})
  for_threads body thid zero = pure tt
  for_threads body thid (suc left) = do body thid; for_threads body (thid + 1) left

  -- The wait for the transplants of all the threads, on fuel, with the values of `completed` and of
  -- `pending_threads`. `iterations` stays 0.
  unfoldable pub wait_transplants :
      ℕ → (threads_mask completed pending_threads : ℕ) → M W (Unit {0})
  wait_transplants zero threads_mask completed pending_threads = spin
  wait_transplants (suc fuel) threads_mask completed pending_threads =
      let again : M W (Unit {0}) = do
        r ← attempt (transplant_pending (calls c))
        let pending = out pending_threads r
        let free : M W (Unit {0}) = do
          _ ← attempt (transplant_free_pending (calls c) pending)
          pure tt
        if pending == 0 then pure tt else free
        sleep d 100000
        require (ltb 0 100)
        wait_transplants fuel threads_mask (bit_or completed pending) pending
      in if completed == threads_mask then pure tt else again

  -- Where the threads are in their pages.
  pub record Progress : Type 0 where
    pub loads : ℕ → Cursor
    pub stores : ℕ → Cursor
    pub reply : MessageFpga

  -- A fault is resolved with the thread's next page, and its cursor goes on.
  abbrev resolve :
      MemoryAccessType → (ℕ → Cursor) → MessageFpga → MessageFpga → M W (Cursor × MessageFpga)
  resolve access cursors m reply = do
    let thid = m fault_thid_at
    let cursor = cursors thid
    require_names d MessageType.page_fault_notify (asid_of thid) cursor.vaddr m
    _ ← attempt (push_page_to_fpga (calls c) cursor.paddr (page_of thid cursor.idx))
    let reply' =
        make_miss_reply (access_code access) thid (asid_of thid) cursor.vaddr cursor.paddr reply
    _ ← send d c reply'
    pure (advanced cursor, reply')

  unfoldable pub resolve_fault : MessageFpga → Progress → M W Progress
  resolve_fault m p =
      let thid = m fault_thid_at in
      let load : M W Progress = do
        r ← resolve MemoryAccessType.data_load p.loads m p.reply
        pure (record p { loads = set_cursor p.loads thid r.0; reply = r.1 })
      in let store : M W Progress = do
        r ← resolve MemoryAccessType.data_store p.stores m p.reply
        pure (record p { stores = set_cursor p.stores thid r.0; reply = r.1 })
        in let permission = m fault_permission_at in
          if permission == access_code MemoryAccessType.data_load
          then load
          else (if permission == access_code MemoryAccessType.data_store
              then store
              else fail (pos 1))

  -- A message that is pending, with the number of messages so far.
  unfoldable pub take_pending : MessageFpga → ℕ → Progress → M W (MessageFpga × ℕ × Progress)
  unfolding resolve_fault
  take_pending old iterations p = do
    r ← attempt (get_message_pending (calls c))
    let m : MessageFpga = elim r [ ok bs ↦ message_of_bytes bs | err _ _ ↦ old ]
    require (m type_at == code_of MessageType.page_fault_notify)
    p' ← resolve_fault m p
    sleep d 10000
    require (ltb (iterations + 1) (u32 (1000 * thid_n * pages_per_thread)))
    pure (m, u32 (iterations + 1), p')
