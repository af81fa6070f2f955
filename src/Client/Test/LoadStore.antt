-- ===== src/Client/Test/LoadStore.antt =====
-- regression/src/client/tests/load-store.cc: threads that load and store pairs of words.
pub mod Slots
pub mod AcrossPages
use knockout_kraken.Base.{
  ℕ, zero, suc, ◌+◌, ◌*◌, ◌-◌, ◌/◌, Bool, true, false, not, ◌&&◌, List, [], ◌∷◌, ◌++◌, Option,
  replicate, get_or, set, bit_and, le_bytes, of_le, take, pos, ◌==◌, if◌then◌else◌, ltb,
}
use knockout_kraken.Base.Word.{u64, ◌<<<◌}
use knockout_kraken.Base.Monad.{ok, err, M, pure, ◌>>=◌, ◌>>◌, attempt, out}
use knockout_kraken.Client.Message.{
  MessageFpga, MessageType, MemoryAccessType, access_code, fault_permission_at, make_miss_reply,
}
use knockout_kraken.Client.Interface.{
  ArmflexArchState, page_size, register_thread_with_process, register_and_push_state,
  transplant_back, transplant_start, transplant_wait_till_pending, push_page_to_fpga,
}
use knockout_kraken.Client.Test.{
  Driver, require, require_ok, no_thread, state_after, make_deadbeef_page, make_zero_page, release,
  send, query_into, require_names, synchronize_page,
}
use knockout_kraken.Client.Test.Cases.{start}
use knockout_kraken.Client.Test.Programs.{wait_thread_state}
use knockout_kraken.Client.Test.States.{set_register, init_state_ldst_all_sizes_pair, load_over}

-- The offset of an address in its page.
abbrev pub page_offset : ℕ → ℕ
page_offset addr = bit_and addr 4095

-- The loop of `write_page_block` from the byte `byte` on, with the number of bytes left.
unfoldable pub write_bytes : (page bytes : List ℕ) → (offst byte left : ℕ) → List ℕ
write_bytes page bytes offst byte zero = page
write_bytes page bytes offst byte (suc left) =
    write_bytes (set page (offst + byte) (get_or bytes byte 0)) bytes offst (byte + 1) left

abbrev pub write_page_block : (page bytes : List ℕ) → (addr byte_size : ℕ) → List ℕ
write_page_block page bytes addr byte_size = write_bytes page bytes (page_offset addr) 0 byte_size

-- The byte `byte` of a pair of words that takes `byte_size` bytes.
unfoldable pub pair_byte : (lsb msb byte_size byte : ℕ) → ℕ
pair_byte lsb msb byte_size byte =
    if ltb byte (byte_size / 2)
    then get_or (le_bytes 8 lsb) byte 0
    else get_or (le_bytes 8 msb) (byte - byte_size / 2) 0

-- The loop of `init_mem_slot_pair`.
unfoldable pub fill_slot : List ℕ → (lsb msb byte_size byte left : ℕ) → List ℕ
fill_slot bytes lsb msb byte_size byte zero = bytes
fill_slot bytes lsb msb byte_size byte (suc left) =
    fill_slot (set bytes byte (pair_byte lsb msb byte_size byte)) lsb msb byte_size (byte + 1) left

abbrev pub init_mem_slot_pair : List ℕ → (lsb msb byte_size : ℕ) → List ℕ
init_mem_slot_pair bytes lsb msb byte_size = fill_slot bytes lsb msb byte_size 0 byte_size

abbrev pub check_ldst_all_sizes_pair_load : {W : Type 0} → ArmflexArchState → ℕ → ℕ → M W (Unit {0})
check_ldst_all_sizes_pair_load state exp1 exp2 = do
  require (state.xregs 0 == exp1)
  require (state.xregs 1 == exp2)

-- The loop of `check_ldst_all_sizes_pair_store`.
unfoldable pub check_bytes :
    {W : Type 0} → List ℕ → (offst byte_size exp1 exp2 byte left : ℕ) → M W (Unit {0})
check_bytes page offst byte_size exp1 exp2 byte zero = pure tt
check_bytes page offst byte_size exp1 exp2 byte (suc left) = do
  require (get_or page (offst + byte) 0 == pair_byte exp1 exp2 byte_size byte)
  check_bytes page offst byte_size exp1 exp2 (byte + 1) left

abbrev pub check_ldst_all_sizes_pair_store :
    {W : Type 0} → List ℕ → (addr byte_size exp1 exp2 : ℕ) → M W (Unit {0})
check_ldst_all_sizes_pair_store page addr byte_size exp1 exp2 =
    check_bytes page (page_offset addr) byte_size exp1 exp2 0 byte_size

-- The thread of the tests, and its process.
abbrev pub thid : ℕ
thid = 3

abbrev pub thid_asid : ℕ
thid_asid = 64

module _ {C W : Type 0} (d : Driver C W) where
  open d use {calls, stale, stale_state, fuel}

  unfoldable pub step_ldst_all_sizes_pair_load :
      C → ArmflexArchState → (exp1 exp2 : ℕ) → M W ArmflexArchState
  step_ldst_all_sizes_pair_load c state exp1 exp2 = do
    _ ← attempt (register_and_push_state (calls c) thid thid_asid state)
    require_ok (transplant_start (calls c) thid)
    r ← attempt (transplant_wait_till_pending (calls c) fuel)
    require (not (bit_and (out 0 r) (1 <<< thid) == 0))
    back ← attempt (transplant_back (calls c) thid)
    let state' = state_after state back
    check_ldst_all_sizes_pair_load state' exp1 exp2
    pure (record state' { pc = u64 (state'.pc + 4) })

  -- The data page: deadbeef, with a pair of 32-bit and a pair of 64-bit words.
  abbrev pub load_page : ℕ → List ℕ
  load_page vaddr_ld =
      let bytes1 = init_mem_slot_pair (replicate 32 0) 0xABAB_ABAB 0xCDCD_CDCD 8 in
      let page1 = write_page_block (make_deadbeef_page page_size) bytes1 vaddr_ld 8 in
      let bytes2 = init_mem_slot_pair bytes1 0xCCCC_AAAA_1111_7777 0x5555_BBBB_4444_FFFF 16 in
      write_page_block page1 bytes2 (vaddr_ld + 0x20) 16

  unfoldable pub test_ldst_all_sizes_pair : C → Option (List ℕ) → M W (Unit {0})
  unfolding load_over step_ldst_all_sizes_pair_load synchronize_page
  test_ldst_all_sizes_pair c file = do
    let pc : ℕ = 0x2000
    let vaddr_ld : ℕ = 0x6000
    let vaddr_st : ℕ = 0xA000
    let state1 =
        init_state_ldst_all_sizes_pair vaddr_ld vaddr_st 0x20 (record stale_state { pc = pc })
    page1 ← load_over (make_deadbeef_page page_size) file
    _ ← attempt (push_page_to_fpga (calls c) 0x10000 page1)
    let reply1 =
        make_miss_reply (access_code MemoryAccessType.inst_fetch) no_thread thid_asid pc 0x10000
          stale
    _ ← send d c reply1
    _ ← attempt (push_page_to_fpga (calls c) 0x20000 (load_page vaddr_ld))
    let reply2 =
        make_miss_reply (access_code MemoryAccessType.data_load) no_thread thid_asid vaddr_ld
          0x20000 reply1
    _ ← send d c reply2
    _ ← attempt (push_page_to_fpga (calls c) 0x30000 (make_deadbeef_page page_size))
    _ ← send d c (
        make_miss_reply (access_code MemoryAccessType.data_store) no_thread thid_asid vaddr_st
          0x30000 reply2)
    _ ← attempt (register_thread_with_process (calls c) thid thid_asid)
    state2 ← step_ldst_all_sizes_pair_load c state1 0xABAB_ABAB 0xCDCD_CDCD
    _ ← step_ldst_all_sizes_pair_load c state2 0xCCCC_AAAA_1111_7777 0x5555_BBBB_4444_FFFF
    page ← synchronize_page d c thid_asid make_zero_page vaddr_st 0x30000 true
    check_ldst_all_sizes_pair_store page vaddr_st 8 0xABAB_ABAB 0xCDCD_CDCD
    check_ldst_all_sizes_pair_store page (vaddr_st + 0x20) 16 0xCCCC_AAAA_1111_7777
        0x5555_BBBB_4444_FFFF

  unfoldable pub test_ldst_pair_all_sizes : Option (List ℕ) → M W (Unit {0})
  unfolding test_ldst_all_sizes_pair
  test_ldst_pair_all_sizes file = do c ← start d; test_ldst_all_sizes_pair c file; release d c

  -- The loop of the test, with `n` rounds left.
  pub repeat_pairs : C → Option (List ℕ) → ℕ → M W (Unit {0})
  repeat_pairs c file zero = pure tt
  repeat_pairs c file (suc n) = do test_ldst_all_sizes_pair c file; repeat_pairs c file n

  unfoldable pub test_pressure_mmu_same_address : Option (List ℕ) → M W (Unit {0})
  unfolding repeat_pairs
  test_pressure_mmu_same_address file = do c ← start d; repeat_pairs c file 10; release d c
