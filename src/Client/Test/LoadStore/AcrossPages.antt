-- ===== src/Client/Test/LoadStore/AcrossPages.antt =====
-- regression/src/client/tests/load-store.cc: a pair that lies in two pages. A CHECK that fails lets the
-- test go on, which then does not pass.
use knockout_kraken.Base.{
  ℕ, zero, suc, ◌+◌, ◌*◌, Bool, true, not, ◌&&◌, List, [], ◌∷◌, ◌++◌, Option, replicate, bit_and,
  le_bytes, of_le, take, ◌==◌,
}
use knockout_kraken.Base.Word.{u64, ◌<<<◌}
use knockout_kraken.Base.Monad.{M, pure, ◌>>=◌, ◌>>◌, attempt}
use knockout_kraken.Client.Message.{
  MessageFpga, MessageType, MemoryAccessType, access_code, fault_permission_at, make_miss_reply,
}
use knockout_kraken.Client.Interface.{
  page_size, register_and_push_state, transplant_back, transplant_start, push_page_to_fpga,
}
use knockout_kraken.Client.Test.{
  Driver, require, require_ok, state_after, make_deadbeef_page, release, send, query_into,
  require_names, synchronize_page,
}
use knockout_kraken.Client.Test.Cases.{start}
use knockout_kraken.Client.Test.Programs.{wait_thread_state}
use knockout_kraken.Client.Test.States.{set_register, load_over}
use knockout_kraken.Client.Test.LoadStore.{thid, thid_asid}

-- A page fault that the test expects: its address, its access, and the page that resolves it.
pub record Fault : Type 0 where
  pub vaddr : ℕ
  pub access : MemoryAccessType
  pub page : List ℕ
  pub paddr : ℕ

-- The pages of the three faults: the first word of the pair at the end of one, the second at the start
-- of the next.
abbrev pub data_page : ℕ → List ℕ
data_page zero = replicate 4092 0 ++ le_bytes 4 0xAABB_CCDD
data_page (suc zero) = le_bytes 4 0x9988_7766 ++ replicate 4092 0
data_page (suc (suc n)) = replicate 4096 0

abbrev pub faults : ℕ → List Fault
faults inst_pa =
    record {
      vaddr = 0x2000;
      access = MemoryAccessType.data_load;
      page = data_page 0;
      paddr = u64 (inst_pa + 1 * page_size);
    }
    ∷ record {
      vaddr = 0x3000;
      access = MemoryAccessType.data_load;
      page = data_page 1;
      paddr = u64 (inst_pa + 2 * page_size);
    }
    ∷ record {
      vaddr = 0x4000;
      access = MemoryAccessType.data_store;
      page = data_page 2;
      paddr = u64 (inst_pa + 3 * page_size);
    }
    ∷ []

module _ {C W : Type 0} (d : Driver C W) where
  open d use {calls, stale, stale_state, fuel}

  -- The loop over the faults, with the message and the reply as the rounds before have left them. It
  -- returns whether no CHECK has failed.
  pub resolve_faults : C → MessageFpga → MessageFpga → List Fault → M W Bool
  resolve_faults c message reply [] = pure true
  resolve_faults c message reply (f ∷ rest) = do
    m ← query_into d c message
    require_names d MessageType.page_fault_notify thid_asid f.vaddr m
    _ ← attempt (push_page_to_fpga (calls c) f.paddr f.page)
    let reply' = make_miss_reply (access_code f.access) thid thid_asid f.vaddr f.paddr reply
    _ ← send d c reply'
    good ← resolve_faults c m reply' rest
    pure (m fault_permission_at == access_code f.access && good)

  unfoldable pub out_of_page_bound_pair_load : Option (List ℕ) → M W (Unit {0})
  unfolding load_over resolve_faults require_names synchronize_page
  out_of_page_bound_pair_load file = do
    c ← start d
    let inst_pa = (calls c).base_address.page_base
    let state =
        set_register 4 0
          (set_register 3 0x3FFC (set_register 2 0x2FFC (record stale_state { pc = 0x1000 })))
    page ← load_over (make_deadbeef_page page_size) file
    require_ok (register_and_push_state (calls c) thid thid_asid state)
    require_ok (transplant_start (calls c) thid)
    m ← query_into d c stale
    require_names d MessageType.page_fault_notify thid_asid state.pc m
    require (m fault_permission_at == access_code MemoryAccessType.inst_fetch)
    _ ← attempt (push_page_to_fpga (calls c) inst_pa page)
    let reply =
        make_miss_reply (access_code MemoryAccessType.inst_fetch) thid thid_asid state.pc inst_pa
          stale
    _ ← send d c reply
    good ← resolve_faults c m reply (faults inst_pa)
    pending_threads ← wait_thread_state d c fuel 0
    require (not (bit_and pending_threads (1 <<< thid) == 0))
    back ← attempt (transplant_back (calls c) thid)
    let state' = state_after state back
    page1 ← synchronize_page d c thid_asid (data_page 1) 0x3000 (u64 (inst_pa + 2 * page_size)) true
    page2 ← synchronize_page d c thid_asid (data_page 2) 0x4000 (u64 (inst_pa + 3 * page_size)) true
    require (state'.xregs 0 == 0xAABB_CCDD)
    require (state'.xregs 1 == 0x9988_7766)
    require (state'.xregs 2 == 0x2FFC)
    require (state'.xregs 3 == 0x3FFC)
    require (state'.xregs 4 == 0)
    require (of_le (take 4 page1) == 0xAABB_CCDD)
    require (of_le (take 4 page2) == 0x9988_7766)
    release d c
    require good
