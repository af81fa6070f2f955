-- ===== src/Client/Test.antt =====
-- regression/src/client/test-helpers.cc and test-helpers.hh: what the tests of the client are made of.
-- A test is a call that returns 0 when it passes. A REQUIRE that fails ends it there; a result that a
-- test does not look at is taken by `attempt`. Lines printed are left out.
pub mod Cases
pub mod States
pub mod HostControl
pub mod LoadStore
pub mod Stress
pub mod Programs
pub mod Passes
use knockout_kraken.Base.{
  ℕ, zero, suc, ◌+◌, ◌*◌, ◌-◌, ◌/◌, Bool, true, false, not, List, [], ◌∷◌, ◌++◌, Option, none, some,
  length, get_or, drop, replicate, le_bytes, ℤ, pos, ◌==◌, if◌then◌else◌, bit_and,
}
use knockout_kraken.Base.Word.{u32, ◌<<<◌}
use knockout_kraken.Base.Monad.{Result, ok, err, M, pure, fail, spin, ◌>>=◌, ◌>>◌, attempt, out}
use knockout_kraken.Client.Fpga.{Fpga}
use knockout_kraken.Client.Message.{
  MessageType, code_of, MemoryAccessType, access_code, MessageFpga, type_at, asid_at, vpn_lo_at,
  vpn_hi_at, evict_ppn_at, evict_permission_at, evict_modified_at, vpn_get_hi, vpn_get_lo, get_nzcv,
  get_ppn_from_paddr, make_evict_request, message_bytes, message_of_bytes,
}
use knockout_kraken.Client.Interface.{
  ArmflexArchState, state_words, page_size, send_message_to_fpga, query_message_from_fpga,
  fetch_page_from_fpga,
}

-- A driver with its context `C`: initFPGAContext over an uninitialised context, the calls of fpga.h,
-- and releaseFPGAContext. `sleep` is what the other side does in `usleep` of so many microseconds,
-- `stale` the words of a message that is not yet written, `stale_page` the bytes of such a page and
-- `stale_state` such a state; `fuel` bounds each wait.
pub record Driver (C W : Type 0) : Type 0 where
  pub context : C
  pub init_fpga_context : C → M W C
  pub calls : C → Fpga W
  pub release_fpga_context : C → W → ℤ × W
  pub sleep : ℕ → W → W
  pub stale : MessageFpga
  pub stale_page : List ℕ
  pub stale_state : ArmflexArchState
  pub fuel : ℕ

abbrev pub require : {W : Type 0} → Bool → M W (Unit {0})
require b = if b then pure tt else fail (pos 1)

-- `REQUIRE(call == 0)`
abbrev pub require_ok : {W A : Type 0} → M W A → M W A
require_ok m = do r ← attempt m; elim r [ ok a ↦ pure a | err _ _ ↦ fail (pos 1) ]

-- `GET_asid`
abbrev pub get_asid : ℕ → ℕ
get_asid th = u32 ((th + 1) <<< 4)

-- A thread number -1, of no thread.
abbrev pub no_thread : ℕ
no_thread = 0xFFFF_FFFF

-- A structure over the words that a call has stored into it, some of which may be missing.
abbrev pub state_of_words : List ℕ → ArmflexArchState
state_of_words ws = record {
  xregs = λ i. get_or ws i 0;
  pc = get_or ws 32 0;
  sp = get_or ws 33 0;
  nzcv = get_or ws 34 0;
}

abbrev pub state_after : ArmflexArchState → Result (List ℕ) → ArmflexArchState
state_after old r =
    let stored = out [] r in state_of_words (stored ++ drop (length stored) (state_words old))

-- The loop of `requireStateIsIdentical` from register `i` on.
pub require_regs : {W : Type 0} → (i n : ℕ) → (ℕ → ℕ) → (ℕ → ℕ) → M W (Unit {0})
require_regs i zero x y = pure tt
require_regs i (suc n) x y = do require (x i == y i); require_regs (i + 1) n x y

unfoldable pub require_state_is_identical :
    {W : Type 0} → ArmflexArchState → ArmflexArchState → M W (Unit {0})
require_state_is_identical state1 state2 = do
  require (state1.pc == state2.pc)
  require (get_nzcv state1.nzcv == get_nzcv state2.nzcv)
  require (state1.sp == state2.sp)
  require_regs 0 32 state1.xregs state2.xregs

unfoldable pub init_arch_state : ℕ → ArmflexArchState
init_arch_state pc = record { xregs = λ i. i; pc = pc; sp = 0; nzcv = 0 }

pub words_page : ℕ → ℕ → List ℕ
words_page zero word = []
words_page (suc n) word = le_bytes 4 word ++ words_page n word

unfoldable pub make_deadbeef_page : ℕ → List ℕ
unfolding words_page
make_deadbeef_page bytes = words_page (bytes / 4) 0xDEAD_BEEF

unfoldable pub make_zero_page : List ℕ
unfolding words_page
make_zero_page = words_page (page_size / 4) 0xFFFF_FFFF

-- `advanceTicks`, over `writeSimCtrl` with `cycleStep`, which is 0.
abbrev pub advance_ticks : {W : Type 0} → (ℕ → ℕ → M W (Unit {0})) → ℕ → M W (Unit {0})
advance_ticks write_sim_ctrl ticks = write_sim_ctrl 0 (u32 ticks)

module _ {C W : Type 0} (d : Driver C W) where
  open d use {calls, fuel, stale}

  -- `queryMessageFromFPGA` into a message that held `old`, its result ignored or required.
  abbrev pub query_into : C → MessageFpga → M W MessageFpga
  query_into c old = do
    r ← attempt (query_message_from_fpga (calls c) fuel)
    pure (elim r [ ok bs ↦ message_of_bytes bs | err _ _ ↦ old ])

  abbrev pub query_message : C → M W MessageFpga
  query_message c = do
    bs ← require_ok (query_message_from_fpga (calls c) fuel)
    pure (message_of_bytes bs)

  abbrev pub sleep : ℕ → M W (Unit {0})
  sleep microseconds w = pure tt (d.sleep microseconds w)

  -- The return code is ignored.
  abbrev pub release : C → M W (Unit {0})
  release c w = pure tt (d.release_fpga_context c w).1

  abbrev pub send : C → MessageFpga → M W (Result (Unit {0}))
  send c m = attempt (send_message_to_fpga (calls c) fuel (message_bytes m))

  -- The four REQUIREs on what a message names.
  unfoldable pub require_names : MessageType → ℕ → ℕ → MessageFpga → M W (Unit {0})
  require_names type asid vaddr m = do
    require (m type_at == code_of type)
    require (m asid_at == u32 asid)
    require (m vpn_hi_at == vpn_get_hi vaddr)
    require (m vpn_lo_at == vpn_get_lo vaddr)

  -- The page that the buffer holds afterwards. A result of `fetchPageFromFPGA` that is not 0 is
  -- ignored.
  unfoldable pub synchronize_page : C → ℕ → List ℕ → ℕ → ℕ → Bool → M W (List ℕ)
  unfolding require_names
  synchronize_page c asid page vaddr paddr expect_modified = do
    _ ← send c (make_evict_request asid vaddr stale)
    m1 ← query_into c stale
    require_names MessageType.evict_notify asid vaddr m1
    m2 ← query_into c m1
    require_names MessageType.evict_done asid vaddr m2
    require (m2 evict_ppn_at == get_ppn_from_paddr paddr)
    require (m2 evict_permission_at == access_code MemoryAccessType.data_store)
    require (m2 evict_modified_at == (if expect_modified then 1 else 0))
    r ← attempt (fetch_page_from_fpga (calls c) paddr)
    pure (out page r)
