-- ===== src/Client/Interface.antt =====
-- regression/src/client/fpga_interface.c and the structures of fpga_interface.h: threads, pages and
-- messages over the five calls of fpga.h. Lines printed for the user and `usleep` are left out.
pub mod Registers
pub mod Waiting
pub mod Pages
use knockout_kraken.Base.{
  ℕ, zero, suc, ◌+◌, ◌*◌, ◌-◌, ◌^◌, ◌%◌, bit_and, bit_or, bit_xor, minus_one, Bool, true, false,
  not, List, [], ◌∷◌, ◌++◌, ◌==◌, if◌then◌else◌, Option, none, some, replicate, take,
}
use knockout_kraken.Base.Word.{u32, u64, ◌>>>◌, ◌<<<◌}
use knockout_kraken.Base.Monad.{Result, ok, err, M, pure, fail, spin, ◌>>=◌, ◌>>◌, attempt, out}
use knockout_kraken.Client.Fpga.{Fpga}

-- `ArmflexArchState`: 35 registers of 64 bits in this order (`ARMFLEX_TOT_REGS`).
pub record ArmflexArchState : Type 0 where
  pub xregs : ℕ → ℕ
  pub pc : ℕ
  pub sp : ℕ
  pub nzcv : ℕ

abbrev pub armflex_tot_regs : ℕ
armflex_tot_regs = 35

abbrev pub page_size : ℕ
page_size = 4096

abbrev pub from_reg : ℕ → (ℕ → ℕ) → List ℕ
from_reg zero x = []
from_reg (suc n) x = x 0 ∷ from_reg n (λ i. x (suc i))

-- The structure through a `uint64_t *`.
abbrev pub state_words : ArmflexArchState → List ℕ
state_words s = from_reg 32 s.xregs ++ s.pc ∷ s.sp ∷ s.nzcv ∷ []

-- What a loop has stored before a failing round stays stored.
abbrev pub stored_first : {W : Type 0} → ℕ → M W (List ℕ) → M W (List ℕ)
stored_first v m w = elim (m w) [
  | none ↦ none
  | some (r, w') ↦ elim r [
    | ok vs ↦ some (ok (v ∷ vs), w')
    | err code vs ↦ some (err code (some (v ∷ out [] (err code vs))), w')
  ]
]

-- A call whose `out` variable was set to `before` by the callee itself.
abbrev pub preset : {W A : Type 0} → A → M W A → M W A
preset before m w = elim (m w) [
  | none ↦ none
  | some (r, w') ↦ elim r [
    | ok a ↦ some (ok a, w')
    | err code a ↦ some (err code (some (out before (err code a))), w')
  ]
]

-- `if(paddr & (PAGE_SIZE-1)) paddr ^= (paddr & 4095UL);`
unfoldable pub page_aligned : ℕ → ℕ
page_aligned paddr =
    if bit_and paddr (page_size - 1) == 0 then paddr else bit_xor paddr (bit_and paddr 4095)

-- `bzero` and `memcpy` of at most 64 bytes.
abbrev pub message_buffer : List ℕ → List ℕ
message_buffer raw_message = take 64 (raw_message ++ replicate 64 0)

module _ {W : Type 0} (fpga : Fpga W) where
  open fpga use {base_address, read_axil, write_axil, read_axi, write_axi}
  open base_address use {
    axil_base, tt as tt_base, transplant_data, transplant_ctl, message_queue, dram_base, axi_base,
    message,
  }

  -- `uint32_t axi_tt_base`, `axi_transplant_base`, `axi_transplant_ctrl_base`, `query_base` and
  -- `uint64_t data_base`.
  abbrev pub axi_tt_base : ℕ
  axi_tt_base = u32 (axil_base + tt_base)

  abbrev pub axi_transplant_base : ℕ
  axi_transplant_base = u32 (axil_base + transplant_data)

  abbrev pub axi_transplant_ctrl_base : ℕ
  axi_transplant_ctrl_base = u32 (axil_base + transplant_ctl)

  abbrev pub query_base : ℕ
  query_base = u32 (axil_base + message_queue)

  abbrev pub data_base : ℕ
  data_base = u64 (axi_base + message)

  unfoldable pub register_thread_with_process : ℕ → ℕ → M W (Unit {0})
  register_thread_with_process thread_id process_id =
      write_axil (u32 (axi_tt_base + u32 (thread_id * 4))) process_id

  -- `size_t base_offset`, computed in `uint32_t`.
  abbrev pub base_offset : ℕ → ℕ
  base_offset thread_id = u32 (axi_transplant_base + u32 (u32 (thread_id <<< 7) * 4))

  -- The loop of `transplant_getState` from register `reg` on, over `n` registers.
  pub get_regs : ℕ → ℕ → ℕ → M W (List ℕ)
  get_regs base reg zero = pure []
  get_regs base reg (suc n) = do
    reg_val1 ← read_axil (u32 (base + 2 * reg * 4))
    reg_val2 ← read_axil (u32 (base + (2 * reg + 1) * 4))
    stored_first (bit_or reg_val1 (u64 (reg_val2 <<< 32))) (get_regs base (suc reg) n)

  unfoldable pub transplant_get_state : ℕ → ℕ → M W (List ℕ)
  transplant_get_state thread_id reg_count = get_regs (base_offset thread_id) 0 reg_count

  -- The loop of `transplant_pushState` from register `reg` on, over the registers left.
  pub push_regs : ℕ → ℕ → List ℕ → M W (Unit {0})
  push_regs base reg [] = pure tt
  push_regs base reg (x ∷ xs) = do
    write_axil (u32 (base + 2 * reg * 4)) (u32 x)
    write_axil (u32 (base + (2 * reg + 1) * 4)) (u32 (x >>> 32))
    push_regs base (suc reg) xs

  unfoldable pub transplant_push_state : ℕ → List ℕ → M W (Unit {0})
  transplant_push_state thread_id state = push_regs (base_offset thread_id) 0 state

  unfoldable pub register_and_push_state : ℕ → ℕ → ArmflexArchState → M W (Unit {0})
  unfolding register_thread_with_process transplant_push_state
  register_and_push_state thread_id process_id state = do
    register_thread_with_process thread_id process_id
    transplant_push_state thread_id (state_words state)

  unfoldable pub transplant_back : ℕ → M W (List ℕ)
  unfolding register_thread_with_process transplant_get_state
  transplant_back thread_id = do
    register_thread_with_process thread_id 0
    transplant_get_state thread_id armflex_tot_regs

  unfoldable pub transplant_pending : M W ℕ
  transplant_pending = preset 0 (read_axil axi_transplant_ctrl_base)

  unfoldable pub query_thread_state : M W ℕ
  unfolding transplant_pending
  query_thread_state = transplant_pending

  unfoldable pub transplant_free_pending : ℕ → M W (Unit {0})
  transplant_free_pending pending_threads = write_axil axi_transplant_ctrl_base pending_threads

  -- `1 << thread_id` is defined for thread numbers below 32.
  unfoldable pub transplant_start : ℕ → M W (Unit {0})
  transplant_start thread_id =
      write_axil (u32 (axi_transplant_ctrl_base + 4)) (u32 (1 <<< thread_id))

  unfoldable pub transplant_stop_cpu : ℕ → M W (Unit {0})
  transplant_stop_cpu thread_id =
      write_axil (u32 (axi_transplant_ctrl_base + 8)) (u32 (1 <<< thread_id))

  -- `while(!pending)`, on fuel.
  pub wait_pending : ℕ → ℕ → M W ℕ
  wait_pending zero pending = spin
  wait_pending (suc fuel) pending =
      let again : M W ℕ = do
        r ← attempt query_thread_state
        elim r [ ok p ↦ wait_pending fuel p | err _ _ ↦ fail minus_one ]
      in if pending == 0 then again else pure pending

  -- The code of `transplant_freePending` is ignored.
  unfoldable pub transplant_wait_till_pending : ℕ → M W ℕ
  transplant_wait_till_pending fuel = do
    pending ← wait_pending fuel 0
    _ ← attempt (transplant_free_pending pending)
    pure pending

  -- `res` is -1 before the read, and the code of the read is ignored.
  unfoldable pub has_message_pending : M W Bool
  has_message_pending = do
    r ← attempt (read_axil (u32 (query_base + 4)))
    pure (not (out 0xFFFF_FFFF r == 0))

  -- `do hasMessage = hasMessagePending(c); while (!hasMessage);`
  pub wait_message : ℕ → M W (Unit {0})
  wait_message zero = spin
  wait_message (suc fuel) = do
    has_message ← has_message_pending
    let rest = wait_message fuel
    if has_message then pure tt else rest

  unfoldable pub query_message_from_fpga : ℕ → M W (List ℕ)
  query_message_from_fpga fuel = do wait_message fuel; read_axi data_base 64

  unfoldable pub get_message_pending : M W (List ℕ)
  get_message_pending = read_axi data_base 64

  unfoldable pub check_rx_message_queue : M W ℕ
  check_rx_message_queue = read_axil (u32 (query_base + 4))

  -- `do readAXIL(c, query_base, &res); while (res == 0);`. A read that fails leaves `res` alone.
  pub wait_room : ℕ → ℕ → M W (Unit {0})
  wait_room zero res = spin
  wait_room (suc fuel) res = do
    r ← attempt (read_axil query_base)
    let rest = wait_room fuel (out res r)
    if out res r == 0 then rest else pure tt

  unfoldable pub send_message_to_fpga : ℕ → List ℕ → M W (Unit {0})
  send_message_to_fpga fuel raw_message = do
    wait_room fuel 0xFFFF_FFFF
    write_axi data_base (message_buffer raw_message)

  unfoldable pub push_page_to_fpga : ℕ → List ℕ → M W (Unit {0})
  push_page_to_fpga paddr page =
      write_axi (u64 (dram_base + page_aligned paddr)) (take page_size page)

  unfoldable pub fetch_page_from_fpga : ℕ → M W (List ℕ)
  fetch_page_from_fpga paddr = read_axi (u64 (dram_base + page_aligned paddr)) page_size
