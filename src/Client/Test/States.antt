-- ===== src/Client/Test/States.antt =====
-- regression/src/client/tests/asm/asm_helpers.c: the registers that the assembly programs start from,
-- and what the tests of client/tests share.
use knockout_kraken.Base.{
  ℕ, ◌-◌, ◌^◌, ◌+◌, Bool, not, List, ◌++◌, Option, none, some, length, take, drop, pos, ◌==◌,
  if◌then◌else◌, ltb,
}
use knockout_kraken.Base.Word.{u32}
use knockout_kraken.Base.Monad.{M, pure, fail, ◌>>◌}
use knockout_kraken.Client.Interface.{ArmflexArchState, page_size}
use knockout_kraken.Client.Test.{require}

-- `state->xregs[i] = v`
abbrev pub set_register : ℕ → ℕ → ArmflexArchState → ArmflexArchState
set_register i v state = record state { xregs = λ j. if i == j then v else state.xregs j }

abbrev pub init_state_pressure_ldp_stp :
    (array_size array_ld_base_addr array_st_base_addr : ℕ) → ArmflexArchState → ArmflexArchState
init_state_pressure_ldp_stp array_size array_ld_base_addr array_st_base_addr state =
    set_register 5 array_size
      (set_register 4 array_st_base_addr (set_register 3 array_ld_base_addr state))

abbrev pub init_state_set_flag :
    (set_flag_addr get_flag_addr : ℕ) → ArmflexArchState → ArmflexArchState
init_state_set_flag set_flag_addr get_flag_addr state =
    set_register 3 get_flag_addr (set_register 2 set_flag_addr state)

abbrev pub init_state_ldst_all_sizes_pair :
    (mem_addr_ld mem_addr_st step_size : ℕ) → ArmflexArchState → ArmflexArchState
init_state_ldst_all_sizes_pair mem_addr_ld mem_addr_st step_size state =
    set_register 4 step_size (set_register 3 mem_addr_st (set_register 2 mem_addr_ld state))

abbrev pub init_state_infinite_loop : Bool → ArmflexArchState → ArmflexArchState
init_state_infinite_loop loop state = set_register 0 (if loop then 0 else 1) state

-- An `int` that becomes a `uint64_t`.
abbrev pub of_int : ℕ → ℕ
of_int n = let v = u32 n in if ltb v (2 ^ 31) then v else 2 ^ 64 - 2 ^ 32 + v

-- `fopen`, and `fread` of at most a page over what the buffer holds. The file's bytes are `none` when
-- it cannot be opened.
unfoldable pub load_over : {W : Type 0} → List ℕ → Option (List ℕ) → M W (List ℕ)
load_over page none = fail (pos 1)
load_over page (some bs) = do
  require (not (length bs == 0))
  pure (take page_size (bs ++ drop (length bs) page))
