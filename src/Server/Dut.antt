-- ===== src/Server/Dut.antt =====
-- regression/src/server/dut.hh and dut.cc: the class TopDUT, which couples the Verilated design with
-- the threads that serve it. Its mutex is held by one thread at a time, so each function below is
-- what happens between taking it and releasing it or waiting. Trace output and `printf` are left out.
pub mod Mask
pub mod Barrier
use knockout_kraken.Base.{
  ℕ, zero, suc, ◌+◌, ◌-◌, ◌*◌, ◌/◌, ◌%◌, ◌^◌, Bool, true, false, List, [], ◌∷◌, ◌++◌, map, length,
  Option, none, some, if◌then◌else◌, ◌==◌, ltb,
}
use knockout_kraken.Base.Word.{u64}

-- The Verilated design: its state, and what the class does to it. It is generated, so its behaviour
-- is a parameter.
pub record Design (V : Type 0) : Type 0 where
  pub eval : V → V
  pub set_clock : ℕ → V → V
  pub set_reset : ℕ → V → V

-- Where a registered thread is: at work between two waits, in `subroutine_cv.wait`, decoupled, or
-- returned.
pub data Thread : Type 0 where
  running parked decoupled finished : Thread

-- `dram` is the bytes of the DRAM, `threads` the vector `subroutines`.
pub record TopDut (V : Type 0) : Type 0 where
  pub design : V
  pub dram : ℕ → ℕ
  pub dram_size : ℕ
  pub dram_addr_mask : ℕ
  pub axi_base_addr : ℕ
  pub time : ℕ
  pub ready_thread : ℕ
  pub decoupled_count : ℕ
  pub threads : List Thread
  pub terminating : Bool
  pub error_occurred : Bool

-- `for (p = 1; d > 0; d >>= 1, p <<= 1);`, on fuel.
unfoldable pub power2_loop : ℕ → ℕ → ℕ → Option ℕ
power2_loop zero d p = none
power2_loop (suc fuel) d p =
    let rest = power2_loop fuel (d / 2) (u64 (p * 2)) in if ltb 0 d then rest else some p

-- A 64-bit size is gone after 64 halvings.
unfoldable pub addr_mask : ℕ → Option ℕ
addr_mask dram_size = elim (power2_loop 65 dram_size 1) [
  | none ↦ none
  | some p ↦ some (u64 (p + 2 ^ 64 - 1))
]

-- `subroutine_cv.notify_all()`.
abbrev pub wake : Thread → Thread
wake parked = running
wake t = t

module _ {V : Type 0} (v : Design V) where
  -- The constructor, over the fresh design and the uninitialised DRAM.
  unfoldable pub new_dut : ℕ → V → (ℕ → ℕ) → Option (TopDut V)
  new_dut size fresh uninit = elim (addr_mask size) [
    | none ↦ none
    | some mask ↦ some (record {
      design = fresh;
      dram = uninit;
      dram_size = size;
      dram_addr_mask = mask;
      axi_base_addr = size;
      time = 0;
      ready_thread = 0;
      decoupled_count = 0;
      threads = [];
      terminating = false;
      error_occurred = false;
    })
  ]

  unfoldable pub reset : TopDut V → TopDut V
  reset d =
      let v1 = v.eval (v.set_reset 1 d.design) in
      let v2 = v.eval (v.set_clock 1 v1) in
      let v3 = v.eval (v.set_reset 0 (v.set_clock 0 v2)) in
      record d { design = v3; time = d.time + 2 }

  -- `tick` up to its wait.
  unfoldable pub tick_start : TopDut V → TopDut V
  tick_start d =
      let v1 = v.eval d.design in
      let v2 = v.eval (v.set_clock 1 v1) in
      let v3 = v.eval (v.set_clock 0 v2) in
      record d { design = v3; time = d.time + 2; ready_thread = 0; threads = map wake d.threads }

-- The condition that `tick` waits for; it then returns `error_occurred`.
unfoldable pub tick_done : {V : Type 0} → TopDut V → Bool
tick_done d = d.ready_thread == (length d.threads + 2 ^ 64 - d.decoupled_count) % 2 ^ 64

module _ {V : Type 0} where
  -- `waitForTick`: where the calling thread is afterwards, and the rest of the object.
  abbrev pub after_wait : TopDut V → Thread
  after_wait d = if d.terminating then finished else parked

  unfoldable pub wait_for_tick : TopDut V → List Thread → TopDut V
  wait_for_tick d threads = record d { ready_thread = u64 (d.ready_thread + 1); threads = threads }

  unfoldable pub report_error : TopDut V → TopDut V
  report_error d = record d { error_occurred = true }

  unfoldable pub decouple : TopDut V → List Thread → TopDut V
  decouple d threads = record d { decoupled_count = u64 (d.decoupled_count + 1); threads = threads }

  unfoldable pub attach : TopDut V → List Thread → TopDut V
  attach d threads = record d {
    decoupled_count = u64 (d.decoupled_count + 2 ^ 64 - 1);
    threads = threads;
  }

  unfoldable pub register_subroutine : TopDut V → TopDut V
  register_subroutine d = record d { threads = d.threads ++ running ∷ [] }

  -- The first and the last assignment of `join`, around a `tick` and the joins of all threads.
  unfoldable pub set_terminating : Bool → TopDut V → TopDut V
  set_terminating b d = record d { terminating = b }

  unfoldable pub is_axi_dram : TopDut V → ℕ → Bool
  is_axi_dram d addr = ltb addr d.dram_size
