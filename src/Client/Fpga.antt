-- ===== src/Client/Fpga.antt =====
-- regression/src/client/fpga.h: the addresses of the shell, and the five calls by which the rest
-- of the driver reaches the FPGA or its simulator. fpga_rtl.c and fpga_aws.c implement them.
use knockout_kraken.Base.{ℕ, List}
use knockout_kraken.Base.Monad.{M}

pub record AxiBaseAddress : Type 0 where
  pub axil_base : ℕ
  pub tt : ℕ
  pub transplant_data : ℕ
  pub transplant_ctl : ℕ
  pub transplant_stop_cpu : ℕ
  pub message_queue : ℕ
  pub dram_base : ℕ
  pub pt_base : ℕ
  pub page_base : ℕ
  pub axi_base : ℕ
  pub message : ℕ

-- The calls at one `const FPGAContext *c`; `W` is the state of what stands behind them. The data of
-- the AXI calls is bytes, as many as `size_in_byte`.
pub record Fpga (W : Type 0) : Type 0 where
  pub base_address : AxiBaseAddress
  pub read_axil : ℕ → M W ℕ
  pub write_axil : ℕ → ℕ → M W (Unit {0})
  pub read_axi : ℕ → ℕ → M W (List ℕ)
  pub write_axi : ℕ → List ℕ → M W (Unit {0})
