-- ===== src/Server/Ports.antt =====
-- The ports of the Verilated top module that regression/src/server/subroutine.cc uses. The module is
-- generated, so how it stores them is a parameter. A data port of 512 bits is its 64 bytes.
use knockout_kraken.Base.{ℕ, List}

-- Driven by the design.
pub data Output : Type 0 where
  m_axi_ar_arvalid m_axi_ar_araddr m_axi_ar_arsize m_axi_ar_arid m_axi_ar_arlen : Output
  m_axi_aw_awvalid m_axi_aw_awaddr m_axi_aw_awid m_axi_aw_awlen : Output
  m_axi_r_rready m_axi_w_wvalid m_axi_b_bready : Output
  s_axil_aw_awready s_axil_w_wready s_axil_b_bvalid : Output
  s_axil_ar_arready s_axil_r_rvalid s_axil_r_rdata : Output
  s_axi_aw_awready s_axi_w_wready s_axi_b_bvalid : Output
  s_axi_ar_arready s_axi_r_rvalid s_axi_r_rlast : Output

pub data WideOutput : Type 0 where
  m_axi_w_wdata s_axi_r_rdata : WideOutput

-- Driven by the simulator.
pub data Input : Type 0 where
  m_axi_ar_arready m_axi_r_rid m_axi_r_rresp m_axi_r_rlast m_axi_r_rvalid : Input
  m_axi_aw_awready m_axi_w_wready m_axi_b_bvalid m_axi_b_bid m_axi_b_bresp : Input
  s_axil_aw_awaddr s_axil_aw_awprot s_axil_aw_awvalid : Input
  s_axil_w_wdata s_axil_w_wstrb s_axil_w_wvalid s_axil_b_bready : Input
  s_axil_ar_araddr s_axil_ar_arprot s_axil_ar_arvalid s_axil_r_rready : Input
  s_axi_aw_awaddr s_axi_aw_awsize s_axi_aw_awburst s_axi_aw_awlen s_axi_aw_awvalid : Input
  s_axi_w_wlast s_axi_w_wstrb s_axi_w_wvalid s_axi_b_bready : Input
  s_axi_ar_araddr s_axi_ar_arlen s_axi_ar_arburst s_axi_ar_arsize s_axi_ar_arvalid : Input
  s_axi_r_rready : Input

pub data WideInput : Type 0 where
  m_axi_r_rdata s_axi_w_wdata : WideInput

pub record Ports (V : Type 0) : Type 0 where
  pub get : Output → V → ℕ
  pub get_wide : WideOutput → V → List ℕ
  pub set : Input → ℕ → V → V
  pub set_wide : WideInput → List ℕ → V → V
