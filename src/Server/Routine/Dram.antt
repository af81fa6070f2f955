-- ===== src/Server/Routine/Dram.antt =====
-- `handleDRAMSubroute` of regression/src/server/subroutine.cc: the design's own accesses to the DRAM,
-- in bursts of 64-byte blocks.
pub mod Master
pub mod Reads
pub mod Writes
use knockout_kraken.Base.{
  ℕ, zero, suc, ◌+◌, ◌*◌, ◌-◌, not, bit_and, if◌then◌else◌, ◌==◌, ltb, segment, store_at,
}
use knockout_kraken.Base.Word.{◌>>>◌}
use knockout_kraken.Server.Ports.{
  m_axi_ar_arvalid, m_axi_ar_araddr, m_axi_ar_arsize, m_axi_ar_arid, m_axi_ar_arlen,
  m_axi_aw_awvalid, m_axi_aw_awaddr, m_axi_aw_awid, m_axi_aw_awlen, m_axi_r_rready, m_axi_w_wvalid,
  m_axi_b_bready, m_axi_w_wdata, m_axi_ar_arready, m_axi_r_rid, m_axi_r_rresp, m_axi_r_rlast,
  m_axi_r_rvalid, m_axi_aw_awready, m_axi_w_wready, m_axi_b_bvalid, m_axi_b_bid, m_axi_b_bresp,
  m_axi_r_rdata,
}
use knockout_kraken.Server.Routine.{
  Setting, pure, ◌>>=◌, ◌>>◌, when, Piece, tick_once, check, get_dut, with_dram, peek, peek_wide,
  poke, poke_wide, eval, wait_until, routine,
}

-- The byte address of `dram[BYTE_TO_WORD(addr_byte) + curr_block * WORDS_PER_BLOCK]`.
abbrev pub block_address : ℕ → ℕ → ℕ
block_address addr_byte curr_block = 4 * ((addr_byte >>> 2) + curr_block * 16)

module _ {V W : Type 0} (x : Setting V W) where
  open x use {fuel}

  -- The loop over the blocks of a read burst, from `curr_block` on, with the number of blocks left.
  pub read_blocks : (addr_byte id burst_count curr_block left : ℕ) → Piece x (Unit {0})
  read_blocks addr_byte id burst_count curr_block zero = pure tt
  read_blocks addr_byte id burst_count curr_block (suc left) = do
    poke x m_axi_r_rid id
    poke x m_axi_r_rresp 0
    d ← get_dut x
    poke_wide x m_axi_r_rdata (segment d.dram (block_address addr_byte curr_block) 64)
    poke x m_axi_r_rlast (if curr_block == burst_count - 1 then 1 else 0)
    poke x m_axi_r_rvalid 1
    eval x
    wait_until x fuel m_axi_r_rready
    tick_once x
    poke x m_axi_r_rvalid 0
    eval x
    read_blocks addr_byte id burst_count (curr_block + 1) left

  -- The body of `if (dut->M_AXI_ar_arvalid)`.
  unfoldable pub dram_read : Piece x (Unit {0})
  dram_read = do
    addr_byte ← peek x m_axi_ar_araddr
    d ← get_dut x
    check x (ltb addr_byte d.dram_size)
    check x (bit_and addr_byte 0x3F == 0)
    arsize ← peek x m_axi_ar_arsize
    check x (arsize == 6)
    id ← peek x m_axi_ar_arid
    arlen ← peek x m_axi_ar_arlen
    poke x m_axi_ar_arready 1
    tick_once x
    poke x m_axi_ar_arready 0
    eval x
    read_blocks addr_byte id (arlen + 1) 0 (arlen + 1)

  -- The sixteen words of the data port go to the DRAM.
  abbrev pub store_block : (addr_byte curr_block : ℕ) → Piece x (Unit {0})
  store_block addr_byte curr_block = do
    data_ ← peek_wide x m_axi_w_wdata
    d ← get_dut x
    with_dram x (store_at d.dram (block_address addr_byte curr_block) data_)

  -- The loop over the blocks of a write burst.
  unfoldable pub write_blocks : (addr_byte curr_block left : ℕ) → Piece x (Unit {0})
  write_blocks addr_byte curr_block zero = pure tt
  write_blocks addr_byte curr_block (suc left) = do
    poke x m_axi_w_wready 1
    eval x
    wait_until x fuel m_axi_w_wvalid
    store_block addr_byte curr_block
    tick_once x
    poke x m_axi_w_wready 0
    eval x
    write_blocks addr_byte (curr_block + 1) left

  -- The body of `if (dut->M_AXI_aw_awvalid)`. The third check reads the size of the read channel.
  unfoldable pub dram_write : Piece x (Unit {0})
  unfolding write_blocks
  dram_write = do
    addr_byte ← peek x m_axi_aw_awaddr
    d ← get_dut x
    check x (ltb addr_byte d.dram_size)
    check x (bit_and addr_byte 0x3F == 0)
    arsize ← peek x m_axi_ar_arsize
    check x (arsize == 6)
    id ← peek x m_axi_aw_awid
    awlen ← peek x m_axi_aw_awlen
    poke x m_axi_aw_awready 1
    eval x
    tick_once x
    poke x m_axi_aw_awready 0
    eval x
    write_blocks addr_byte 0 (awlen + 1)
    poke x m_axi_b_bvalid 1
    poke x m_axi_b_bid id
    poke x m_axi_b_bresp 0
    eval x
    wait_until x fuel m_axi_b_bready
    tick_once x
    poke x m_axi_b_bvalid 0
    eval x

  -- One round of the loop.
  unfoldable pub handle_dram : Piece x (Unit {0})
  unfolding dram_read dram_write
  handle_dram = do
    arvalid ← peek x m_axi_ar_arvalid
    when (not (arvalid == 0)) dram_read
    awvalid ← peek x m_axi_aw_awvalid
    when (not (awvalid == 0)) dram_write
    tick_once x

  unfoldable pub handle_dram_subroutine : Piece x (Unit {0})
  unfolding handle_dram
  handle_dram_subroutine = routine x handle_dram
