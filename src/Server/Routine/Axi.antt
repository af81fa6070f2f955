-- ===== src/Server/Routine/Axi.antt =====
-- `AXIRoutine` and `AXI_DRAM_access` of regression/src/server/subroutine.cc: the client's bytes, to
-- and from the DRAM or the AXI port of the design. A request of more than 4096 bytes would overrun
-- `w_data` in the source; here its reads go on behind the array.
pub mod Slave
pub mod Writes
pub mod Reads
pub mod Lost
use knockout_kraken.Base.{
  ℕ, zero, suc, ◌+◌, ◌*◌, ◌-◌, ◌/◌, ◌%◌, ◌^◌, Bool, true, false, List, [], ◌++◌, if◌then◌else◌,
  ◌==◌, bit_and, take, drop, le_bytes, segment, store_at, ℤ, pos, is_negative, minus_one,
}
use knockout_kraken.Base.Word.{u64, ◌>>>◌}
use knockout_kraken.Wire.{MemoryRequest, request_at}
use knockout_kraken.Server.Dut.{TopDut, is_axi_dram}
use knockout_kraken.Server.Ipc.{get_request_axi}
use knockout_kraken.Server.Ports.{
  s_axi_aw_awready, s_axi_w_wready, s_axi_b_bvalid, s_axi_ar_arready, s_axi_r_rvalid, s_axi_r_rlast,
  s_axi_r_rdata, s_axi_aw_awaddr, s_axi_aw_awsize, s_axi_aw_awburst, s_axi_aw_awlen,
  s_axi_aw_awvalid, s_axi_w_wlast, s_axi_w_wstrb, s_axi_w_wvalid, s_axi_b_bready, s_axi_ar_araddr,
  s_axi_ar_arlen, s_axi_ar_arburst, s_axi_ar_arsize, s_axi_ar_arvalid, s_axi_r_rready,
  s_axi_w_wdata,
}
use knockout_kraken.Server.Routine.{
  Setting, pure, join, ◌>>=◌, ◌>>◌, Piece, tick_once, check, report, get_dut, with_dram, peek,
  peek_wide, poke, poke_wide, eval, wait_until, wait_while, poll, send_reply, must_reply, routine,
}

-- The byte address of `dram[BYTE_TO_WORD(req.addr & dram_addr_mask)]`.
abbrev pub dram_address : {V : Type 0} → TopDut V → ℕ → ℕ
dram_address d addr = 4 * (bit_and addr d.dram_addr_mask >>> 2)

module _ {V W : Type 0} (x : Setting V W) where
  open x use {os, fuel}

  -- `if (!ipc.reply(...)) { dut.reportError(...); return -1; }`, and `return 0` behind it.
  abbrev pub replied : Bool → Piece x ℤ
  replied done =
      let failed : Piece x ℤ = (do report x; pure minus_one) in
      if done then pure (pos 0) else failed

  unfoldable pub axi_dram_access : MemoryRequest → Piece x ℤ
  axi_dram_access req = do
    d ← get_dut x
    let at = dram_address d req.addr
    let write : Piece x ℤ = (do
      with_dram x (store_at d.dram at (take req.byte_size req.w_data))
      done ← send_reply x (le_bytes 4 0)
      replied done)
    let read : Piece x ℤ = (do
      done ← send_reply x (take (4 * (req.byte_size / 4)) (segment d.dram at req.byte_size))
      replied done)
    if req.is_write == 0 then read else write

  -- The address and the length of a burst, in the unsigned arithmetic of the source.
  abbrev pub axi_address : TopDut V → ℕ → ℕ
  axi_address d addr = u64 (addr + 2 ^ 64 - d.axi_base_addr)

  abbrev pub axi_len : ℕ → ℕ
  axi_len byte_size = u64 (byte_size / 64 + 2 ^ 64 - 1)

  -- The loop over the blocks of a write, from `curr_block` on.
  unfoldable pub push_blocks : MemoryRequest → (curr_block left : ℕ) → Piece x (Unit {0})
  push_blocks req curr_block zero = pure tt
  push_blocks req curr_block (suc left) = do
    poke_wide x s_axi_w_wdata (take 64 (drop (64 * curr_block) req.w_data))
    poke x s_axi_w_wlast (if curr_block == axi_len req.byte_size then 1 else 0)
    poke x s_axi_w_wstrb 0xFFFF_FFFF_FFFF_FFFF
    poke x s_axi_w_wvalid 1
    eval x
    wait_until x fuel s_axi_w_wready
    tick_once x
    push_blocks req (curr_block + 1) left

  unfoldable pub axi_write : MemoryRequest → Piece x (Unit {0})
  unfolding push_blocks
  axi_write req = do
    d ← get_dut x
    poke x s_axi_aw_awaddr (axi_address d req.addr)
    poke x s_axi_aw_awsize 6
    poke x s_axi_aw_awburst 1
    poke x s_axi_aw_awlen (axi_len req.byte_size)
    poke x s_axi_aw_awvalid 1
    eval x
    wait_until x fuel s_axi_aw_awready
    tick_once x
    poke x s_axi_aw_awvalid 0
    eval x
    push_blocks req 0 (req.byte_size / 64)
    poke x s_axi_w_wvalid 0
    poke x s_axi_b_bready 1
    eval x
    wait_until x fuel s_axi_b_bvalid
    tick_once x
    poke x s_axi_b_bready 0
    eval x
    must_reply x (le_bytes 4 0)

  -- The loop over the blocks of a read; `got` is what has been read into `w_data`.
  unfoldable pub pull_blocks : ℕ → (curr_block left : ℕ) → List ℕ → Piece x (List ℕ)
  pull_blocks byte_size curr_block zero got = pure got
  pull_blocks byte_size curr_block (suc left) got = do
    wait_until x fuel s_axi_r_rvalid
    block ← peek_wide x s_axi_r_rdata
    rlast ← peek x s_axi_r_rlast
    check x (if curr_block == axi_len byte_size then (if rlast == 0 then false else true) else true)
    tick_once x
    pull_blocks byte_size (curr_block + 1) left (got ++ block)

  -- A read up to the wait for `S_AXI_ar_arready`.
  abbrev pub offer_read : MemoryRequest → Piece x (Unit {0})
  offer_read req = do
    d ← get_dut x
    poke x s_axi_ar_araddr (axi_address d req.addr)
    poke x s_axi_ar_arlen (axi_len req.byte_size)
    poke x s_axi_ar_arburst 1
    poke x s_axi_ar_arsize 6
    poke x s_axi_ar_arvalid 1
    eval x

  -- A read from the end of the tick that follows on.
  unfoldable pub take_read : MemoryRequest → Piece x (Unit {0})
  unfolding pull_blocks
  take_read req = do
    poke x s_axi_ar_arvalid 0
    poke x s_axi_r_rready 1
    eval x
    bytes ← pull_blocks req.byte_size 0 (req.byte_size / 64) []
    poke x s_axi_r_rready 0
    eval x
    must_reply x bytes

  -- The wait goes on while the signal is up.
  unfoldable pub axi_read : MemoryRequest → Piece x (Unit {0})
  unfolding take_read
  axi_read req = do offer_read req; wait_while x fuel s_axi_ar_arready; tick_once x; take_read req

  unfoldable pub serve_axi : MemoryRequest → Piece x (Unit {0})
  unfolding axi_dram_access axi_write axi_read
  serve_axi req = do
    check x (req.byte_size % 64 == 0)
    d ← get_dut x
    let stop : Piece x (Unit {0}) = (do tick_once x; join)
    let bypass : Piece x (Unit {0}) = (do
      code ← axi_dram_access req
      if is_negative code then stop else pure tt)
    if is_axi_dram d req.addr
        then bypass
        else (if req.is_write == 0 then axi_read req else axi_write req)

  -- One round of the loop. `uninit` is what lies at `result` before it is written.
  unfoldable pub axi_round : (ℕ → ℕ) → Piece x (Unit {0})
  unfolding serve_axi
  axi_round uninit = do
    result ← poll x fuel (get_request_axi os) uninit
    serve_axi (request_at result)

  unfoldable pub axi_routine : (ℕ → ℕ) → Piece x (Unit {0})
  unfolding axi_round
  axi_routine uninit = routine x (axi_round uninit)
