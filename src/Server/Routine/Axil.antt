-- ===== src/Server/Routine/Axil.antt =====
-- `AXILRoutine` of regression/src/server/subroutine.cc: the client's words, one request at a time.
pub mod Slave
pub mod Transactions
use knockout_kraken.Base.{ℕ, zero, suc, if◌then◌else◌, ◌==◌, le_bytes}
use knockout_kraken.Wire.{MemoryRequestAxil, axil_at}
use knockout_kraken.Server.Ipc.{get_request_axil}
use knockout_kraken.Server.Ports.{
  s_axil_aw_awready, s_axil_w_wready, s_axil_b_bvalid, s_axil_ar_arready, s_axil_r_rvalid,
  s_axil_r_rdata, s_axil_aw_awaddr, s_axil_aw_awprot, s_axil_aw_awvalid, s_axil_w_wdata,
  s_axil_w_wstrb, s_axil_w_wvalid, s_axil_b_bready, s_axil_ar_araddr, s_axil_ar_arprot,
  s_axil_ar_arvalid, s_axil_r_rready,
}
use knockout_kraken.Server.Routine.{
  Setting, pure, ◌>>=◌, ◌>>◌, Piece, tick_once, check, peek, poke, eval, wait_until, poll,
  must_reply, routine,
}

module _ {V W : Type 0} (x : Setting V W) where
  open x use {os, fuel}

  -- `TICK` a number of times.
  unfoldable pub ticks : ℕ → Piece x (Unit {0})
  ticks zero = pure tt
  ticks (suc n) = do tick_once x; ticks n

  -- The body of `if (result.is_write == 0xDEED)`. The answer is the word 0.
  unfoldable pub cycle_step : MemoryRequestAxil → Piece x (Unit {0})
  unfolding ticks
  cycle_step r = do ticks r.w_data; must_reply x (le_bytes 4 0)

  -- A write from the end of the tick behind the response on, behind the data, and behind the address.
  abbrev pub acknowledge : Piece x (Unit {0})
  acknowledge = do poke x s_axil_b_bready 0; eval x; must_reply x (le_bytes 4 0)

  abbrev pub await_response : Piece x (Unit {0})
  await_response = do
    poke x s_axil_w_wvalid 0
    poke x s_axil_b_bready 1
    eval x
    wait_until x fuel s_axil_b_bvalid
    tick_once x
    acknowledge

  abbrev pub push_data : MemoryRequestAxil → Piece x (Unit {0})
  push_data r = do
    poke x s_axil_aw_awvalid 0
    eval x
    poke x s_axil_w_wdata r.w_data
    poke x s_axil_w_wstrb 0xF
    poke x s_axil_w_wvalid 1
    eval x
    wait_until x fuel s_axil_w_wready
    tick_once x
    await_response

  unfoldable pub axil_write : MemoryRequestAxil → Piece x (Unit {0})
  axil_write r = do
    poke x s_axil_aw_awaddr r.addr
    poke x s_axil_aw_awprot 0
    poke x s_axil_aw_awvalid 1
    eval x
    wait_until x fuel s_axil_aw_awready
    tick_once x
    push_data r

  -- A read from the end of the wait for data on, and behind the address.
  abbrev pub answer_word : Piece x (Unit {0})
  answer_word = do
    read_res ← peek x s_axil_r_rdata
    tick_once x
    poke x s_axil_r_rready 0
    eval x
    must_reply x (le_bytes 4 read_res)

  abbrev pub await_data : Piece x (Unit {0})
  await_data = do
    poke x s_axil_ar_arvalid 0
    poke x s_axil_r_rready 1
    eval x
    wait_until x fuel s_axil_r_rvalid
    answer_word

  unfoldable pub axil_read : MemoryRequestAxil → Piece x (Unit {0})
  axil_read r = do
    poke x s_axil_ar_araddr r.addr
    poke x s_axil_ar_arprot 0
    poke x s_axil_ar_arvalid 1
    eval x
    wait_until x fuel s_axil_ar_arready
    tick_once x
    await_data

  unfoldable pub serve_axil : MemoryRequestAxil → Piece x (Unit {0})
  unfolding cycle_step axil_write axil_read
  serve_axil r =
      let plain : Piece x (Unit {0}) = (do
        check x (r.byte_size == 4)
        if r.is_write == 0 then axil_read r else axil_write r) in
      if r.is_write == 0xDEED then cycle_step r else plain

  -- One round of the loop. `uninit` is what lies at `result` before it is written.
  unfoldable pub axil_round : (ℕ → ℕ) → Piece x (Unit {0})
  unfolding serve_axil
  axil_round uninit = do
    result ← poll x fuel (get_request_axil os) uninit
    serve_axil (axil_at result)

  unfoldable pub axil_routine : (ℕ → ℕ) → Piece x (Unit {0})
  unfolding axil_round
  axil_routine uninit = routine x (axil_round uninit)
