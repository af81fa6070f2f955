-- ===== src/Server/Routine/Axil/Transactions.antt =====
-- Each AXI-Lite request is one transaction at the port of the design.
use knockout_kraken.Base.{
  ℕ, ◌≡◌, ◌≢◌, refl, ap, ◌∙◌, subst, true, false, List, [], ◌∷◌, ==_iff, ≢→==, Bool, le_bytes,
  if◌then◌else◌, ◌==◌,
}
use knockout_kraken.Wire.{MemoryRequestAxil}
use knockout_kraken.Server.Ipc.{IpcServer}
use knockout_kraken.Server.Ports.{
  s_axil_aw_awaddr, s_axil_aw_awprot, s_axil_aw_awvalid, s_axil_w_wdata, s_axil_w_wstrb,
  s_axil_w_wvalid, s_axil_b_bready, s_axil_ar_araddr, s_axil_ar_arprot, s_axil_ar_arvalid,
  s_axil_r_rready, s_axil_r_rdata,
}
use knockout_kraken.Server.Routine.{
  Setting, Shared, Piece, ◌>>=◌, ◌>>◌, tick_once, wait_until, must_reply, poke, eval,
}
use knockout_kraken.Server.Routine.Axil.{
  serve_axil, axil_write, push_data, await_response, acknowledge, axil_read, await_data,
  answer_word,
}
use knockout_kraken.Server.Routine.Protocol.{level}
use knockout_kraken.Server.Routine.Protocol.Handshakes.{
  on, ticked_once, awaited, view-awaited, settled, step, handshake, taken,
}
use knockout_kraken.Server.Routine.Axil.Slave.{
  Bank, write_address, write_data, write_response, read_address, read_data, signal, write_register,
  AxilSlave, axil, Shown, socket_of, Rests, rested, Untouched, to_Untouched,
}

module _ {V W : Type 0} (x : Setting V W) (slave : AxilSlave x) where
  open slave use {port}
  open port use {pins}

  abbrev view : Shared V W → IpcServer × (List ℕ × List ℕ)
  view = socket_of slave.under_way

  axil_write-Rests :
      (r : MemoryRequestAxil) (s : Shared V W) (registers : ℕ → ℕ)
      → Rests x slave s registers
      → (s' : Shared V W) × (axil_write x r s ≡ must_reply x (le_bytes 4 0) s')
        × Rests x slave s' (write_register registers r.addr r.w_data)
        × Untouched x slave s s'
  unfolding axil_write
  axil_write-Rests r s registers rests =
      let p0 = pins s.dut.design in
      let c1 =
        level s_axil_aw_awaddr r.addr ∷ level s_axil_aw_awprot 0 ∷ level s_axil_aw_awvalid 1 ∷ [] in
      let (s1, e1, a1, u1) =
        step axil x view port write_address c1 p0 _ s (refl, rests.holds) (refl, rests.no_read) in
      let off = level s_axil_aw_awvalid 0 ∷ [] in
      let a2 = settled axil x view port off _ _ s1 a1 in
      let c2 =
        level s_axil_w_wdata r.w_data ∷ level s_axil_w_wstrb 15 ∷ level s_axil_w_wvalid 1 ∷ [] in
      let (s3, e3, a3, u3) =
        step axil x view port write_data c2 _ _ (awaited axil x view port off s1) a2 refl in
      let c4 = level s_axil_w_wvalid 0 ∷ level s_axil_b_bready 1 ∷ [] in
      let (s4, e4, a4, u4) = step axil x view port write_response c4 _ _ s3 a3 refl in
      let last = level s_axil_b_bready 0 ∷ [] in
      (
        awaited axil x view port last s4,
        e1 (push_data x r) ∙ e3 (await_response x) ∙ e4 (acknowledge x),
        rested x slave _ (awaited axil x view port last s4) _
            (settled axil x view port last _ _ s4 a4) refl rests.no_read,
        to_Untouched x slave s (awaited axil x view port last s4) (
            view-awaited axil x view port last s4
            ∙ u4
            ∙ u3
            ∙ view-awaited axil x view port off s1
            ∙ u1),
      )

  -- A read behind its last tick.
  abbrev finish : ℕ → Piece x (Unit {0})
  finish read_res = do poke x s_axil_r_rready 0; eval x; must_reply x (le_bytes 4 read_res)

  axil_read-Rests :
      (r : MemoryRequestAxil) (s : Shared V W) (registers : ℕ → ℕ)
      → Rests x slave s registers
      → (s' : Shared V W) × (axil_read x r s ≡ must_reply x (le_bytes 4 (registers r.addr)) s')
        × Rests x slave s' registers
        × Untouched x slave s s'
  unfolding axil_read
  axil_read-Rests r s registers rests =
      let p0 = pins s.dut.design in
      let c1 =
        level s_axil_ar_araddr r.addr ∷ level s_axil_ar_arprot 0 ∷ level s_axil_ar_arvalid 1 ∷ [] in
      let (s1, e1, a1, u1) =
        step axil x view port read_address c1 p0 _ s (refl, rests.holds) (refl, rests.no_write) in
      let c2 = level s_axil_ar_arvalid 0 ∷ level s_axil_r_rready 1 ∷ [] in
      let (p2, k2) = settled axil x view port c2 _ _ s1 a1 in
      let t =
        handshake axil x view port read_data _ _ (awaited axil x view port c2 s1) (p2, k2) refl in
      let at_tick =
        taken axil x view port read_data _ _ (awaited axil x view port c2 s1) (p2, k2) refl t
          t.offered refl in
      let behind = (x.tick t.offered).1 in
      let word : x.ports.get s_axil_r_rdata t.offered.dut.design ≡ registers r.addr =
        subst (λ (k : Bank). Shown k.phase (λ o. x.ports.get o t.offered.dut.design)) (t.held ∙ k2)
          (port.shows t.offered.dut.design) t.up in
      let last = level s_axil_r_rready 0 ∷ [] in
      (
        awaited axil x view port last behind,
        e1 (await_data x)
            ∙ on x (wait_until x x.fuel (signal read_data)) (answer_word x)
                (awaited axil x view port c2 s1) t.offered t.waited
            ∙ on x (tick_once x) (finish (x.ports.get s_axil_r_rdata t.offered.dut.design))
                t.offered behind (ticked_once axil x view port t.offered)
            ∙ ap (λ (w : ℕ). finish w behind) word,
        rested x slave _ (awaited axil x view port last behind) _
            (settled axil x view port last _ _ behind at_tick) rests.no_write refl,
        to_Untouched x slave s (awaited axil x view port last behind) (
            view-awaited axil x view port last behind
            ∙ port.tick_view t.offered
            ∙ t.view_held
            ∙ view-awaited axil x view port c2 s1
            ∙ u1),
      )

  -- What a bank of registers answers to a read or to a write, and what it holds then.
  abbrev respond_as : Bool → MemoryRequestAxil → (ℕ → ℕ) → List ℕ × (ℕ → ℕ)
  respond_as is_read r registers =
      if is_read
      then (le_bytes 4 (registers r.addr), registers)
      else (le_bytes 4 0, write_register registers r.addr r.w_data)

  abbrev pub respond : MemoryRequestAxil → (ℕ → ℕ) → List ℕ × (ℕ → ℕ)
  respond r registers = respond_as (r.is_write == 0) r registers

  serve_plain :
      (r : MemoryRequestAxil) (s : Shared V W)
      → r.is_write ≢ 0xDEED
      → r.byte_size ≡ 4
      → serve_axil x r s ≡ (if r.is_write == 0 then axil_read x r else axil_write x r) s
  unfolding serve_axil
  serve_plain r s plain size =
      rw (≢→== r.is_write 0xDEED plain, (==_iff r.byte_size 4).1 size, ◌>>=◌, ◌>>◌)

  transaction-Rests :
      (is_read : Bool) (r : MemoryRequestAxil) (s : Shared V W) (registers : ℕ → ℕ)
      → Rests x slave s registers
      → (s' : Shared V W) × ((if is_read then axil_read x r else axil_write x r) s
          ≡ must_reply x (respond_as is_read r registers).0 s')
        × Rests x slave s' (respond_as is_read r registers).1
        × Untouched x slave s s'
  transaction-Rests true r s registers rests = axil_read-Rests r s registers rests
  transaction-Rests false r s registers rests = axil_write-Rests r s registers rests

  -- Over a design that is a bank of registers behind its AXI-Lite port, which keeps each channel
  -- waiting for a bounded time covered by the fuel, while no tick ends the simulation, and between
  -- transactions: a request for four bytes that is no simulator command is one transaction, after
  -- which the routine replies with what the bank answers to the request, the bank holds what it
  -- should, and the port is between transactions again. Its socket is untouched before the reply.
  pub serve_axil-Rests :
      (r : MemoryRequestAxil) (s : Shared V W) (registers : ℕ → ℕ)
      → r.is_write ≢ 0xDEED
      → r.byte_size ≡ 4
      → Rests x slave s registers
      → (s' : Shared V W) × (serve_axil x r s ≡ must_reply x (respond r registers).0 s')
        × Rests x slave s' (respond r registers).1
        × Untouched x slave s s'
  serve_axil-Rests r s registers plain size rests =
      let (s', e, after, same) = transaction-Rests (r.is_write == 0) r s registers rests in
      (s', serve_plain r s plain size ∙ e, after, same)
