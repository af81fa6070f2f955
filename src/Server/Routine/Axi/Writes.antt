-- ===== src/Server/Routine/Axi/Writes.antt =====
-- A write of the client through the AXI port is one burst, which stores its bytes.
use knockout_kraken.Base.{
  ℕ, zero, suc, ◌+◌, ◌-◌, ◌*◌, ◌/◌, ◌%◌, ◌≤◌, ◌<◌, ◌≡◌, refl, sym, ap, ◌∙◌, arith, List, [], ◌∷◌,
  some, length, length-take, length-drop, take, drop, take_add, drop_add, le_bytes, if◌then◌else◌,
  ◌==◌, store_at, store_at-append,
}
use knockout_kraken.Wire.{MemoryRequest}
use knockout_kraken.Server.Ports.{
  s_axi_aw_awaddr, s_axi_aw_awsize, s_axi_aw_awburst, s_axi_aw_awlen, s_axi_aw_awvalid,
  s_axi_w_wlast, s_axi_w_wstrb, s_axi_w_wvalid, s_axi_b_bready, s_axi_w_wdata,
}
use knockout_kraken.Server.Routine.{
  Setting, Shared, go, Piece, ◌>>◌, wait_until, must_reply, poke, eval, tick_once,
}
use knockout_kraken.Server.Routine.Axi.{axi_write, push_blocks, axi_address, axi_len}
use knockout_kraken.Server.Routine.Axi.Slave.{
  Pins, idle, responding, writing, write_data, write_address, write_response, signal, wrote,
  write_block, axi, Rests, rested,
}
use knockout_kraken.Server.Routine.Protocol.{
  last_mark, mark_last, zero_more, Change, level, wide, Follows,
}
use knockout_kraken.Server.Routine.Protocol.Handshakes.{
  on, awaited, view-awaited, settled, step, At,
}

marked-write_block :
    (p : Pins) (addr more : ℕ) (memory : ℕ → ℕ)
    → p.wstrb ≡ 0xFFFF_FFFF_FFFF_FFFF
    → p.wlast ≡ last_mark more
    → write_block p addr more memory
      ≡ record { phase = wrote addr more; memory = store_at memory addr p.wdata }
marked-write_block p addr zero memory strobe last = rw (strobe, last)
marked-write_block p addr (suc more) memory strobe last = rw (strobe, last)

-- The block that comes next, of the bytes of a request.
abbrev block : MemoryRequest → ℕ → List ℕ
block r curr = take 64 (drop (64 * curr) r.w_data)

-- The bytes of the last `left` blocks from `curr` on.
abbrev blocks : MemoryRequest → (curr left : ℕ) → List ℕ
blocks r curr left = take (64 * left) (drop (64 * curr) r.w_data)

store_blocks :
    (r : MemoryRequest) (curr left addr : ℕ) (memory : ℕ → ℕ)
    → 64 * (curr + suc left) ≤ length r.w_data
    → store_at (store_at memory addr (block r curr)) (addr + 64) (blocks r (curr + 1) left)
      ≡ store_at memory addr (blocks r curr (suc left))
store_blocks r curr left addr memory enough =
    let rest = drop (64 * curr) r.w_data in
    let full : length (block r curr) ≡ 64 =
      omega (arith, length-take 64 rest, length-drop (64 * curr) r.w_data) in
    let later : drop (64 * (curr + 1)) r.w_data ≡ drop 64 rest =
      ap (λ (k : ℕ). drop k r.w_data) (let e : 64 * (curr + 1) ≡ 64 * curr + 64 = omega arith in e)
      ∙ drop_add (64 * curr) 64 r.w_data in
    ap
      (λ (xs : List ℕ).
        store_at (store_at memory addr (block r curr)) (addr + 64) (take (64 * left) xs))
      later
    ∙ ap
        (λ (k : ℕ).
          store_at (store_at memory addr (block r curr)) (addr + k)
            (take (64 * left) (drop 64 rest)))
        (sym full)
    ∙ sym (store_at-append memory addr (block r curr) (take (64 * left) (drop 64 rest)))
    ∙ ap (store_at memory addr) (sym (take_add 64 (64 * left) rest))
    ∙ ap (λ (k : ℕ). store_at memory addr (take k rest))
        (let e : 64 + 64 * left ≡ 64 * suc left = omega arith in e)

module _ {V W A : Type 0} (x : Setting V W) (view : Shared V W → A)
    (slave : Follows axi x view) where
  open slave use {pins}

  -- The ports of a block.
  abbrev block_ports : MemoryRequest → ℕ → List Change
  block_ports r curr =
      wide s_axi_w_wdata (block r curr)
      ∷ level s_axi_w_wlast (if curr == axi_len x r.byte_size then 1 else 0)
      ∷ level s_axi_w_wstrb 0xFFFF_FFFF_FFFF_FFFF
      ∷ level s_axi_w_wvalid 1
      ∷ []

  -- The pins that a write burst leaves as they are.
  pub record SameReads (p q : Pins) : Type 0 where
    pub same_awvalid : q.awvalid ≡ p.awvalid
    pub same_arvalid : q.arvalid ≡ p.arvalid
    pub same_rready : q.rready ≡ p.rready

  push_one :
      (r : MemoryRequest) (curr more addr : ℕ) (q : Pins) (memory : ℕ → ℕ) (s : Shared V W)
      → axi_len x r.byte_size ≡ curr + more
      → At axi x view slave q (record { phase = writing addr more; memory = memory }) s
      → (s' : Shared V W) × (q' : Pins) × ((left : ℕ)
          → push_blocks x r curr (suc left) s ≡ push_blocks x r (curr + 1) left s')
        × At axi x view slave q'
            (record { phase = wrote addr more; memory = store_at memory addr (block r curr) })
            s'
        × (view s' ≡ view s)
        × SameReads q q'
  unfolding push_blocks
  push_one r curr more addr q memory s last here =
      let (s', e, (hq, hk), v) =
        step axi x view slave write_data (block_ports r curr) q _ s here refl in
      (
        s',
        _,
        λ left. e (push_blocks x r (curr + 1) left),
        (
          hq,
          hk
              ∙ marked-write_block
                  (record q {
                    wdata = block r curr;
                    wlast = if curr == axi_len x r.byte_size then 1 else 0;
                    wstrb = 0xFFFF_FFFF_FFFF_FFFF;
                    wvalid = 1;
                  })
                  addr more memory refl (mark_last curr more (axi_len x r.byte_size) last),
        ),
        v,
        record { same_awvalid = refl; same_arvalid = refl; same_rready = refl },
      )

  no_blocks :
      (r : MemoryRequest) (curr : ℕ) (s : Shared V W) → push_blocks x r curr 0 s ≡ some (go tt, s)
  unfolding push_blocks
  no_blocks r curr s = refl

  push_all :
      (r : MemoryRequest) (curr more addr : ℕ) (q : Pins) (memory : ℕ → ℕ) (s : Shared V W)
      → axi_len x r.byte_size ≡ curr + more
      → 64 * (curr + suc more) ≤ length r.w_data
      → At axi x view slave q (record { phase = writing addr more; memory = memory }) s
      → (s' : Shared V W) × (q' : Pins) × (push_blocks x r curr (suc more) s ≡ some (go tt, s'))
        × At axi x view slave q'
            (record {
              phase = responding;
              memory = store_at memory addr (blocks r curr (suc more));
            })
            s'
        × (view s' ≡ view s)
        × SameReads q q'
  push_all r curr zero addr q memory s last enough here =
      let (s', q', e, at, v, same) = push_one r curr zero addr q memory s last here in
      (s', q', e 0 ∙ no_blocks r (curr + 1) s', at, v, same)
  push_all r curr (suc more) addr q memory s last enough here =
      let (s1, q1, e1, at1, v1, same1) = push_one r curr (suc more) addr q memory s last here in
      let (s', q', e, (hq, hk), v, same) =
        push_all r (curr + 1) more (addr + 64) q1 (store_at memory addr (block r curr)) s1
          (omega (arith, last)) (omega (arith, enough)) at1 in
      (
        s',
        q',
        e1 (suc more) ∙ e,
        (
          hq,
          hk
              ∙ ap (λ (m : ℕ → ℕ). record { phase = responding; memory = m })
                  (store_blocks r curr (suc more) addr memory enough),
        ),
        v ∙ v1,
        record {
          same_awvalid = same.same_awvalid ∙ same1.same_awvalid;
          same_arvalid = same.same_arvalid ∙ same1.same_arvalid;
          same_rready = same.same_rready ∙ same1.same_rready;
        },
      )

  pub axi_len_lem : (n : ℕ) → n % 64 ≡ 0 → 0 < n → n ≤ 16384 → axi_len x n ≡ n / 64 - 1
  axi_len_lem n whole some_bytes small = omega (arith, whole)

  -- A write behind the transfer of its address, behind the last block, and behind the response.
  abbrev answer_write : MemoryRequest → Piece x (Unit {0})
  answer_write r = do poke x s_axi_b_bready 0; eval x; must_reply x (le_bytes 4 0)

  abbrev close_burst : MemoryRequest → Piece x (Unit {0})
  close_burst r = do
    poke x s_axi_w_wvalid 0
    poke x s_axi_b_bready 1
    eval x
    wait_until x x.fuel (signal write_response)
    tick_once x
    answer_write r

  abbrev push_burst : MemoryRequest → Piece x (Unit {0})
  push_burst r = do
    poke x s_axi_aw_awvalid 0
    eval x
    push_blocks x r 0 (r.byte_size / 64)
    close_burst r

  axi_write-burst :
      (r : MemoryRequest) (more : ℕ) (s : Shared V W) (memory : ℕ → ℕ)
      → 64 * suc more ≡ r.byte_size
      → r.byte_size / 64 ≡ suc more
      → axi_len x r.byte_size ≡ more
      → axi_len x r.byte_size % 256 ≡ more
      → r.byte_size ≤ length r.w_data
      → Rests x view slave s memory
      → (s' : Shared V W) × (axi_write x r s ≡ must_reply x (le_bytes 4 0) s')
        × Rests x view slave s'
            (store_at memory (axi_address x s.dut r.addr) (take r.byte_size r.w_data))
        × (view s' ≡ view s)
  unfolding axi_write
  axi_write-burst r more s memory size count len port_len enough rests =
      let addr = axi_address x s.dut r.addr in
      let c1 =
        level s_axi_aw_awaddr addr
        ∷ level s_axi_aw_awsize 6
        ∷ level s_axi_aw_awburst 1
        ∷ level s_axi_aw_awlen (axi_len x r.byte_size)
        ∷ level s_axi_aw_awvalid 1
        ∷ [] in
      let (s1, e1, (p1, k1), v1) =
        step axi x view slave write_address c1 (pins s.dut.design) _ s (refl, rests.holds)
          (refl, rests.no_read) in
      let held : slave.state s1.dut.design ≡ record { phase = writing addr more; memory = memory } =
        k1 ∙ ap (λ (n : ℕ). record { phase = writing addr n; memory = memory }) port_len in
      let off = level s_axi_aw_awvalid 0 ∷ [] in
      let s2 = awaited axi x view slave off s1 in
      let (s3, q3, e3, a3, v3, same) =
        push_all r 0 more addr _ memory s2 (len ∙ zero_more more) (omega (arith, enough))
          (settled axi x view slave off _ _ s1 (p1, held)) in
      let c4 = level s_axi_w_wvalid 0 ∷ level s_axi_b_bready 1 ∷ [] in
      let (s4, e4, a4, v4) = step axi x view slave write_response c4 _ _ s3 a3 refl in
      let last = level s_axi_b_bready 0 ∷ [] in
      let s5 = awaited axi x view slave last s4 in
      let (p5, k5) = settled axi x view slave last _ _ s4 a4 in
      let stored : slave.state s5.dut.design
          ≡ record { phase = idle; memory = store_at memory addr (take r.byte_size r.w_data) } =
        k5
        ∙ ap (λ (n : ℕ). record { phase = idle; memory = store_at memory addr (take n r.w_data) })
            size in
      (
        s5,
        e1 (push_burst r)
            ∙ on x (push_blocks x r 0 (r.byte_size / 64)) (close_burst r) s2 s3
                (ap (λ (n : ℕ). push_blocks x r 0 n s2) count ∙ e3)
            ∙ e4 (answer_write r),
        rested x view slave _ s5 _ (p5, stored) same.same_awvalid
            (same.same_arvalid ∙ rests.no_read) (same.same_rready ∙ rests.no_ready),
        view-awaited axi x view slave last s4 ∙ v4 ∙ v3 ∙ view-awaited axi x view slave off s1 ∙ v1,
      )

  -- Over a design that is a memory behind its AXI port, which keeps each channel waiting for a
  -- bounded time covered by the fuel, while no tick ends the simulation, and between bursts: a
  -- write of a positive multiple of 64 bytes, at most 16384 and no more than the request carries,
  -- is one burst, with its last block and only that marked as the last. After it the memory has the
  -- request's bytes from its address less the base address on and is otherwise as it was, the port
  -- is between bursts again, what ticks leave alone is as it was, and the routine replies with the
  -- word 0.
  pub axi_write-Rests :
      (r : MemoryRequest) (s : Shared V W) (memory : ℕ → ℕ)
      → r.byte_size % 64 ≡ 0
      → 0 < r.byte_size
      → r.byte_size ≤ 16384
      → r.byte_size ≤ length r.w_data
      → Rests x view slave s memory
      → (s' : Shared V W) × (axi_write x r s ≡ must_reply x (le_bytes 4 0) s')
        × Rests x view slave s'
            (store_at memory (axi_address x s.dut r.addr) (take r.byte_size r.w_data))
        × (view s' ≡ view s)
  axi_write-Rests r s memory whole some_bytes small enough rests =
      let more = r.byte_size / 64 - 1 in
      let len : axi_len x r.byte_size ≡ more = axi_len_lem r.byte_size whole some_bytes small in
      axi_write-burst r more s memory (omega (arith, whole)) (omega (arith, whole)) len
        (omega (arith, len)) enough rests
