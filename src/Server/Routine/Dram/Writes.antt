-- ===== src/Server/Routine/Dram/Writes.antt =====
-- A write burst of the design stores its blocks in the DRAM.
use knockout_kraken.Base.{
  ℕ, suc, ◌+◌, ◌*◌, ◌%◌, ◌≤◌, ◌<◌, ◌≡◌, refl, sym, ap, ap₂, ◌∙◌, subst, arith, List, [], ◌∷◌, ◌++◌,
  append-nil, All, some, length, ◌==◌, ltb, bit_and, bit_and_mask, store_at, store_at-append,
  ==_iff, lt→ltb,
}
use knockout_kraken.Server.Ports.{
  Output, m_axi_ar_arsize, m_axi_aw_awready, m_axi_aw_awaddr, m_axi_aw_awid, m_axi_aw_awlen,
  m_axi_w_wready, m_axi_w_wdata, m_axi_b_bvalid, m_axi_b_bid, m_axi_b_bresp,
}
use knockout_kraken.Server.Routine.{
  Setting, Shared, go, Piece, ◌>>=◌, ◌>>◌, poke, peek, eval, check, tick_once, wait_until,
}
use knockout_kraken.Server.Routine.Dram.{block_address, store_block, write_blocks, dram_write}
use knockout_kraken.Server.Routine.Dram.Reads.{block_address_first, block_address_next, passes}
use knockout_kraken.Server.Routine.Dram.Master.{
  Pins, Phase, asking_write, sending, confirming, written, write_address, write_data,
  write_response, send_on, moved, Shown, signal, master, dram_of,
}
use knockout_kraken.Server.Routine.Protocol.{Change, level, Follows}
use knockout_kraken.Server.Routine.Protocol.Handshakes.{
  on, ticked_once, awaited, settled, step, handshake, taken, drive_all, tick_at, At,
}

-- The bytes of blocks.
abbrev pub joined : List (List ℕ) → List ℕ
joined [] = []
joined (block ∷ rest) = block ++ joined rest

abbrev pub WholeBlocks : List (List ℕ) → Type 0
WholeBlocks blocks = All (λ (block : List ℕ). length block ≡ 64) blocks

confirmed :
    (id : ℕ) (p : Pins)
    → p.bid ≡ id
    → p.bresp ≡ 0
    → moved write_response p (confirming id) ≡ written
confirmed id p i r = rw (i, r, (==_iff id id).1 refl)

store_next :
    (memory : ℕ → ℕ) (at : ℕ) (block : List ℕ) (rest : List (List ℕ))
    → length block ≡ 64
    → store_at (store_at memory at block) (at + 64) (joined rest)
      ≡ store_at memory at (joined (block ∷ rest))
store_next memory at block rest whole =
    ap (λ (n : ℕ). store_at (store_at memory at block) (at + n) (joined rest)) (sym whole)
    ∙ sym (store_at-append memory at block (joined rest))

module _ {V W : Type 0} (x : Setting V W) (design : Follows master x dram_of) where
  open design use {pins, state}

  abbrev wready : ℕ → List Change
  wready n = level m_axi_w_wready n ∷ []

  -- The loop behind the wait for a block, and behind the tick of its transfer.
  abbrev next_block : (addr curr left : ℕ) → Piece x (Unit {0})
  next_block addr curr left = do
    poke x m_axi_w_wready 0
    eval x
    write_blocks x addr (curr + 1) left

  abbrev take_block : (addr curr left : ℕ) → Piece x (Unit {0})
  take_block addr curr left = do store_block x addr curr; tick_once x; next_block addr curr left

  write_one :
      (addr id curr : ℕ) (block : List ℕ) (rest : List (List ℕ)) (q : Pins) (s : Shared V W)
      → At master x dram_of design q (sending id block rest) s
      → (s' : Shared V W) × (q' : Pins) × ((left : ℕ)
          → write_blocks x addr curr (suc left) s ≡ write_blocks x addr (curr + 1) left s')
        × At master x dram_of design q' (send_on id rest) s'
        × (dram_of s' ≡ (store_at s.dut.dram (block_address addr curr) block, s.dut.dram_size))
  unfolding write_blocks
  write_one addr id curr block rest q s here =
      let s1 = awaited master x dram_of design (wready 1) s in
      let at1 = settled master x dram_of design (wready 1) q _ s here in
      let t = handshake master x dram_of design write_data _ _ s1 at1 refl in
      let o = t.offered in
      let at = block_address addr curr in
      let data_ = x.ports.get_wide m_axi_w_wdata o.dut.design in
      let bytes : data_ ≡ block =
        subst
          (λ (k : Phase).
            Shown k (λ p. x.ports.get p o.dut.design) (λ p. x.ports.get_wide p o.dut.design))
          (t.held ∙ at1.1) (design.shows o.dut.design) t.up in
      let stored : Shared V W = record o {
        dut = record o.dut { dram = store_at o.dut.dram at data_ };
      } in
      let s2 = (x.tick stored).1 in
      let at2 = taken master x dram_of design write_data _ _ s1 at1 refl t stored refl in
      (
        awaited master x dram_of design (wready 0) s2,
        _,
        λ left.
            on x (wait_until x x.fuel (signal write_data)) (take_block addr curr left) s1 o t.waited
            ∙ on x (tick_once x) (next_block addr curr left) stored s2
                (ticked_once master x dram_of design stored),
        settled master x dram_of design (wready 0) _ _ s2 at2,
        design.tick_view stored
            ∙ ap₂ (λ (d : (ℕ → ℕ) × ℕ) (bs : List ℕ). (store_at d.0 at bs, d.1)) t.view_held bytes,
      )

  no_blocks : (addr curr : ℕ) (s : Shared V W) → write_blocks x addr curr 0 s ≡ some (go tt, s)
  unfolding write_blocks
  no_blocks addr curr s = refl

  write_all :
      (addr id curr : ℕ) (block : List ℕ) (rest : List (List ℕ)) (q : Pins) (s : Shared V W)
      → WholeBlocks (block ∷ rest)
      → At master x dram_of design q (sending id block rest) s
      → (s' : Shared V W) × (q' : Pins) × (write_blocks x addr curr (suc (length rest)) s
          ≡ some (go tt, s'))
        × At master x dram_of design q' (confirming id) s'
        × (dram_of s' ≡ (
          store_at s.dut.dram (block_address addr curr) (joined (block ∷ rest)),
          s.dut.dram_size,
        ))
  write_all addr id curr block [] q s whole here =
      let (s', q', e, at, v) = write_one addr id curr block [] q s here in
      (
        s',
        q',
        e 0 ∙ no_blocks addr (curr + 1) s',
        at,
        v
            ∙ ap
                (λ (bs : List ℕ).
                  (store_at s.dut.dram (block_address addr curr) bs, s.dut.dram_size))
                (sym (append-nil block)),
      )
  write_all addr id curr block (block' ∷ rest) q s whole here =
      let (s1, q1, e1, at1, v1) = write_one addr id curr block (block' ∷ rest) q s here in
      let (s', q', e, at, v) = write_all addr id (curr + 1) block' rest q1 s1 whole.1 at1 in
      let first = store_at s.dut.dram (block_address addr curr) block in
      (
        s',
        q',
        e1 (suc (length rest)) ∙ e,
        at,
        v
            ∙ ap
                (λ (d : (ℕ → ℕ) × ℕ).
                  (store_at d.0 (block_address addr (curr + 1)) (joined (block' ∷ rest)), d.1))
                v1
            ∙ ap (λ (a : ℕ). (store_at first a (joined (block' ∷ rest)), s.dut.dram_size))
                (sym (block_address_next addr curr))
            ∙ ap (λ (m : ℕ → ℕ). (m, s.dut.dram_size))
                (store_next s.dut.dram (block_address addr curr) block (block' ∷ rest) whole.0),
      )

  -- A write behind its response, behind its last block, and behind the transfer of its address.
  abbrev end_write : Piece x (Unit {0})
  end_write = do poke x m_axi_b_bvalid 0; eval x

  abbrev confirm_write : ℕ → Piece x (Unit {0})
  confirm_write id = do
    poke x m_axi_b_bvalid 1
    poke x m_axi_b_bid id
    poke x m_axi_b_bresp 0
    eval x
    wait_until x x.fuel (signal write_response)
    tick_once x
    end_write

  abbrev write_burst : (addr id awlen : ℕ) → Piece x (Unit {0})
  write_burst addr id awlen = do
    poke x m_axi_aw_awready 0
    eval x
    write_blocks x addr 0 (awlen + 1)
    confirm_write id

  -- A write behind the checks of its address, and behind all its checks.
  abbrev accept_write : ℕ → Piece x (Unit {0})
  accept_write addr = do
    id ← peek x m_axi_aw_awid
    awlen ← peek x m_axi_aw_awlen
    poke x m_axi_aw_awready 1
    eval x
    tick_once x
    write_burst addr id awlen

  abbrev sized_write : ℕ → Piece x (Unit {0})
  sized_write addr = do arsize ← peek x m_axi_ar_arsize; check x (arsize == 6); accept_write addr

  abbrev accepting : List Change
  accepting = level m_axi_aw_awready 1 ∷ []

  accepted :
      (addr id : ℕ) (block : List ℕ) (rest : List (List ℕ)) (s : Shared V W)
      → addr < s.dut.dram_size
      → addr % 64 ≡ 0
      → x.ports.get m_axi_ar_arsize s.dut.design ≡ 6
      → Shown
          (asking_write addr id block rest)
          (λ o. x.ports.get o s.dut.design)
          (λ o. x.ports.get_wide o s.dut.design)
      → dram_write x s
        ≡ (tick_once x >> write_burst addr id (length rest))
            (awaited master x dram_of design accepting s)
  unfolding dram_write
  accepted addr id block rest s fits aligned size (valid, at, by, len) =
      let get = λ (o : Output). x.ports.get o s.dut.design in
      let port = get m_axi_aw_awaddr in
      passes x design (ltb port s.dut.dram_size)
        (check x (bit_and port 0x3F == 0) >> sized_write port) s
        (ap (λ (a : ℕ). ltb a s.dut.dram_size) at ∙ lt→ltb addr s.dut.dram_size fits)
      ∙ passes x design (bit_and port 0x3F == 0) (sized_write port) s (
          ap (λ (a : ℕ). bit_and a 0x3F == 0) at
          ∙ (==_iff (bit_and addr 0x3F) 0).1 (bit_and_mask 6 addr ∙ aligned))
      ∙ passes x design (get m_axi_ar_arsize == 6) (accept_write port) s
          (ap (λ (a : ℕ). a == 6) size)
      ∙ ap (λ (a : ℕ). accept_write a s) at
      ∙ ap₂
          (λ (i n : ℕ).
            (tick_once x >> write_burst addr i n) (awaited master x dram_of design accepting s))
          by len

  -- When the design follows the protocol of its memory port, keeps each channel waiting for a
  -- bounded time covered by the fuel, while no tick ends the simulation, and nothing else writes to
  -- the DRAM meanwhile: a write burst of 64-byte blocks that the design has offered, at a multiple
  -- of 64, with all its blocks within the DRAM and with 6 on the size of the read channel, comes to
  -- its end. The DRAM then has the blocks one after the other from the burst's address on and is
  -- otherwise as it was, and the design has got a response with the burst's id and the code 0.
  pub dram_write-written :
      (addr id : ℕ) (block : List ℕ) (rest : List (List ℕ)) (s : Shared V W)
      → addr + 64 * suc (length rest) ≤ s.dut.dram_size
      → addr % 64 ≡ 0
      → WholeBlocks (block ∷ rest)
      → x.ports.get m_axi_ar_arsize s.dut.design ≡ 6
      → state s.dut.design ≡ asking_write addr id block rest
      → (s' : Shared V W) × (dram_write x s ≡ some (go tt, s'))
        × (state s'.dut.design ≡ written)
        × (dram_of s' ≡ (store_at s.dut.dram addr (joined (block ∷ rest)), s.dut.dram_size))
  dram_write-written addr id block rest s fits aligned whole size asks =
      let shown =
        subst
          (λ (k : Phase).
            Shown k (λ o. x.ports.get o s.dut.design) (λ o. x.ports.get_wide o s.dut.design))
          asks (design.shows s.dut.design) in
      let s1 = awaited master x dram_of design accepting s in
      let (p1, k1) = settled master x dram_of design accepting _ _ s (refl, asks) in
      let offered =
        subst
          (λ (k : Phase).
            Shown k (λ o. x.ports.get o s1.dut.design) (λ o. x.ports.get_wide o s1.dut.design))
          k1 (design.shows s1.dut.design) in
      let s2 = (x.tick s1).1 in
      let at2 = tick_at master x dram_of design write_address _ _ s1 (p1, k1) refl offered.0 in
      let down = level m_axi_aw_awready 0 ∷ [] in
      let s3 = awaited master x dram_of design down s2 in
      let (s4, q4, e4, at4, v4) =
        write_all addr id 0 block rest _ s3 whole
          (settled master x dram_of design down _ _ s2 at2) in
      let response = level m_axi_b_bvalid 1 ∷ level m_axi_b_bid id ∷ level m_axi_b_bresp 0 ∷ [] in
      let q5 = drive_all master x dram_of design response q4 in
      let (s5, e5, (p5, k5), v5) =
        step master x dram_of design write_response response q4 _ s4 at4 refl in
      let last = level m_axi_b_bvalid 0 ∷ [] in
      let s6 = awaited master x dram_of design last s5 in
      (
        s6,
        accepted addr id block rest s (omega (arith, fits)) aligned size shown
            ∙ on x (tick_once x) (write_burst addr id (length rest)) s1 s2
                (ticked_once master x dram_of design s1)
            ∙ on x (write_blocks x addr 0 (length rest + 1)) (confirm_write id) s3 s4 (
                ap (λ (n : ℕ). write_blocks x addr 0 n s3)
                  (let g : length rest + 1 ≡ suc (length rest) = omega arith in g)
                ∙ e4)
            ∙ e5 end_write,
        (settled master x dram_of design last _ _ s5 (p5, k5 ∙ confirmed id q5 refl refl)).1,
        v5
            ∙ v4
            ∙ ap
                (λ (d : (ℕ → ℕ) × ℕ).
                  (store_at d.0 (block_address addr 0) (joined (block ∷ rest)), d.1))
                (design.tick_view s1)
            ∙ ap (λ (a : ℕ). (store_at s.dut.dram a (joined (block ∷ rest)), s.dut.dram_size))
                (block_address_first addr aligned),
      )
