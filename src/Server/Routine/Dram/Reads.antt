-- ===== src/Server/Routine/Dram/Reads.antt =====
-- A read burst of the design brings it the bytes of the DRAM.
use knockout_kraken.Base.{
  ℕ, zero, suc, ◌+◌, ◌*◌, ◌-◌, ◌%◌, ◌≤◌, ◌<◌, ◌≡◌, refl, sym, ap, ap₂, ◌∙◌, subst, arith, List, [],
  ◌∷◌, ◌++◌, append_assoc, Bool, true, some, if◌then◌else◌, ◌==◌, ltb, bit_and, bit_and_mask,
  segment, segment_blocks, ==_iff, lt→ltb,
}
use knockout_kraken.Server.Ports.{
  Output, m_axi_ar_arready, m_axi_ar_araddr, m_axi_ar_arsize, m_axi_ar_arid, m_axi_ar_arlen,
  m_axi_r_rid, m_axi_r_rresp, m_axi_r_rlast, m_axi_r_rvalid, m_axi_r_rdata,
}
use knockout_kraken.Server.Routine.{
  Setting, Shared, go, Piece, ◌>>=◌, ◌>>◌, poke, peek, eval, check, tick_once,
}
use knockout_kraken.Server.Routine.Dram.{block_address, read_blocks, dram_read}
use knockout_kraken.Server.Routine.Dram.Master.{
  Pins, Phase, asking_read, receiving, received, read_address, read_data, receive_on, moved, Shown,
  master, dram_of,
}
use knockout_kraken.Server.Routine.Protocol.{
  last_mark, mark_last, zero_more, Change, level, wide, Follows,
}
use knockout_kraken.Server.Routine.Protocol.Handshakes.{
  on, ticked_once, awaited, settled, step, drive_all, tick_at, placed, placed_lem, At,
}

pub block_address_next :
    (addr curr : ℕ) → block_address addr curr + 64 ≡ block_address addr (curr + 1)
block_address_next addr curr = omega arith

pub block_address_first : (addr : ℕ) → addr % 64 ≡ 0 → block_address addr 0 ≡ addr
block_address_first addr aligned = omega (arith, aligned)

-- A block with the burst's id and the right mark.
abbrev BlockPins : (id more : ℕ) → List ℕ → Pins → Type 0
BlockPins id more bytes p =
    (p.rid ≡ id) × (p.rresp ≡ 0) × (p.rlast ≡ last_mark more) × (p.rdata ≡ bytes)

good_block :
    (id more : ℕ) (got bytes : List ℕ) (p : Pins)
    → BlockPins id more bytes p
    → moved read_data p (receiving id more got) ≡ receive_on id more (got ++ bytes)
good_block id zero got bytes p (i, r, l, d) = rw (i, r, l, d, (==_iff id id).1 refl)
good_block id (suc more) got bytes p (i, r, l, d) = rw (i, r, l, d, (==_iff id id).1 refl)

module _ {V W : Type 0} (x : Setting V W) (design : Follows master x dram_of) where
  open design use {pins, state}

  -- The ports of a block.
  abbrev block_ports : (id burst_count curr : ℕ) → List ℕ → List Change
  block_ports id burst_count curr bytes =
      level m_axi_r_rid id
      ∷ level m_axi_r_rresp 0
      ∷ wide m_axi_r_rdata bytes
      ∷ level m_axi_r_rlast (if curr == burst_count - 1 then 1 else 0)
      ∷ level m_axi_r_rvalid 1
      ∷ []

  abbrev off : List Change
  off = level m_axi_r_rvalid 0 ∷ []

  -- The loop behind the transfer of a block.
  abbrev next_block : (addr id burst_count curr left : ℕ) → Piece x (Unit {0})
  next_block addr id burst_count curr left = do
    poke x m_axi_r_rvalid 0
    eval x
    read_blocks x addr id burst_count (curr + 1) left

  read_one :
      (addr id len curr more : ℕ) (q : Pins) (got : List ℕ) (s : Shared V W)
      → len ≡ curr + more
      → At master x dram_of design q (receiving id more got) s
      → (s' : Shared V W) × (q' : Pins) × ((left : ℕ)
          → read_blocks x addr id (len + 1) curr (suc left) s
            ≡ read_blocks x addr id (len + 1) (curr + 1) left s')
        × At master x dram_of design q'
            (receive_on id more (got ++ segment s.dut.dram (block_address addr curr) 64))
            s'
        × (dram_of s' ≡ dram_of s)
  unfolding read_blocks
  read_one addr id len curr more q got s last here =
      let bytes = segment s.dut.dram (block_address addr curr) 64 in
      let (s1, e, (hq, hk), v) =
        step master x dram_of design read_data (block_ports id (len + 1) curr bytes) q _ s here
          refl in
      let q1 = drive_all master x dram_of design (block_ports id (len + 1) curr bytes) q in
      let mark : (if curr == len + 1 - 1 then 1 else 0) ≡ last_mark more =
        mark_last curr more (len + 1 - 1) (omega (arith, last)) in
      let taken_in : state s1.dut.design ≡ receive_on id more (got ++ bytes) =
        hk ∙ good_block id more got bytes q1 (refl, refl, mark, refl) in
      (
        awaited master x dram_of design off s1,
        _,
        λ left. e (next_block addr id (len + 1) curr left),
        settled master x dram_of design off _ _ s1 (hq, taken_in),
        v,
      )

  no_blocks :
      (addr id burst_count curr : ℕ) (s : Shared V W)
      → read_blocks x addr id burst_count curr 0 s ≡ some (go tt, s)
  unfolding read_blocks
  no_blocks addr id burst_count curr s = refl

  read_all :
      (addr id len curr more : ℕ) (q : Pins) (got : List ℕ) (s : Shared V W)
      → len ≡ curr + more
      → At master x dram_of design q (receiving id more got) s
      → (s' : Shared V W) × (q' : Pins) × (read_blocks x addr id (len + 1) curr (suc more) s
          ≡ some (go tt, s'))
        × At master x dram_of design q'
            (received (got ++ segment s.dut.dram (block_address addr curr) (64 * suc more)))
            s'
        × (dram_of s' ≡ dram_of s)
  read_all addr id len curr zero q got s last here =
      let (s', q', e, at, v) = read_one addr id len curr zero q got s last here in
      (s', q', e 0 ∙ no_blocks addr id (len + 1) (curr + 1) s', at, v)
  read_all addr id len curr (suc more) q got s last here =
      let (s1, q1, e1, at1, v1) = read_one addr id len curr (suc more) q got s last here in
      let at = block_address addr curr in
      let first = segment s.dut.dram at 64 in
      let (s', q', e, (hq, hk), v) =
        read_all addr id len (curr + 1) more q1 (got ++ first) s1 (omega (arith, last)) at1 in
      (
        s',
        q',
        e1 (suc more) ∙ e,
        (
          hq,
          hk
              ∙ ap
                  (λ (d : (ℕ → ℕ) × ℕ).
                    received (
                      (got ++ first)
                      ++ segment d.0 (block_address addr (curr + 1)) (64 * suc more)))
                  v1
              ∙ ap (λ (a : ℕ). received ((got ++ first) ++ segment s.dut.dram a (64 * suc more)))
                  (sym (block_address_next addr curr))
              ∙ ap received (
                  append_assoc got first (segment s.dut.dram (at + 64) (64 * suc more))
                  ∙ ap (λ (bs : List ℕ). got ++ bs) (segment_blocks s.dut.dram at (suc more))),
        ),
        v ∙ v1,
      )

  -- A read behind the transfer of its address.
  abbrev read_burst : (addr id arlen : ℕ) → Piece x (Unit {0})
  read_burst addr id arlen = do
    poke x m_axi_ar_arready 0
    eval x
    read_blocks x addr id (arlen + 1) 0 (arlen + 1)

  -- A read behind the check of its address, and behind all its checks.
  abbrev accept_read : ℕ → Piece x (Unit {0})
  accept_read addr = do
    id ← peek x m_axi_ar_arid
    arlen ← peek x m_axi_ar_arlen
    poke x m_axi_ar_arready 1
    tick_once x
    read_burst addr id arlen

  abbrev sized_read : ℕ → Piece x (Unit {0})
  sized_read addr = do arsize ← peek x m_axi_ar_arsize; check x (arsize == 6); accept_read addr

  pub passes :
      (b : Bool) (rest : Piece x (Unit {0})) (s : Shared V W)
      → b ≡ true
      → (check x b >> rest) s ≡ rest s
  passes b rest s e = on x (check x b) rest s s (ap (λ (c : Bool). check x c s) e)

  accepted :
      (addr id more : ℕ) (s : Shared V W)
      → addr < s.dut.dram_size
      → addr % 64 ≡ 0
      → Shown
          (asking_read addr id more)
          (λ o. x.ports.get o s.dut.design)
          (λ o. x.ports.get_wide o s.dut.design)
      → dram_read x s
        ≡ (tick_once x >> read_burst addr id more)
            (placed master x dram_of design (level m_axi_ar_arready 1 ∷ []) s)
  unfolding dram_read
  accepted addr id more s fits aligned (valid, at, by, len, size) =
      let get = λ (o : Output). x.ports.get o s.dut.design in
      let port = get m_axi_ar_araddr in
      passes (ltb port s.dut.dram_size) (check x (bit_and port 0x3F == 0) >> sized_read port) s
        (ap (λ (a : ℕ). ltb a s.dut.dram_size) at ∙ lt→ltb addr s.dut.dram_size fits)
      ∙ passes (bit_and port 0x3F == 0) (sized_read port) s (
          ap (λ (a : ℕ). bit_and a 0x3F == 0) at
          ∙ (==_iff (bit_and addr 0x3F) 0).1 (bit_and_mask 6 addr ∙ aligned))
      ∙ passes (get m_axi_ar_arsize == 6) (accept_read port) s (ap (λ (a : ℕ). a == 6) size)
      ∙ ap (λ (a : ℕ). accept_read a s) at
      ∙ ap₂
          (λ (i n : ℕ).
            (tick_once x >> read_burst addr i n)
              (placed master x dram_of design (level m_axi_ar_arready 1 ∷ []) s))
          by len

  -- When the design follows the protocol of its memory port, keeps each channel waiting for a
  -- bounded time covered by the fuel, while no tick ends the simulation, and nothing else writes to
  -- the DRAM meanwhile: a read burst that the design has offered, at a multiple of 64 and with all
  -- its blocks within the DRAM, comes to its end. The design has then received the DRAM's bytes
  -- from its address on, in order, each block with the burst's id and the last block and only that
  -- marked as the last, and the DRAM is as it was.
  pub dram_read-received :
      (addr id more : ℕ) (s : Shared V W)
      → addr + 64 * suc more ≤ s.dut.dram_size
      → addr % 64 ≡ 0
      → state s.dut.design ≡ asking_read addr id more
      → (s' : Shared V W) × (dram_read x s ≡ some (go tt, s'))
        × (state s'.dut.design ≡ received (segment s.dut.dram addr (64 * suc more)))
        × (dram_of s' ≡ dram_of s)
  dram_read-received addr id more s fits aligned asks =
      let shown =
        subst
          (λ (k : Phase).
            Shown k (λ o. x.ports.get o s.dut.design) (λ o. x.ports.get_wide o s.dut.design))
          asks (design.shows s.dut.design) in
      let ready = level m_axi_ar_arready 1 ∷ [] in
      let s1 = placed master x dram_of design ready s in
      let (p1, k1) = placed_lem master x dram_of design ready _ _ s (refl, asks) in
      let offered =
        subst
          (λ (k : Phase).
            Shown k (λ o. x.ports.get o s1.dut.design) (λ o. x.ports.get_wide o s1.dut.design))
          k1 (design.shows s1.dut.design) in
      let s2 = (x.tick s1).1 in
      let at2 = tick_at master x dram_of design read_address _ _ s1 (p1, k1) refl offered.0 in
      let down = level m_axi_ar_arready 0 ∷ [] in
      let s3 = awaited master x dram_of design down s2 in
      let (s', q', e, (hq, hk), v) =
        read_all addr id more 0 more _ [] s3 (zero_more more)
          (settled master x dram_of design down _ _ s2 at2) in
      let v3 : dram_of s3 ≡ dram_of s = design.tick_view s1 in
      (
        s',
        accepted addr id more s (omega (arith, fits)) aligned shown
            ∙ on x (tick_once x) (read_burst addr id more) s1 s2
                (ticked_once master x dram_of design s1)
            ∙ ap (λ (n : ℕ). read_blocks x addr id (more + 1) 0 n s3)
                (let g : more + 1 ≡ suc more = omega arith in g)
            ∙ e,
        hk
            ∙ ap
                (λ (d : (ℕ → ℕ) × ℕ). received (segment d.0 (block_address addr 0) (64 * suc more)))
                v3
            ∙ ap (λ (a : ℕ). received (segment s.dut.dram a (64 * suc more)))
                (block_address_first addr aligned),
        v ∙ v3,
      )
