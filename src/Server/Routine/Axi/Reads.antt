-- ===== src/Server/Routine/Axi/Reads.antt =====
-- A read of the client through the AXI port: one burst where the design takes its address at once, and
-- none where it does not.
use knockout_kraken.Base.{
  ℕ, zero, suc, ◌+◌, ◌-◌, ◌*◌, ◌/◌, ◌%◌, ◌≤◌, ◌<◌, ◌≡◌, ◌≢◌, refl, ap, ◌∙◌, subst, arith, List, [],
  ◌∷◌, ◌++◌, append_assoc, Bool, true, false, some, if◌then◌else◌, ◌==◌, ≢→==, segment,
  segment_blocks,
}
use knockout_kraken.Wire.{MemoryRequest}
use knockout_kraken.Server.Ports.{
  Output, s_axi_r_rdata, s_axi_r_rlast, s_axi_ar_arready, s_axi_ar_araddr, s_axi_ar_arlen,
  s_axi_ar_arburst, s_axi_ar_arsize, s_axi_ar_arvalid, s_axi_r_rready,
}
use knockout_kraken.Server.Routine.{
  Setting, Shared, go, Piece, ◌>>=◌, ◌>>◌, wait_until, wait_while, must_reply, poke, peek,
  peek_wide, eval, check, tick_once,
}
use knockout_kraken.Server.Routine.Axi.{axi_read, take_read, pull_blocks, axi_address, axi_len}
use knockout_kraken.Server.Routine.Axi.Slave.{
  Pins, idle, reading, Ram, read_address, read_data, signal, read_on, Shown, axi, Rests, rested,
}
use knockout_kraken.Server.Routine.Axi.Writes.{axi_len_lem}
use knockout_kraken.Server.Routine.Protocol.{last_mark, zero_more, Change, level, Follows}
use knockout_kraken.Server.Routine.Protocol.Handshakes.{
  on, ticked_once, awaited, view-awaited, settled, handshake, taken, tick_at, still_at, At,
}

-- The ports behind the wait for an address.
abbrev pub taking : List Change
taking = level s_axi_ar_arvalid 0 ∷ level s_axi_r_rready 1 ∷ []

module _ {V W A : Type 0} (x : Setting V W) (view : Shared V W → A)
    (slave : Follows axi x view) where
  open slave use {pins, state}

  -- What the code finds wrong with the mark of a block.
  abbrev mark_fits : (byte_size curr rlast : ℕ) → Bool
  mark_fits byte_size curr rlast =
      if curr == axi_len x byte_size then (if rlast == 0 then false else true) else true

  mark_fits_lem :
      (byte_size curr more rlast : ℕ)
      → axi_len x byte_size ≡ curr + more
      → rlast ≡ last_mark more
      → mark_fits byte_size curr rlast ≡ true
  mark_fits_lem byte_size curr zero rlast len last = rw last (ground (arith, len))
  mark_fits_lem byte_size curr (suc more) rlast len last = rw last (ground (arith, len))

  -- The loop of a read behind the wait for a block.
  abbrev take_block : (byte_size curr left : ℕ) → List ℕ → Piece x (List ℕ)
  take_block byte_size curr left got = do
    block ← peek_wide x s_axi_r_rdata
    rlast ← peek x s_axi_r_rlast
    check x (mark_fits byte_size curr rlast)
    tick_once x
    pull_blocks x byte_size (curr + 1) left (got ++ block)

  pull_one :
      (byte_size curr more addr : ℕ) (q : Pins) (memory : ℕ → ℕ) (got : List ℕ) (s : Shared V W)
      → axi_len x byte_size ≡ curr + more
      → q.rready ≡ 1
      → At axi x view slave q (record { phase = reading addr more; memory = memory }) s
      → (s' : Shared V W) × ((left : ℕ)
          → pull_blocks x byte_size curr (suc left) got s
            ≡ pull_blocks x byte_size (curr + 1) left (got ++ segment memory addr 64) s')
        × At axi x view slave q (record { phase = read_on addr more; memory = memory }) s'
        × (view s' ≡ view s)
  unfolding pull_blocks
  pull_one byte_size curr more addr q memory got s len ready here =
      let t = handshake axi x view slave read_data q _ s here ready in
      let o = t.offered in
      let (down, block) =
        subst
          (λ (k : Ram).
            Shown k.phase k.memory (λ p. x.ports.get p o.dut.design)
              (λ p. x.ports.get_wide p o.dut.design))
          (t.held ∙ here.1) (slave.shows o.dut.design) in
      let (bytes, last) = block t.up in
      let rlast = x.ports.get s_axi_r_rlast o.dut.design in
      let data_ = x.ports.get_wide s_axi_r_rdata o.dut.design in
      let s' = (x.tick o).1 in
      (
        s',
        λ left.
            on x (wait_until x x.fuel (signal read_data)) (take_block byte_size curr left got) s o
              t.waited
            ∙ on x (check x (mark_fits byte_size curr rlast))
                (tick_once x >> pull_blocks x byte_size (curr + 1) left (got ++ data_)) o o
                (ap (λ (b : Bool). check x b o) (mark_fits_lem byte_size curr more rlast len last))
            ∙ on x (tick_once x) (pull_blocks x byte_size (curr + 1) left (got ++ data_)) o s'
                (ticked_once axi x view slave o)
            ∙ ap (λ (bs : List ℕ). pull_blocks x byte_size (curr + 1) left (got ++ bs) s') bytes,
        taken axi x view slave read_data q _ s here ready t o refl,
        slave.tick_view o ∙ t.view_held,
      )

  no_blocks :
      (byte_size curr : ℕ) (got : List ℕ) (s : Shared V W)
      → pull_blocks x byte_size curr 0 got s ≡ some (go got, s)
  unfolding pull_blocks
  no_blocks byte_size curr got s = refl

  pull_all :
      (byte_size curr more addr : ℕ) (q : Pins) (memory : ℕ → ℕ) (got : List ℕ) (s : Shared V W)
      → axi_len x byte_size ≡ curr + more
      → q.rready ≡ 1
      → At axi x view slave q (record { phase = reading addr more; memory = memory }) s
      → (s' : Shared V W) × (pull_blocks x byte_size curr (suc more) got s
          ≡ some (go (got ++ segment memory addr (64 * suc more)), s'))
        × At axi x view slave q (record { phase = idle; memory = memory }) s'
        × (view s' ≡ view s)
  pull_all byte_size curr zero addr q memory got s len ready here =
      let (s', e, at, v) = pull_one byte_size curr zero addr q memory got s len ready here in
      (s', e 0 ∙ no_blocks byte_size (curr + 1) (got ++ segment memory addr 64) s', at, v)
  pull_all byte_size curr (suc more) addr q memory got s len ready here =
      let (s1, e1, at1, v1) =
        pull_one byte_size curr (suc more) addr q memory got s len ready here in
      let (s', e, at, v) =
        pull_all byte_size (curr + 1) more (addr + 64) q memory (got ++ segment memory addr 64) s1
          (omega (arith, len)) ready at1 in
      (
        s',
        e1 (suc more)
            ∙ e
            ∙ ap (λ (bs : List ℕ). some (go bs, s'))
                (append_assoc got (segment memory addr 64)
                    (segment memory (addr + 64) (64 * suc more))
                  ∙ ap (λ (bs : List ℕ). got ++ bs) (segment_blocks memory addr (suc more))),
        at,
        v ∙ v1,
      )

  -- The wait of a read for its address: over at once where the signal is down, and behind one tick
  -- where the tick takes it down.
  pub wait_while_down :
      (n : ℕ) (o : Output) (s : Shared V W)
      → x.ports.get o s.dut.design ≡ 0
      → wait_while x (suc n) o s ≡ some (go tt, s)
  unfolding wait_while
  wait_while_down n o s down = rw down refl

  wait_while_falls :
      (n : ℕ) (o : Output) (s : Shared V W)
      → x.ports.get o s.dut.design ≢ 0
      → x.ports.get o (x.tick s).1.dut.design ≡ 0
      → wait_while x (suc (suc n)) o s ≡ some (go tt, (x.tick s).1)
  unfolding wait_while
  wait_while_falls n o s up down = rw (≢→== (x.ports.get o s.dut.design) 0 up) (
      on x (tick_once x) (wait_while x (suc n) o) s (x.tick s).1 (ticked_once axi x view slave s)
      ∙ wait_while_down n o (x.tick s).1 down)

  -- The ports at the offer of an address.
  abbrev pub offer_ports : MemoryRequest → Shared V W → List Change
  offer_ports r s =
      level s_axi_ar_araddr (axi_address x s.dut r.addr)
      ∷ level s_axi_ar_arlen (axi_len x r.byte_size)
      ∷ level s_axi_ar_arburst 1
      ∷ level s_axi_ar_arsize 6
      ∷ level s_axi_ar_arvalid 1
      ∷ []

  abbrev pub offered_at : MemoryRequest → Shared V W → Shared V W
  offered_at r s = awaited axi x view slave (offer_ports r s) s

  -- A read behind the wait for its address, and behind its last block.
  abbrev pub take_on : MemoryRequest → Piece x (Unit {0})
  take_on r = do tick_once x; take_read x r

  abbrev answer_read : List ℕ → Piece x (Unit {0})
  answer_read bytes = do poke x s_axi_r_rready 0; eval x; must_reply x bytes

  from_two : (n : ℕ) → 2 ≤ n → n ≡ suc (suc (n - 2))
  from_two n h = omega arith

  pulled :
      (r : MemoryRequest) (bytes : List ℕ) (s s' : Shared V W)
      → pull_blocks x r.byte_size 0 (r.byte_size / 64) [] (awaited axi x view slave taking s)
        ≡ some (go bytes, s')
      → take_read x r s ≡ answer_read bytes s'
  unfolding take_read
  pulled r bytes s s' e = rw (e, ◌>>=◌)

  axi_read-burst :
      (r : MemoryRequest) (more : ℕ) (s : Shared V W) (memory : ℕ → ℕ)
      → 64 * suc more ≡ r.byte_size
      → r.byte_size / 64 ≡ suc more
      → axi_len x r.byte_size ≡ more
      → axi_len x r.byte_size % 256 ≡ more
      → 2 ≤ x.fuel
      → Rests x view slave s memory
      → x.ports.get s_axi_ar_arready (offered_at r s).dut.design ≢ 0
      → (s' : Shared V W) × (axi_read x r s
          ≡ must_reply x (segment memory (axi_address x s.dut r.addr) r.byte_size) s')
        × Rests x view slave s' memory
        × (view s' ≡ view s)
  unfolding axi_read
  axi_read-burst r more s memory size count len port_len two rests up =
      let addr = axi_address x s.dut r.addr in
      let s1 = offered_at r s in
      let at1 = settled axi x view slave (offer_ports r s) _ _ s (refl, rests.holds) in
      let s2 = (x.tick s1).1 in
      let (p2, k2) = tick_at axi x view slave read_address _ _ s1 at1 (refl, rests.no_write) up in
      let held : state s2.dut.design ≡ record { phase = reading addr more; memory = memory } =
        k2 ∙ ap (λ (n : ℕ). record { phase = reading addr n; memory = memory }) port_len in
      let (down, block) =
        subst
          (λ (k : Ram).
            Shown k.phase k.memory (λ p. x.ports.get p s2.dut.design)
              (λ p. x.ports.get_wide p s2.dut.design))
          held (slave.shows s2.dut.design) in
      let s3 = (x.tick s2).1 in
      let at3 = still_at axi x view slave _ _ s2 (p2, held) rests.no_ready in
      let s4 = awaited axi x view slave taking s3 in
      let (s5, e5, at5, v5) =
        pull_all r.byte_size 0 more addr _ memory [] s4 (len ∙ zero_more more) refl
          (settled axi x view slave taking _ _ s3 at3) in
      let last = level s_axi_r_rready 0 ∷ [] in
      let s6 = awaited axi x view slave last s5 in
      let bytes = segment memory addr (64 * suc more) in
      (
        s6,
        on x (wait_while x x.fuel s_axi_ar_arready) (take_on r) s1 s2 (
              ap (λ (n : ℕ). wait_while x n s_axi_ar_arready s1) (from_two x.fuel two)
              ∙ wait_while_falls (x.fuel - 2) s_axi_ar_arready s1 up down)
            ∙ on x (tick_once x) (take_read x r) s2 s3 (ticked_once axi x view slave s2)
            ∙ pulled r bytes s3 s5 (ap (λ (n : ℕ). pull_blocks x r.byte_size 0 n [] s4) count ∙ e5)
            ∙ ap (λ (n : ℕ). answer_read (segment memory addr n) s5) size,
        rested x view slave _ s6 memory (settled axi x view slave last _ _ s5 at5) rests.no_write
            refl refl,
        view-awaited axi x view slave last s5
            ∙ v5
            ∙ view-awaited axi x view slave taking s3
            ∙ slave.tick_view s2
            ∙ slave.tick_view s1
            ∙ view-awaited axi x view slave (offer_ports r s) s,
      )

  -- Over a design that is a memory behind its AXI port, which keeps each channel waiting for a bounded
  -- time covered by the fuel, which is at least two, which is not ready for another address before a
  -- read burst is over, and which is between bursts: where the design is ready for the address as soon
  -- as it is offered, and no tick ends the simulation, a read of a positive multiple of 64 bytes, at
  -- most 16384, is one burst. The routine replies with the memory's bytes from the request's address
  -- less the base address on, the memory is as it was, the port is between bursts again, and what
  -- ticks leave alone is as it was.
  pub axi_read-Rests :
      (r : MemoryRequest) (s : Shared V W) (memory : ℕ → ℕ)
      → r.byte_size % 64 ≡ 0
      → 0 < r.byte_size
      → r.byte_size ≤ 16384
      → 2 ≤ x.fuel
      → Rests x view slave s memory
      → x.ports.get s_axi_ar_arready (offered_at r s).dut.design ≢ 0
      → (s' : Shared V W) × (axi_read x r s
          ≡ must_reply x (segment memory (axi_address x s.dut r.addr) r.byte_size) s')
        × Rests x view slave s' memory
        × (view s' ≡ view s)
  axi_read-Rests r s memory whole some_bytes small two rests up =
      let more = r.byte_size / 64 - 1 in
      let len : axi_len x r.byte_size ≡ more =
        axi_len_lem x view slave r.byte_size whole some_bytes small in
      axi_read-burst r more s memory (omega (arith, whole)) (omega (arith, whole)) len
        (omega (arith, len)) two rests up
