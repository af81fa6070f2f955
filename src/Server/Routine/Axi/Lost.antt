-- ===== src/Server/Routine/Axi/Lost.antt =====
-- A read of the client through the AXI port whose address the design does not take at once.
use knockout_kraken.Base.{ℕ, zero, suc, ◌-◌, ◌/◌, ◌<◌, ◌≡◌, refl, ap, ◌∙◌, subst, arith, [], none}
use knockout_kraken.Wire.{MemoryRequest}
use knockout_kraken.Server.Ports.{s_axi_r_rvalid, s_axi_ar_arready}
use knockout_kraken.Server.Routine.{Setting, Shared, ◌>>=◌, ◌>>◌, wait_until, wait_while, tick_once}
use knockout_kraken.Server.Routine.Axi.{axi_read, take_read, pull_blocks}
use knockout_kraken.Server.Routine.Axi.Slave.{Pins, Ram, idle, read_address, Shown, axi, Rests}
use knockout_kraken.Server.Routine.Axi.Reads.{
  offer_ports, offered_at, taking, take_on, wait_while_down,
}
use knockout_kraken.Server.Routine.Protocol.{Follows}
use knockout_kraken.Server.Routine.Protocol.Handshakes.{
  on, ticked_once, awaited, settled, stalled_at, still_at, At,
}

module _ {V W A : Type 0} (x : Setting V W) (view : Shared V W → A)
    (slave : Follows axi x view) where
  open slave use {pins, state}

  -- Between bursts the design offers no block.
  never_valid :
      (n : ℕ) (q : Pins) (memory : ℕ → ℕ) (s : Shared V W)
      → At axi x view slave q (record { phase = idle; memory = memory }) s
      → q.awvalid ≡ 0
      → q.arvalid ≡ 0
      → wait_until x n s_axi_r_rvalid s ≡ none
  unfolding wait_until
  never_valid zero q memory s here no_write no_read = refl
  never_valid (suc n) q memory s here no_write no_read =
      let low : x.ports.get s_axi_r_rvalid s.dut.design ≡ 0 =
        subst
          (λ (k : Ram).
            Shown k.phase k.memory (λ p. x.ports.get p s.dut.design)
              (λ p. x.ports.get_wide p s.dut.design))
          here.1 (slave.shows s.dut.design) in
      rw low (
        on x (tick_once x) (wait_until x n s_axi_r_rvalid) s (x.tick s).1
          (ticked_once axi x view slave s)
        ∙ never_valid n q memory (x.tick s).1
            (still_at axi x view slave q _ s here (no_write, no_read)) no_write no_read)

  unpulled :
      (byte_size left : ℕ) (s : Shared V W)
      → wait_until x x.fuel s_axi_r_rvalid s ≡ none
      → pull_blocks x byte_size 0 (suc left) [] s ≡ none
  unfolding pull_blocks
  unpulled byte_size left s e = rw (e, ◌>>=◌, ◌>>◌)

  untaken :
      (r : MemoryRequest) (s : Shared V W)
      → pull_blocks x r.byte_size 0 (r.byte_size / 64) [] (awaited axi x view slave taking s) ≡ none
      → take_read x r s ≡ none
  unfolding take_read
  untaken r s e = rw (e, ◌>>=◌)

  from_one : (n more : ℕ) → more < n → n ≡ suc (n - 1)
  from_one n more h = omega arith

  -- Over a design that is a memory behind its AXI port, and between bursts, while no tick ends the
  -- simulation: where the design is not ready for the address as soon as it is offered, a read of
  -- at least 64 bytes never comes to its end, whatever the fuel. The design takes no address and
  -- the routine waits for the first block.
  pub axi_read_lost :
      (r : MemoryRequest) (s : Shared V W) (memory : ℕ → ℕ)
      → 0 < r.byte_size / 64
      → Rests x view slave s memory
      → x.ports.get s_axi_ar_arready (offered_at x view slave r s).dut.design ≡ 0
      → axi_read x r s ≡ none
  unfolding axi_read
  axi_read_lost r s memory blocks rests down =
      let s1 = offered_at x view slave r s in
      let at1 = settled axi x view slave (offer_ports x view slave r s) _ _ s (refl, rests.holds) in
      let s2 = (x.tick s1).1 in
      let at2 = stalled_at axi x view slave read_address _ _ s1 at1 (refl, rests.no_write) down in
      let s3 = awaited axi x view slave taking s2 in
      let stuck : wait_until x x.fuel s_axi_r_rvalid s3 ≡ none =
        never_valid x.fuel _ memory s3 (settled axi x view slave taking _ _ s2 at2) rests.no_write
          refl in
      on x (wait_while x x.fuel s_axi_ar_arready) (take_on x view slave r) s1 s1 (
        ap (λ (n : ℕ). wait_while x n s_axi_ar_arready s1)
          (from_one x.fuel _ (slave.fuel_enough s.dut.design))
        ∙ wait_while_down x view slave (x.fuel - 1) s_axi_ar_arready s1 down)
      ∙ on x (tick_once x) (take_read x r) s1 s2 (ticked_once axi x view slave s1)
      ∙ untaken r s2 (
          ap (λ (n : ℕ). pull_blocks x r.byte_size 0 n [] s3) (from_one (r.byte_size / 64) 0 blocks)
          ∙ unpulled r.byte_size (r.byte_size / 64 - 1) s3 stuck)
