-- ===== src/Server/Routine/Bursts.antt =====
-- The design's bursts to the DRAM: which are refused, and which bytes one can change.
use knockout_kraken.Base.{
  ℕ, zero, suc, ◌+◌, ◌*◌, ◌%◌, ◌≤◌, ◌<◌, ◌≡◌, ◌≢◌, ◌⊎◌, inl, inr, refl, ◌∙◌, arith, Bool, true,
  false, Option, some, none, length, bit_and, if◌then◌else◌, ◌==◌, ltb, le→ltb, ≢→==,
  store_at_outside, Bool-cases,
}
use knockout_kraken.Server.Ports.{
  m_axi_ar_araddr, m_axi_aw_awaddr, m_axi_w_wdata, m_axi_w_wvalid, m_axi_w_wready, Output, Input,
}
use knockout_kraken.Server.Routine.{
  Setting, Shared, Outcome, go, returned, joining, pure, ◌>>=◌, Piece, tick_once, check, fault,
  poke, eval, wait_until,
}
use knockout_kraken.Server.Routine.Dram.{
  block_address, dram_read, dram_write, store_block, write_blocks,
}

module _ {V W : Type 0} (x : Setting V W) where
  open x use {ports, fuel}

  -- The first two checks of a burst.
  refused :
      {A : Type 0} (addr_byte : ℕ) (rest : Piece x A) (s : Shared V W)
      → (s.dut.dram_size ≤ addr_byte) ⊎ (bit_and addr_byte 0x3F ≢ 0)
      → (check x (ltb addr_byte s.dut.dram_size) >>= λ _.
            check x (bit_and addr_byte 0x3F == 0) >>= λ _. rest)
          s
        ≡ some (joining, fault x s)
  refused addr_byte rest s (inl behind) = rw (le→ltb addr_byte s.dut.dram_size behind, ◌>>=◌)
  refused addr_byte rest s (inr odd) = elim (Bool-cases (ltb addr_byte s.dut.dram_size)) [
    | inl t ↦ rw (t, ≢→== (bit_and addr_byte 0x3F) 0 odd, ◌>>=◌)
    | inr f ↦ rw (f, ◌>>=◌)
  ]

  -- A burst whose first address is behind the DRAM, or is no multiple of 64, is refused before its
  -- address is taken: an error is reported, nothing else changes, and the routine stops serving.
  bursts_refused :
      (s : Shared V W)
      → (s.dut.dram_size ≤ ports.get m_axi_ar_araddr s.dut.design)
        ⊎ (bit_and (ports.get m_axi_ar_araddr s.dut.design) 0x3F ≢ 0)
      → (s.dut.dram_size ≤ ports.get m_axi_aw_awaddr s.dut.design)
        ⊎ (bit_and (ports.get m_axi_aw_awaddr s.dut.design) 0x3F ≢ 0)
      → (dram_read x s ≡ some (joining, fault x s)) × (dram_write x s ≡ some (joining, fault x s))
  unfolding dram_read dram_write
  bursts_refused s r w = (
    refused (ports.get m_axi_ar_araddr s.dut.design) _ s r,
    refused (ports.get m_axi_aw_awaddr s.dut.design) _ s w,
  )

  -- Whatever comes of the piece, the bytes below `lo` and from `hi` on stay.
  abbrev Within : ℕ → ℕ → {A : Type 0} → Piece x A → Type 0
  Within lo hi {A = A} m =
      (s s' : Shared V W) (o : Outcome A) (b : ℕ)
      → m s ≡ some (o, s')
      → (b < lo) ⊎ (hi ≤ b)
      → s'.dut.dram b ≡ s.dut.dram b

  bound :
      {A B : Type 0} (v : Option (Outcome A × Shared V W)) (f : A → Piece x B) (s s' : Shared V W)
      (o : Outcome B) (b : ℕ)
      → ((o1 : Outcome A) (s1 : Shared V W) → v ≡ some (o1, s1) → s1.dut.dram b ≡ s.dut.dram b)
      → ((a : A) (s1 : Shared V W) → f a s1 ≡ some (o, s') → s'.dut.dram b ≡ s1.dut.dram b)
      → ((λ (t : Shared V W). v) >>= f) s ≡ some (o, s')
      → s'.dut.dram b ≡ s.dut.dram b
  bound none f s s' o b first then_ h = cc
  bound (some (go a, s1)) f s s' o b first then_ h = then_ a s1 h ∙ first (go a) s1 refl
  bound (some (returned, s1)) f s s' o b first then_ h = ground (arith, first returned s1 refl)
  bound (some (joining, s1)) f s s' o b first then_ h = ground (arith, first joining s1 refl)

  bind-Within :
      (lo hi : ℕ) {A B : Type 0} (m : Piece x A) (f : A → Piece x B)
      → Within lo hi m
      → ((a : A) → Within lo hi (f a))
      → Within lo hi (m >>= f)
  bind-Within lo hi m f hm hf s s' o b h out =
      bound (m s) f s s' o b (λ o1 s1 e. hm s s1 o1 b e out) (λ a s1 e. hf a s1 s' o b e out) h

  poke-Within : (lo hi : ℕ) (i : Input) (n : ℕ) → Within lo hi (poke x i n)
  poke-Within lo hi i n s s' o b h out = ground arith

  eval-Within : (lo hi : ℕ) → Within lo hi (eval x)
  eval-Within lo hi s s' o b h out = ground arith

  -- From here on the threads that run between two ticks leave the DRAM alone, and the data port has
  -- 64 bytes.
  module _ (quiet : (s : Shared V W) (b : ℕ) → (x.tick s).1.dut.dram b ≡ s.dut.dram b)
      (wide : (v : V) → length (ports.get_wide m_axi_w_wdata v) ≡ 64) where
    if-Within :
        (lo hi : ℕ) {A : Type 0} (c : Bool) (m k : Piece x A)
        → Within lo hi m
        → Within lo hi k
        → Within lo hi (if c then m else k)
    if-Within lo hi true m k hm hk = hm
    if-Within lo hi false m k hm hk = hk

    tick-Within : (lo hi : ℕ) → Within lo hi (tick_once x)
    tick-Within lo hi s s' o b h out = ground (arith, quiet s b)

    wait-Within : (lo hi n : ℕ) (port : Output) → Within lo hi (wait_until x n port)
    unfolding wait_until
    wait-Within lo hi zero port = λ s s' o b h out. cc
    wait-Within lo hi (suc n) port =
        let more =
          bind-Within lo hi (tick_once x) (λ _. wait_until x n port) (tick-Within lo hi)
            (λ _. wait-Within lo hi n port) in
        λ s.
          if-Within lo hi (ports.get port s.dut.design == 0) _ (pure tt) more
            (λ s s' o b h out. ground arith) s

    store-Within :
        (lo hi addr curr : ℕ)
        → lo ≤ block_address addr curr
        → block_address addr curr + 64 ≤ hi
        → Within lo hi (store_block x addr curr)
    store-Within lo hi addr curr l u s s' o b h out = ground (
      arith,
      wide s.dut.design,
      store_at_outside s.dut.dram (block_address addr curr)
          (ports.get_wide m_axi_w_wdata s.dut.design) b (grind (arith, wide s.dut.design)),
    )

    blocks-Within :
        (lo hi addr curr left : ℕ)
        → lo ≤ block_address addr curr
        → block_address addr curr + 64 * left ≤ hi
        → Within lo hi (write_blocks x addr curr left)
    unfolding write_blocks
    blocks-Within lo hi addr curr zero l u = λ s s' o b h out. ground arith
    blocks-Within lo hi addr curr (suc left) l u =
        bind-Within lo hi _ _ (poke-Within lo hi m_axi_w_wready 1) λ _.
          bind-Within lo hi _ _ (eval-Within lo hi) λ _.
            bind-Within lo hi _ _ (wait-Within lo hi fuel m_axi_w_wvalid) λ _.
              bind-Within lo hi _ _ (store-Within lo hi addr curr l (omega arith)) λ _.
                bind-Within lo hi _ _ (tick-Within lo hi) λ _.
                  bind-Within lo hi _ _ (poke-Within lo hi m_axi_w_wready 0) λ _.
                    bind-Within lo hi _ _ (eval-Within lo hi)
                      λ _. blocks-Within lo hi addr (curr + 1) left (omega arith) (omega arith)

    -- When nothing else writes to the DRAM meanwhile, a burst of `count` blocks to a word address
    -- changes no byte before its address and none from 64 times `count` bytes behind it on, whether
    -- it comes to its end, is ended by the main thread, or stops.
    pub write_blocks_within :
        (addr count : ℕ) (s s' : Shared V W) (o : Outcome (Unit {0})) (b : ℕ)
        → addr % 4 ≡ 0
        → write_blocks x addr 0 count s ≡ some (o, s')
        → (b < addr) ⊎ (addr + 64 * count ≤ b)
        → s'.dut.dram b ≡ s.dut.dram b
    write_blocks_within addr count s s' o b word h out =
        blocks-Within addr (addr + 64 * count) addr 0 count (omega arith) (omega arith) s s' o b h
          out
