-- ===== src/Client/Interface/Registers.antt =====
-- Thread states over a device whose transplant registers keep what is written to them.
use knockout_kraken.Base.{
  ℕ, zero, suc, ◌+◌, ◌*◌, ◌^◌, ◌≤◌, ◌<◌, ◌≡◌, ◌≢◌, refl, ap, ap₂, arith, bit_or, List, [], ◌∷◌,
  ◌==◌, if◌then◌else◌, some, length, All, bit_or_fields, ◌⊎◌, inl, inr, dec_lt, ◌∙◌,
}
use native.Mathlib.Nat.{mod-eq_of_lt}
use knockout_kraken.Base.Word.{u32, u64, ◌>>>◌, ◌<<<◌}
use knockout_kraken.Base.Monad.{ok, M, ◌>>=◌, ◌>>◌}
use knockout_kraken.Client.Fpga.{Fpga}
use knockout_kraken.Client.Interface.{
  stored_first, get_regs, push_regs, transplant_get_state, transplant_push_state, base_offset,
  axi_transplant_base,
}

-- What is asked of the device: the words from `lo` up to `hi` are plain storage. `Holds w c` is that
-- they are those of `c`.
pub record RegisterFile {W : Type 0} (fpga : Fpga W) (lo hi : ℕ) : Type 1 where
  pub Holds : W → (ℕ → ℕ) → Type 0
  pub bounded : (w : W) (c : ℕ → ℕ) (a : ℕ) → Holds w c → c a < 2 ^ 32
  pub reads :
      (a : ℕ) (w : W) (c : ℕ → ℕ)
      → Holds w c
      → lo ≤ a
      → a < hi
      → (w' : W) × (fpga.read_axil a w ≡ some (ok (c a), w')) × Holds w' c
  pub writes :
      (a v : ℕ) (w : W) (c : ℕ → ℕ)
      → Holds w c
      → lo ≤ a
      → a < hi
      → v < 2 ^ 32
      → (w' : W) × (c' : ℕ → ℕ) × (fpga.write_axil a v w ≡ some (ok tt, w'))
        × Holds w' c'
        × ((b : ℕ) → c' b ≡ (if a == b then v else c b))

-- The registers that the words from `base` on stand for.
abbrev pub values : (ℕ → ℕ) → ℕ → ℕ → ℕ → List ℕ
values c base reg zero = []
values c base reg (suc n) =
    (c (base + 2 * reg * 4) + c (base + (2 * reg + 1) * 4) * 2 ^ 32) ∷ values c base (suc reg) n

values_local :
    (c d : ℕ → ℕ) (base reg n : ℕ)
    → ((b : ℕ) → base + 8 * reg ≤ b → b < base + 8 * (reg + n) → c b ≡ d b)
    → values c base reg n ≡ values d base reg n
values_local c d base reg zero h = refl
values_local c d base reg (suc n) h =
    ap₂ ◌∷◌
      (ap₂ (λ (x y : ℕ). x + y * 2 ^ 32) (h _ (omega arith) (omega arith))
        (h _ (omega arith) (omega arith)))
      (values_local c d base (suc reg) n (λ b p q. h b (omega arith) (omega arith)))

stored_first_ok :
    {W : Type 0} (v : ℕ) (m : M W (List ℕ)) (w : W) {w' : W} {vs : List ℕ}
    → m w ≡ some (ok vs, w')
    → stored_first v m w ≡ some (ok (v ∷ vs), w')
stored_first_ok v m w e = rw (e, stored_first)

-- `reg_val1 | ((uint64_t)reg_val2) << 32`.
joined : (x y : ℕ) → x < 2 ^ 32 → y < 2 ^ 32 → bit_or x (u64 (y <<< 32)) ≡ x + y * 2 ^ 32
joined x y hx hy =
    rw (mod-eq_of_lt {n = y * 2 ^ 32} {m = 2 ^ 64} (omega arith)) (bit_or_fields 32 x y hx)

module _ {W : Type 0} (fpga : Fpga W) {lo hi : ℕ} (rf : RegisterFile fpga lo hi) where
  open rf use {Holds, bounded, reads, writes}

  read_here :
      (a : ℕ) (w : W) (c : ℕ → ℕ)
      → Holds w c
      → lo ≤ a
      → a < hi
      → hi ≤ 2 ^ 32
      → (w' : W) × (fpga.read_axil (u32 a) w ≡ some (ok (c a), w')) × Holds w' c
  read_here a w c here l h m =
      let (w', e, there) = reads a w c here l h in
      (w', rw (mod-eq_of_lt {n = a} {m = 2 ^ 32} (omega arith)) e, there)

  write_here :
      (a v : ℕ) (w : W) (c : ℕ → ℕ)
      → Holds w c
      → lo ≤ a
      → a < hi
      → hi ≤ 2 ^ 32
      → v < 2 ^ 32
      → (w' : W) × (c' : ℕ → ℕ) × (fpga.write_axil (u32 a) v w ≡ some (ok tt, w'))
        × Holds w' c'
        × ((b : ℕ) → c' b ≡ (if a == b then v else c b))
  write_here a v w c here l h m q =
      let (w', c', e, there, cells) = writes a v w c here l h q in
      (w', c', rw (mod-eq_of_lt {n = a} {m = 2 ^ 32} (omega arith)) e, there, cells)

  get_regs_lem :
      (base reg n : ℕ) (w : W) (c : ℕ → ℕ)
      → Holds w c
      → lo ≤ base
      → base + 8 * (reg + n) ≤ hi
      → hi ≤ 2 ^ 32
      → (w' : W) × (get_regs fpga base reg n w ≡ some (ok (values c base reg n), w')) × Holds w' c
  unfolding get_regs
  get_regs_lem base reg zero w c here l h m = (w, refl, here)
  get_regs_lem base reg (suc n) w c here l h m =
      let a1 = base + 2 * reg * 4 in
      let a2 = base + (2 * reg + 1) * 4 in
      let (w1, e1, here1) = read_here a1 w c here (omega arith) (omega arith) m in
      let (w2, e2, here2) = read_here a2 w1 c here1 (omega arith) (omega arith) m in
      let (w3, e3, here3) = get_regs_lem base (suc reg) n w2 c here2 l (omega arith) m in
      (
        w3,
        rw (e1, e2, ◌>>=◌, joined (c a1) (c a2) (bounded w c a1 here) (bounded w c a2 here))
            (stored_first_ok _ (get_regs fpga base (suc reg) n) w2 e3),
        here3,
      )

  -- The cells after a push: the registers pushed, and elsewhere what was there.
  record Pushed (base reg : ℕ) (xs : List ℕ) (w : W) (c : ℕ → ℕ) (w' : W) (c' : ℕ → ℕ)
      : Type 0 where
    returned : push_regs fpga base reg xs w ≡ some (ok tt, w')
    holds : Holds w' c'
    stored : values c' base reg (length xs) ≡ xs
    frame : (b : ℕ) → (b < base + 8 * reg) ⊎ (base + 8 * (reg + length xs) ≤ b) → c' b ≡ c b

  push_regs_lem :
      (base reg : ℕ) (xs : List ℕ) (w : W) (c : ℕ → ℕ)
      → Holds w c
      → lo ≤ base
      → base + 8 * (reg + length xs) ≤ hi
      → hi ≤ 2 ^ 32
      → All (λ x. x < 2 ^ 64) xs
      → (w' : W) × (c' : ℕ → ℕ) × Pushed base reg xs w c w' c'
  unfolding push_regs
  push_regs_lem base reg [] w c here l h m small =
      (w, c, record { returned = refl; holds = here; stored = refl; frame = λ b _. refl })
  push_regs_lem base reg (x ∷ xs) w c here l h m small =
      let a1 = base + 2 * reg * 4 in
      let a2 = base + (2 * reg + 1) * 4 in
      let (w1, c1, e1, here1, d1) =
        write_here a1 (u32 x) w c here (omega arith) (omega arith) m (omega arith) in
      let (w2, c2, e2, here2, d2) =
        write_here a2 (u32 (x >>> 32)) w1 c1 here1 (omega arith) (omega arith) m (omega arith) in
      let (w3, c3, p) = push_regs_lem base (suc reg) xs w2 c2 here2 l (omega arith) m small.1 in
      (
        w3,
        c3,
        record {
          returned = rw (e1, e2, ◌>>=◌, ◌>>◌) p.returned;
          holds = p.holds;
          stored =
              ap₂ ◌∷◌
                (ground (
                  arith,
                  small.0,
                  p.frame a1 (inl (omega arith)),
                  p.frame a2 (inl (omega arith)),
                  d2 a1,
                  d2 a2,
                  d1 a1,
                ))
                p.stored;
          frame = λ b out. ground (arith, p.frame b, d2 b, d1 b);
        },
      )

  -- The storage reaches over the 128 words of the thread's window, which hold `n` registers.
  abbrev pub Window : ℕ → ℕ → Type 0
  Window thread_id n =
      (lo ≤ axi_transplant_base fpga)
      × (axi_transplant_base fpga + 512 * (thread_id + 1) ≤ hi)
      × (hi ≤ 2 ^ 32)
      × (n ≤ 64)

  -- Then no address wraps.
  base_offset_lem :
      (thread_id n : ℕ)
      → Window thread_id n
      → base_offset fpga thread_id ≡ axi_transplant_base fpga + 512 * thread_id
  base_offset_lem thread_id n h = omega arith

  -- Over a device that stores the words of the thread's window, which lies below 2^32: a state of
  -- at most 64 registers of 64 bits that is pushed for a thread is got back whole, and both calls
  -- return 0.
  pub get_state-push_state :
      (thread_id : ℕ) (state : List ℕ) (w : W) (c : ℕ → ℕ)
      → Holds w c
      → Window thread_id (length state)
      → All (λ x. x < 2 ^ 64) state
      → (w' w'' : W) × (transplant_push_state fpga thread_id state w ≡ some (ok tt, w'))
        × (transplant_get_state fpga thread_id (length state) w' ≡ some (ok state, w''))
  unfolding transplant_push_state transplant_get_state
  get_state-push_state thread_id state w c here fits small =
      let e = base_offset_lem thread_id (length state) fits in
      let base = base_offset fpga thread_id in
      let (w', c', p) =
        push_regs_lem base 0 state w c here (omega (arith, e)) (omega (arith, e)) fits.2 small in
      let (w'', g, there) =
        get_regs_lem base 0 (length state) w' c' p.holds (omega (arith, e)) (omega (arith, e))
          fits.2 in
      (w', w'', p.returned, g ∙ ap (λ (xs : List ℕ). some (ok xs, w'')) p.stored)

  below_or_behind :
      (thread_id other b k n : ℕ)
      → Window thread_id k
      → Window other n
      → thread_id ≢ other
      → base_offset fpga other + 8 * 0 ≤ b
      → b < base_offset fpga other + 8 * (0 + n)
      → (b < base_offset fpga thread_id + 8 * 0) ⊎ (base_offset fpga thread_id + 8 * (0 + k) ≤ b)
  below_or_behind thread_id other b k n fits fits' apart q r = elim (dec_lt other thread_id) [
    | yes h ↦ inl (omega (arith, base_offset_lem thread_id k fits, base_offset_lem other n fits'))
    | no h ↦ inr (omega (arith, base_offset_lem thread_id k fits, base_offset_lem other n fits'))
  ]

  -- Over a device that stores the words of the windows of two threads: pushing a state of at most
  -- 64 registers of 64 bits for one leaves the registers of the other as they were, so that getting
  -- them, at most 64, gives after the push what it gave before.
  pub get_state-push_state_other :
      (thread_id other n : ℕ) (state : List ℕ) (w : W) (c : ℕ → ℕ)
      → Holds w c
      → Window thread_id (length state)
      → Window other n
      → thread_id ≢ other
      → All (λ x. x < 2 ^ 64) state
      → (xs : List ℕ) × (w1 w2 w3 : W) × (transplant_get_state fpga other n w ≡ some (ok xs, w1))
        × (transplant_push_state fpga thread_id state w1 ≡ some (ok tt, w2))
        × (transplant_get_state fpga other n w2 ≡ some (ok xs, w3))
  unfolding transplant_push_state transplant_get_state
  get_state-push_state_other thread_id other n state w c here fits fits' apart small =
      let base = base_offset fpga thread_id in
      let base' = base_offset fpga other in
      let e = base_offset_lem thread_id (length state) fits in
      let e' = base_offset_lem other n fits' in
      let (w1, g1, here1) =
        get_regs_lem base' 0 n w c here (omega (arith, e')) (omega (arith, e')) fits.2 in
      let (w2, c2, p) =
        push_regs_lem base 0 state w1 c here1 (omega (arith, e)) (omega (arith, e)) fits.2 small in
      let (w3, g3, here3) =
        get_regs_lem base' 0 n w2 c2 p.holds (omega (arith, e')) (omega (arith, e')) fits.2 in
      let same : values c2 base' 0 n ≡ values c base' 0 n = values_local c2 c base' 0 n λ b q r.
        p.frame b (below_or_behind thread_id other b (length state) n fits fits' apart q r) in
      (
        values c base' 0 n,
        w1,
        w2,
        w3,
        g1,
        p.returned,
        g3 ∙ ap (λ (xs : List ℕ). some (ok xs, w3)) same,
      )
