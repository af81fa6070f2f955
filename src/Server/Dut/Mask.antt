-- ===== src/Server/Dut/Mask.antt =====
-- The address mask of the DRAM.
use knockout_kraken.Base.{
  ℕ, zero, suc, ◌+◌, ◌-◌, ◌*◌, ◌/◌, ◌^◌, ◌≤◌, ◌<◌, ◌≡◌, ap, ◌∙◌, arith, some, bit_and, bit_and_mask,
  lt→ltb,
}
use native.Mathlib.Nat.{pow-suc, one-le-pow, mod-eq_of_lt}
use knockout_kraken.Base.Word.{u64}
use knockout_kraken.Server.Dut.{power2_loop, addr_mask}

le_mul : (a b : ℕ) → 1 ≤ b → a ≤ a * b
le_mul a b h = grind arith

double_pow : (p k : ℕ) → p * 2 * 2 ^ k ≡ p * 2 ^ suc k
double_pow p k = omega (arith, ap (λ (t : ℕ). p * t) (pow-suc 2 k))

no_wrap : (p k : ℕ) → p * 2 * 2 ^ k < 2 ^ 64 → u64 (p * 2) ≡ p * 2
no_wrap p k h =
    mod-eq_of_lt {n = p * 2} {m = 2 ^ 64}
      (omega (arith, le_mul (p * 2) (2 ^ k) (one-le-pow k 2 (omega arith))))

-- With fuel for the halvings the loop ends, and multiplies `p` by a power of two beyond `d`.
power2_loop_lem :
    (fuel n d p : ℕ)
    → n < fuel
    → d < 2 ^ n
    → p * 2 ^ n < 2 ^ 64
    → (k : ℕ) × (power2_loop fuel d p ≡ some (p * 2 ^ k)) × (d < 2 ^ k) × (2 ^ k ≤ 2 ^ n)
unfolding power2_loop
power2_loop_lem zero n d p f h m = absurd (omega arith)
power2_loop_lem (suc fuel) n zero p f h m =
    (0, ap some (let e : p ≡ p * 1 = omega arith in e), omega arith, one-le-pow n 2 (omega arith))
power2_loop_lem (suc fuel) zero (suc d) p f h m = absurd (omega arith)
power2_loop_lem (suc fuel) (suc n) (suc d) p f h m =
    let q = p * 2 in
    let room : q * 2 ^ n < 2 ^ 64 = omega (arith, double_pow p n) in
    let (k, e, above, few) =
      power2_loop_lem fuel n (suc d / 2) q (omega arith) (omega (arith, pow-suc 2 n)) room in
    (
      suc k,
      rw (lt→ltb 0 (suc d) (omega arith), no_wrap p n room) (e ∙ ap some (double_pow p k)),
      omega (arith, pow-suc 2 k),
      omega (arith, pow-suc 2 k, pow-suc 2 n),
    )

-- The mask of a DRAM of fewer than 2 ^ 63 bytes is found, and leaves every address of the DRAM as
-- it is.
pub addr_mask_keeps :
    (dram_size addr : ℕ)
    → dram_size < 2 ^ 63
    → addr < dram_size
    → (mask : ℕ) × (addr_mask dram_size ≡ some mask) × (bit_and addr mask ≡ addr)
unfolding addr_mask
addr_mask_keeps dram_size addr h lt =
    let (k, e, above, few) = power2_loop_lem 65 63 dram_size 1 (omega arith) h (omega arith) in
    (
      u64 (1 * 2 ^ k + 2 ^ 64 - 1),
      rw (e, addr_mask),
      ap (bit_and addr) (
            let m : u64 (1 * 2 ^ k + 2 ^ 64 - 1) ≡ 2 ^ k - 1 =
              omega (arith, one-le-pow k 2 (omega arith)) in
            m)
          ∙ bit_and_mask k addr
          ∙ mod-eq_of_lt {n = addr} {m = 2 ^ k} (omega arith),
    )
