-- ===== src/Base/Bits.antt =====
-- `&`, `|` and `^` of fields that do not overlap, as arithmetic, at every width. The digit-wise
-- recursion of all three operations is treated once.
use Prim.Native.Nat.{
  ℕ, zero, suc, ◌+◌, ◌-◌, ◌*◌, ◌/◌, ◌%◌, ◌^◌, ◌≤◌, ◌<◌, min, max, differ, digits, bitwise, bit_and,
  bit_or, bit_xor, bit_and-bitwise, bit_or-bitwise, bit_xor-bitwise,
}
use mathlib.Core.Path.{◌≡◌, refl, sym, ◌∙◌, ap}
use native.Mathlib.Nat.{pow-suc, one-le-pow, div-div-eq-div-mul, mod-one}
use native.Mathlib.Omega.{arith}

module _ (z : ℕ → ℕ) (f : ℕ → ℕ → ℕ) where
  digits_any_fuel : (n m a b : ℕ) → a ≤ n → a ≤ m → digits z f n a b ≡ digits z f m a b
  digits_any_fuel zero zero a b p q = refl
  digits_any_fuel zero (suc m) zero b p q = refl
  digits_any_fuel zero (suc m) (suc a) b p q = absurd (omega arith)
  digits_any_fuel (suc n) zero zero b p q = refl
  digits_any_fuel (suc n) zero (suc a) b p q = absurd (omega arith)
  digits_any_fuel (suc n) (suc m) zero b p q = refl
  digits_any_fuel (suc n) (suc m) (suc a) b p q =
      ap (λ (t : ℕ). t * 2 + f (suc a % 2) (b % 2))
        (digits_any_fuel n m (suc a / 2) (b / 2) (omega arith) (omega arith))

  -- The lowest digit apart, if `z` itself goes by digits.
  bitwise_low :
      ((b : ℕ) → z b ≡ z (b / 2) * 2 + f 0 (b % 2))
      → (a b : ℕ) → bitwise z f a b ≡ bitwise z f (a / 2) (b / 2) * 2 + f (a % 2) (b % 2)
  bitwise_low h zero b = h b
  bitwise_low h (suc a) b =
      ap (λ (t : ℕ). t * 2 + f (suc a % 2) (b % 2))
        (digits_any_fuel a (suc a / 2) (suc a / 2) (b / 2) (omega arith) (omega arith))

bit_and_low : (a b : ℕ) → bit_and a b ≡ bit_and (a / 2) (b / 2) * 2 + min (a % 2) (b % 2)
bit_and_low a b =
    bit_and-bitwise a b
    ∙ bitwise_low (λ b. zero) min (λ b. omega arith) a b
    ∙ ap (λ (t : ℕ). t * 2 + min (a % 2) (b % 2)) (sym (bit_and-bitwise (a / 2) (b / 2)))

bit_or_low : (a b : ℕ) → bit_or a b ≡ bit_or (a / 2) (b / 2) * 2 + max (a % 2) (b % 2)
bit_or_low a b =
    bit_or-bitwise a b
    ∙ bitwise_low (λ b. b) max (λ b. omega arith) a b
    ∙ ap (λ (t : ℕ). t * 2 + max (a % 2) (b % 2)) (sym (bit_or-bitwise (a / 2) (b / 2)))

bit_xor_low : (a b : ℕ) → bit_xor a b ≡ bit_xor (a / 2) (b / 2) * 2 + differ (a % 2) (b % 2)
bit_xor_low a b =
    bit_xor-bitwise a b
    ∙ bitwise_low (λ b. b) differ (λ b. omega arith) a b
    ∙ ap (λ (t : ℕ). t * 2 + differ (a % 2) (b % 2)) (sym (bit_xor-bitwise (a / 2) (b / 2)))

-- `a & 0` and `a ^ 0`, by the digits of `a`.
bit_and-zero_upto : (n a : ℕ) → a ≤ n → bit_and a 0 ≡ 0
bit_and-zero_upto n zero h = refl
bit_and-zero_upto zero (suc a) h = absurd (omega arith)
bit_and-zero_upto (suc n) (suc a) h =
    omega (arith, bit_and_low (suc a) 0, bit_and-zero_upto n (suc a / 2) (omega arith))

digit_differ-zero : (d : ℕ) → differ d 0 ≡ d
digit_differ-zero zero = refl
digit_differ-zero (suc d) = refl

bit_xor-zero_upto : (n a : ℕ) → a ≤ n → bit_xor a 0 ≡ a
bit_xor-zero_upto n zero h = refl
bit_xor-zero_upto zero (suc a) h = absurd (omega arith)
bit_xor-zero_upto (suc n) (suc a) h = omega (
  arith,
  bit_xor_low (suc a) 0,
  digit_differ-zero (suc a % 2),
  bit_xor-zero_upto n (suc a / 2) (omega arith),
)

digit_differ_self : (d : ℕ) → differ d d ≡ 0
digit_differ_self zero = refl
digit_differ_self (suc d) = digit_differ_self d

pow-suc_double : (k : ℕ) → 2 ^ suc k ≡ 2 * 2 ^ k
pow-suc_double k = omega (arith, pow-suc 2 k)

-- The lowest digit of a remainder by an even number.
mod_double : (a p : ℕ) → 0 < p → a % (2 * p) ≡ a / 2 % p * 2 + a % 2
mod_double a p h = grind arith

div_double : (a p : ℕ) → a / (2 * p) ≡ a / 2 / p
div_double a p = sym (div-div-eq-div-mul a 2 p)

-- `a & (2 ^ k - 1)` is the remainder by `2 ^ k`.
pub bit_and_mask : (k a : ℕ) → bit_and a (2 ^ k - 1) ≡ a % 2 ^ k
bit_and_mask zero a = omega (arith, bit_and-zero_upto a a (omega arith))
bit_and_mask (suc k) a = ground (
  arith,
  one-le-pow k 2,
  pow-suc_double k,
  bit_and_low a (2 ^ suc k - 1),
  mod_double a (2 ^ k) (one-le-pow k 2 (omega arith)),
  bit_and_mask k (a / 2),
)

-- `lo | hi << k`, where `lo` has `k` digits, is their sum.
pub bit_or_fields : (k lo hi : ℕ) → lo < 2 ^ k → bit_or lo (hi * 2 ^ k) ≡ lo + hi * 2 ^ k
bit_or_fields zero zero hi h = omega (arith, bit_or-bitwise 0 (hi * 1))
bit_or_fields zero (suc lo) hi h = absurd (omega arith)
bit_or_fields (suc k) lo hi h = ground (
  arith,
  ap (λ (t : ℕ). hi * t) (pow-suc_double k),
  pow-suc_double k,
  bit_or_low lo (hi * 2 ^ suc k),
  bit_or_fields k (lo / 2) hi (omega (arith, pow-suc_double k)),
)

-- `a ^ (a & (2 ^ k - 1))` clears the `k` lowest digits.
pub bit_xor_clear : (k a : ℕ) → bit_xor a (a % 2 ^ k) ≡ a / 2 ^ k * 2 ^ k
bit_xor_clear zero a = rw mod-one (omega (arith, bit_xor-zero_upto a a (omega arith)))
bit_xor_clear (suc k) a = ground (
  arith,
  pow-suc_double k,
  ap (λ (t : ℕ). a / 2 / 2 ^ k * t) (pow-suc_double k),
  bit_xor_low a (a % 2 ^ suc k),
  mod_double a (2 ^ k) (one-le-pow k 2 (omega arith)),
  div_double a (2 ^ k),
  digit_differ_self (a % 2),
  bit_xor_clear k (a / 2),
)
