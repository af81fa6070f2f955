-- ===== src/Base/Bytes.antt =====
-- Little-endian bytes of a number, as a struct lies in memory.
use Prim.Native.Nat.{ℕ, zero, suc, ◌+◌, ◌*◌, ◌/◌, ◌%◌, ◌^◌, ◌≤◌, ◌<◌}
use mathlib.Core.Path.{◌≡◌, refl, sym, ap, ap₂, ◌∙◌}
use mathlib.Core.Logic.{◌⊎◌, inl}
use mathlib.Core.List.{List, [], ◌∷◌, ◌++◌}
use native.Mathlib.Nat.{pow-suc}
use native.Mathlib.Omega.{arith}
use knockout_kraken.Base.Lists.{length}
use knockout_kraken.Base.Tests.{◌==◌, if◌then◌else◌}

-- The `k` lowest bytes, the lowest first.
abbrev pub le_bytes : ℕ → ℕ → List ℕ
le_bytes zero x = []
le_bytes (suc k) x = (x % 256) ∷ le_bytes k (x / 256)

abbrev pub of_le : List ℕ → ℕ
of_le [] = 0
of_le (b ∷ bs) = b + 256 * of_le bs

pub length-le_bytes : (k x : ℕ) → length (le_bytes k x) ≡ k
length-le_bytes zero x = refl
length-le_bytes (suc k) x = ap suc (length-le_bytes k (x / 256))

pub of_le-le_bytes : (k x : ℕ) → x < 256 ^ k → of_le (le_bytes k x) ≡ x
of_le-le_bytes zero x h = omega arith
of_le-le_bytes (suc k) x h =
    omega (arith, of_le-le_bytes k (x / 256) (omega (arith, pow-suc 256 k)))

-- The `n` bytes of a memory from `a` on.
unfoldable pub segment : (ℕ → ℕ) → ℕ → ℕ → List ℕ
segment c a zero = []
segment c a (suc n) = c a ∷ segment c (suc a) n

pub segment_local :
    (c d : ℕ → ℕ) (a n : ℕ)
    → ((b : ℕ) → a ≤ b → b < a + n → c b ≡ d b)
    → segment c a n ≡ segment d a n
unfolding segment
segment_local c d a zero h = refl
segment_local c d a (suc n) h = λ i.
    h a (omega arith) (omega arith) i
    ∷ segment_local c d (suc a) n (λ b p q. h b (omega arith) (omega arith)) i

pub length-segment : (c : ℕ → ℕ) (a n : ℕ) → length (segment c a n) ≡ n
unfolding segment
length-segment c a zero = refl
length-segment c a (suc n) = ap suc (length-segment c (suc a) n)

pub segment-append :
    (c : ℕ → ℕ) (a m n : ℕ) → segment c a (m + n) ≡ segment c a m ++ segment c (a + m) n
unfolding segment
segment-append c a zero n = ap₂ (λ (x y : ℕ). segment c x y) (omega arith) (omega arith)
segment-append c a (suc m) n =
    ap (segment c a) (let e : suc m + n ≡ suc (m + n) = omega arith in e)
    ∙ ap (◌∷◌ (c a)) (
        segment-append c (suc a) m n
        ∙ ap (λ (x : ℕ). segment c (suc a) m ++ segment c x n) (omega arith))

-- Blocks of 64 bytes one after the other.
pub segment_blocks :
    (c : ℕ → ℕ) (a left : ℕ)
    → segment c a 64 ++ segment c (a + 64) (64 * left) ≡ segment c a (64 * suc left)
segment_blocks c a left =
    sym (segment-append c a 64 (64 * left))
    ∙ ap (segment c a) (let e : 64 + 64 * left ≡ 64 * suc left = omega arith in e)

-- `memcpy` of bytes to the address `a`.
unfoldable pub store_at : (ℕ → ℕ) → ℕ → List ℕ → ℕ → ℕ
store_at c a [] = c
store_at c a (b ∷ bs) = store_at (λ x. if a == x then b else c x) (suc a) bs

pub store_at_outside :
    (c : ℕ → ℕ) (a : ℕ) (bs : List ℕ) (x : ℕ)
    → (x < a) ⊎ (a + length bs ≤ x)
    → store_at c a bs x ≡ c x
unfolding store_at
store_at_outside c a [] x h = refl
store_at_outside c a (b ∷ bs) x h =
    store_at_outside (λ y. if a == y then b else c y) (suc a) bs x (ground arith) ∙ ground arith

pub store_at-append :
    (c : ℕ → ℕ) (a : ℕ) (xs ys : List ℕ)
    → store_at c a (xs ++ ys) ≡ store_at (store_at c a xs) (a + length xs) ys
unfolding store_at
store_at-append c a [] ys = ap (λ (k : ℕ). store_at c k ys) (omega arith)
store_at-append c a (x ∷ xs) ys =
    store_at-append (λ y. if a == y then x else c y) (suc a) xs ys
    ∙ ap (λ (k : ℕ). store_at (store_at (λ y. if a == y then x else c y) (suc a) xs) k ys)
        (omega arith)

pub segment-store_at :
    (c : ℕ → ℕ) (a : ℕ) (bs : List ℕ) → segment (store_at c a bs) a (length bs) ≡ bs
unfolding store_at segment
segment-store_at c a [] = refl
segment-store_at c a (b ∷ bs) =
    ap₂ ◌∷◌
      (store_at_outside (λ y. if a == y then b else c y) (suc a) bs a (inl (omega arith))
        ∙ ground arith)
      (segment-store_at (λ y. if a == y then b else c y) (suc a) bs)
