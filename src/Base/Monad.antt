-- ===== src/Base/Monad.antt =====
-- Calls that may fail, and that may not return. A C function `int f(..., T *out)` returns 0 with
-- `*out` written, `ok v`, or another code, `err code`, with what it has written to `*out` by then,
-- if anything. `none` is a call that has not returned within the fuel of its loops.
use knockout_kraken.Base.Int.{ℤ}
use mathlib.Core.Option.{Option, none, some}

pub data Result (A : Type 0) : Type 0 where
  ok : A → Result A
  err : ℤ → Option A → Result A

-- `W` is what the call reads and changes besides its arguments.
abbrev pub M : Type 0 → Type 0 → Type 0
M W A = W → Option (Result A × W)

abbrev pub pure : {W A : Type 0} → A → M W A
pure a w = some (ok a, w)

-- `return code;`
abbrev pub fail : {W A : Type 0} → ℤ → M W A
fail code w = some (err code none, w)

abbrev pub spin : {W A : Type 0} → M W A
spin w = none

-- `res = m(); if (res != 0) return res;`
infixl 5 ◌>>=◌ ◌>>◌
abbrev pub ◌>>=◌ : {W A B : Type 0} → M W A → (A → M W B) → M W B
◌>>=◌ m f w = elim (m w) [
  | none ↦ none
  | some (r, w') ↦ elim r [ ok a ↦ f a w' | err code _ ↦ some (err code none, w') ]
]

abbrev pub ◌>>◌ : {W B : Type 0} → M W (Unit {0}) → M W B → M W B
m >> k = m >>= λ _. k

-- A call whose return code the caller reads for itself, or ignores.
abbrev pub attempt : {W A : Type 0} → M W A → M W (Result A)
attempt m w = elim (m w) [ none ↦ none | some (r, w') ↦ some (ok r, w') ]

-- The value of a variable that was set to `before` and then handed to a call as its `out`.
abbrev pub out : {A : Type 0} → A → Result A → A
out before (ok a) = a
out before (err code none) = before
out before (err code (some a)) = a
