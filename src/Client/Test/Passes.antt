-- ===== src/Client/Test/Passes.antt =====
-- regression/src/client/test-helpers.cc and main.cpp: what the checks of the tests accept, and when a
-- test ends.
use knockout_kraken.Base.{
  ℕ, zero, suc, ◌+◌, ◌^◌, ◌≤◌, ◌<◌, ◌≡◌, ◌≢◌, ◌↔◌, refl, subst, ℕ_discrete, ==_iff, Option-cases,
  inl, inr, dec_lt, lt→ltb, le→ltb, get_or, ◌++◌, sym, arith, Bool, true, false, List, [], ◌∷◌,
  none, some, ◌==◌, if◌then◌else◌, All,
}
use knockout_kraken.Base.Monad.{ok, err, M, ◌>>=◌, ◌>>◌}
use knockout_kraken.Client.Message.{get_nzcv}
use knockout_kraken.Client.Interface.{ArmflexArchState, from_reg, state_words, transplant_pending}
use knockout_kraken.Client.Interface.Registers.{RegisterFile, Window, get_state-push_state}
use knockout_kraken.Client.Test.{
  Driver, require, require_ok, require_regs, require_state_is_identical, state_after,
  init_arch_state,
}
use knockout_kraken.Client.Test.Cases.{transplant_in, poll_pending}

pub record Identical (s t : ArmflexArchState) : Type 0 where
  pub pc : s.pc ≡ t.pc
  pub nzcv : get_nzcv s.nzcv ≡ get_nzcv t.nzcv
  pub sp : s.sp ≡ t.sp
  pub xregs : (i : ℕ) → i < 32 → s.xregs i ≡ t.xregs i

pub require_then :
    {W : Type 0} (b : Bool) (k : M W (Unit {0})) (w : W)
    → (require b >> k) w ≡ some (ok tt, w)
    → (b ≡ true) × (k w ≡ some (ok tt, w))
require_then true k w e = (refl, e)
require_then false k w e = grind arith

regs_from :
    {W : Type 0} (i n : ℕ) (x y : ℕ → ℕ) (w : W)
    → require_regs i n x y w ≡ some (ok tt, w)
    → (j : ℕ) → i ≤ j
    → j < i + n
    → x j ≡ y j
unfolding require_regs
regs_from i zero x y w e j p q = omega arith
regs_from i (suc n) x y w e j p q =
    let (here, rest) = require_then (x i == y i) (require_regs (i + 1) n x y) w e in
    elim (ℕ_discrete i j) [
      | yes h ↦ subst (λ k. x k ≡ y k) h ((==_iff (x i) (y i)).0 here)
      | no h ↦ regs_from (i + 1) n x y w rest j (omega (arith, h)) (omega arith)
    ]

regs_to :
    {W : Type 0} (i n : ℕ) (x y : ℕ → ℕ) (w : W)
    → ((j : ℕ) → i ≤ j → j < i + n → x j ≡ y j)
    → require_regs i n x y w ≡ some (ok tt, w)
unfolding require_regs
regs_to i zero x y w h = refl
regs_to i (suc n) x y w h =
    rw ((==_iff (x i) (y i)).1 (h i (omega arith) (omega arith)))
      (regs_to (i + 1) n x y w λ j p q. h j (omega arith) (omega arith))

-- The check of two states passes, and touches nothing, exactly when their program counters, stack
-- pointers and 32 general registers are equal and their flags agree in the low four bits.
pub state-Identical_iff :
    {W : Type 0} (s t : ArmflexArchState) (w : W)
    → (require_state_is_identical s t w ≡ some (ok tt, w)) ↔ Identical s t
unfolding require_state_is_identical
state-Identical_iff s t w = (
  λ e.
      let (pc, e1) = require_then (s.pc == t.pc) _ w e in
      let (nzcv, e2) = require_then (get_nzcv s.nzcv == get_nzcv t.nzcv) _ w e1 in
      let (sp, e3) = require_then (s.sp == t.sp) _ w e2 in
      record {
        pc = (==_iff s.pc t.pc).0 pc;
        nzcv = (==_iff (get_nzcv s.nzcv) (get_nzcv t.nzcv)).0 nzcv;
        sp = (==_iff s.sp t.sp).0 sp;
        xregs = λ i h. regs_from 0 32 s.xregs t.xregs w e3 i (omega arith) h;
      },
  λ h.
      rw
        (
          (==_iff s.pc t.pc).1 h.pc,
          (==_iff (get_nzcv s.nzcv) (get_nzcv t.nzcv)).1 h.nzcv,
          (==_iff s.sp t.sp).1 h.sp,
        )
        (regs_to 0 32 s.xregs t.xregs w λ i p q. h.xregs i q),
)

if_returns :
    {W A : Type 0} (b : Bool) (m k : M W A) (w : W)
    → m w ≢ none
    → k w ≢ none
    → (if b then m else k) w ≢ none
if_returns true m k w h h' = h
if_returns false m k w h h' = h'

poll_rounds :
    {C W : Type 0} (d : Driver C W) (c : C) (fuel iterations : ℕ) (w : W)
    → 0 < fuel
    → fuel + iterations ≡ 1000
    → ((w' : W) → transplant_pending (d.calls c) w' ≢ none)
    → poll_pending d c fuel iterations w ≢ none
unfolding poll_pending
poll_rounds d c zero iterations w p q h = omega arith
poll_rounds d c (suc fuel) iterations w p q h =
    elim (Option-cases (transplant_pending (d.calls c) w)) [
      | inl e ↦ elim (h w e) [ ]
      | inr ((err code a, w'), e) ↦ rw (e, ◌>>=◌, require_ok) λ k. grind arith
      | inr ((ok n, w'), e) ↦ elim (dec_lt (iterations + 1) 1000) [
        | no far ↦
            rw (e, ◌>>=◌, ◌>>◌, require_ok, le→ltb (iterations + 1) 1000 (omega arith))
              λ k. grind arith
        | yes near ↦
            rw (e, ◌>>=◌, ◌>>◌, require_ok, lt→ltb (iterations + 1) 1000 near)
              (if_returns (n == 0) _ _ (d.sleep 10000 w')
                (poll_rounds d c fuel (iterations + 1) (d.sleep 10000 w') (omega arith)
                  (omega arith) h)
                λ k. grind arith)
      ]
    ]

-- The wait of transplant-transplants gives up: over a device whose reads of the pending threads all
-- return, whatever they return, 1000 rounds of the loop are enough for it to return.
pub poll_pending_returns :
    {C W : Type 0} (d : Driver C W) (c : C) (w : W)
    → ((w' : W) → transplant_pending (d.calls c) w' ≢ none)
    → poll_pending d c 1000 0 w ≢ none
poll_pending_returns d c w h = poll_rounds d c 1000 0 w (omega arith) refl h

from_reg-All :
    (n : ℕ) (x : ℕ → ℕ) (ys : List ℕ)
    → ((i : ℕ) → i < n → x i < 2 ^ 64)
    → All (λ v. v < 2 ^ 64) ys
    → All (λ v. v < 2 ^ 64) (from_reg n x ++ ys)
from_reg-All zero x ys h small = small
from_reg-All (suc n) x ys h small =
    (h 0 (omega arith), from_reg-All n (λ i. x (suc i)) ys (λ i p. h (suc i) (omega arith)) small)

get_or-from_reg :
    (n : ℕ) (x : ℕ → ℕ) (ys : List ℕ) (i d : ℕ) → i < n → get_or (from_reg n x ++ ys) i d ≡ x i
get_or-from_reg zero x ys i d h = omega arith
get_or-from_reg (suc n) x ys zero d h = refl
get_or-from_reg (suc n) x ys (suc i) d h = get_or-from_reg n (λ j. x (suc j)) ys i d (omega arith)

state_after-state_words :
    (old s : ArmflexArchState) → Identical s (state_after old (ok (state_words s)))
state_after-state_words old s = record {
  pc = refl;
  nzcv = refl;
  sp = refl;
  xregs = λ i h. sym (get_or-from_reg 32 s.xregs (s.pc ∷ s.sp ∷ s.nzcv ∷ []) i 0 h);
}

-- Over a device that stores the words of thread 0's window, which lies below 2^32, and on which the
-- context opens: transplant-in passes, for every value below 2^31 that rand returns.
pub transplant_in_passes :
    {C W : Type 0} (d : Driver C W) (c : C) (w w0 : W) (cells : ℕ → ℕ) (rand lo hi : ℕ)
    → d.init_fpga_context d.context w0 ≡ some (ok c, w)
    → (rf : RegisterFile (d.calls c) lo hi) → rf.Holds w cells
    → Window (d.calls c) rf 0 35
    → rand < 2 ^ 31
    → (w' : W) × (transplant_in d rand w0 ≡ some (ok tt, w'))
unfolding transplant_in init_arch_state
transplant_in_passes d c w w0 cells rand lo hi e rf here fits small =
    let state = init_arch_state rand in
    let (w1, w2, pushed, got) =
      get_state-push_state (d.calls c) rf 0 (state_words state) w cells here fits (
        from_reg-All 32 state.xregs (rand ∷ 0 ∷ 0 ∷ []) (λ i h. omega arith)
          (omega arith, (omega arith, (omega arith, tt)))) in
    (
      (d.release_fpga_context c w2).1,
      rw
          (
            e,
            require_ok,
            ◌>>=◌,
            ◌>>◌,
            pushed,
            got,
            (state-Identical_iff state (state_after d.stale_state (ok (state_words state))) w2).1
                (state_after-state_words d.stale_state state),
          )
          refl,
    )
