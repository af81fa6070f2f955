-- ===== src/Server/Routine/Protocol/Handshakes.antt =====
-- Over a design that follows a protocol every wait of a routine ends, and is followed by a transfer.
use knockout_kraken.Base.{
  ℕ, zero, suc, ◌<◌, ◌≡◌, ◌≢◌, refl, sym, ap, ap₂, ◌∙◌, subst, arith, List, [], ◌∷◌, some,
  ℕ_discrete, ≢→==,
}
use knockout_kraken.Server.Routine.{Setting, Shared, go, Piece, ◌>>=◌, ◌>>◌, tick_once, wait_until}
use knockout_kraken.Server.Routine.Protocol.{Protocol, Change, level, wide, Follows}

pub on :
    {V W : Type 0} (x : Setting V W) (m : Piece x (Unit {0})) {B : Type 0} (k : Piece x B)
    (s s' : Shared V W)
    → m s ≡ some (go tt, s')
    → (m >> k) s ≡ k s'
on x m k s s' e = rw (e, ◌>>◌, ◌>>=◌)

module _ {V W A : Type 0} (p : Protocol) (x : Setting V W) (view : Shared V W → A)
    (f : Follows p x view) where
  open p use {Pins, Status, Channel, signal, Asked, transferred}
  open f use {pins, state, patience}

  pub ticked_once : (s : Shared V W) → tick_once x s ≡ some (go tt, (x.tick s).1)
  ticked_once s = rw (f.tick_goes s)

  move-Asked : (c : Channel) {q r : Pins} {k l : Status} → q ≡ r → k ≡ l → Asked c q k → Asked c r l
  move-Asked c {q} {r} {k} {l} e g asked =
      subst (λ (a : Pins). Asked c a l) e (subst (λ (b : Status). Asked c q b) g asked)

  wait_ready :
      (c : Channel) (n : ℕ) (s : Shared V W)
      → Asked c (pins s.dut.design) (state s.dut.design)
      → patience s.dut.design < n
      → (s' : Shared V W) × (wait_until x n (signal c) s ≡ some (go tt, s'))
        × (x.ports.get (signal c) s'.dut.design ≢ 0)
        × (pins s'.dut.design ≡ pins s.dut.design)
        × (state s'.dut.design ≡ state s.dut.design)
        × (view s' ≡ view s)
  unfolding wait_until
  wait_ready c zero s asked h = absurd (omega arith)
  wait_ready c (suc n) s asked h = elim (ℕ_discrete (x.ports.get (signal c) s.dut.design) 0) [
    | no up ↦ (s, rw (≢→== (x.ports.get (signal c) s.dut.design) 0 up) refl, up, refl, refl, refl)
    | yes down ↦
        let s1 = (x.tick s).1 in
        let (same, less) = f.tick_stalled c s asked down in
        let kept = f.tick_pins s in
        let (s', e, up, q, k, v) =
          wait_ready c n s1 (move-Asked c (sym kept) (sym same) asked) (omega (arith, less)) in
        (
          s',
          rw down (on x (tick_once x) (wait_until x n (signal c)) s s1 (ticked_once s) ∙ e),
          up,
          q ∙ kept,
          k ∙ same,
          v ∙ f.tick_view s,
        )
  ]

  -- A transfer: the wait and the tick behind it.
  pub record Transfer (c : Channel) (s : Shared V W) : Type 0 where
    pub offered : Shared V W
    pub waited : wait_until x x.fuel (signal c) s ≡ some (go tt, offered)
    pub up : x.ports.get (signal c) offered.dut.design ≢ 0
    pub held : state offered.dut.design ≡ state s.dut.design
    pub view_held : view offered ≡ view s
    pub kept : pins offered.dut.design ≡ pins s.dut.design

  transfer :
      (c : Channel) (s : Shared V W)
      → Asked c (pins s.dut.design) (state s.dut.design)
      → Transfer c s
  transfer c s asked =
      let (s', e, up, q, k, v) = wait_ready c x.fuel s asked (f.fuel_enough s.dut.design) in
      record { offered = s'; waited = e; up = up; held = k; view_held = v; kept = q }

  -- Ports set one after the other, and an eval.
  abbrev set_one : Change → V → V
  set_one (level i n) v = x.ports.set i n v
  set_one (wide i bytes) v = x.ports.set_wide i bytes v

  abbrev pub set_all : List Change → V → V
  set_all [] v = v
  set_all (c ∷ rest) v = set_all rest (set_one c v)

  abbrev drive_one : Change → Pins → Pins
  drive_one (level i n) q = p.drive i n q
  drive_one (wide i bytes) q = p.drive_wide i bytes q

  abbrev pub drive_all : List Change → Pins → Pins
  drive_all [] q = q
  drive_all (c ∷ rest) q = drive_all rest (drive_one c q)

  set_one_lem :
      (c : Change) (v : V)
      → (pins (set_one c v) ≡ drive_one c (pins v)) × (state (set_one c v) ≡ state v)
  set_one_lem (level i n) v = (f.set_pins i n v, f.set_state i n v)
  set_one_lem (wide i bytes) v = (f.set_wide_pins i bytes v, f.set_wide_state i bytes v)

  set_all_lem :
      (changes : List Change) (v : V)
      → (pins (set_all changes v) ≡ drive_all changes (pins v))
        × (state (set_all changes v) ≡ state v)
  set_all_lem [] v = (refl, refl)
  set_all_lem (c ∷ rest) v =
      let (q, k) = set_all_lem rest (set_one c v) in
      let (q1, k1) = set_one_lem c v in (q ∙ ap (drive_all rest) q1, k ∙ k1)

  abbrev pub with_design : V → Shared V W → Shared V W
  with_design v s = record s { dut = record s.dut { design = v } }

  abbrev pub awaited : List Change → Shared V W → Shared V W
  awaited changes s = with_design (x.design.eval (set_all changes s.dut.design)) s

  -- Setting ports leaves the view alone.
  pub view-awaited : (changes : List Change) (s : Shared V W) → view (awaited changes s) ≡ view s
  view-awaited changes s = f.view_design s (x.design.eval (set_all changes s.dut.design))

  abbrev pub At : Pins → Status → Shared V W → Type 0
  At q k s = (pins s.dut.design ≡ q) × (state s.dut.design ≡ k)

  pub settled :
      (changes : List Change) (q : Pins) (k : Status) (s : Shared V W)
      → At q k s
      → At (drive_all changes q) k (awaited changes s)
  settled changes q k s (hq, hk) =
      let (dq, dk) = set_all_lem changes s.dut.design in
      (
        f.eval_pins (set_all changes s.dut.design) ∙ dq ∙ ap (drive_all changes) hq,
        f.eval_state (set_all changes s.dut.design) ∙ dk ∙ hk,
      )

  pub handshake :
      (c : Channel) (q : Pins) (k : Status) (s : Shared V W) → At q k s → Asked c q k → Transfer c s
  handshake c q k s (hq, hk) asked = transfer c s (move-Asked c (sym hq) (sym hk) asked)

  -- The tick of a transfer.
  pub tick_at :
      (c : Channel) (q : Pins) (k : Status) (s : Shared V W)
      → At q k s
      → Asked c q k
      → x.ports.get (signal c) s.dut.design ≢ 0
      → At q (transferred c q k) (x.tick s).1
  tick_at c q k s (hq, hk) asked up = (
    f.tick_pins s ∙ hq,
    f.tick_transfers c s (move-Asked c (sym hq) (sym hk) asked) up ∙ ap₂ (transferred c) hq hk,
  )

  -- What comes between the wait of a transfer and its tick may change all but the design.
  pub taken :
      (c : Channel) (q : Pins) (k : Status) (s : Shared V W)
      → At q k s
      → Asked c q k
      → (t : Transfer c s) (s' : Shared V W) → s'.dut.design ≡ t.offered.dut.design
      → At q (transferred c q k) (x.tick s').1
  taken c q k s (hq, hk) asked t s' e =
      tick_at c q k s' (ap pins e ∙ t.kept ∙ hq, ap state e ∙ t.held ∙ hk) asked
        (λ z. t.up (ap (x.ports.get (signal c)) (sym e) ∙ z))

  -- Ports are set, and a transfer is waited for.
  pub step :
      (c : Channel) (changes : List Change) (q : Pins) (k : Status) (s : Shared V W)
      → At q k s
      → Asked c (drive_all changes q) k
      → (s' : Shared V W) × ((next : Piece x (Unit {0}))
          → (wait_until x x.fuel (signal c) >> (tick_once x >> next)) (awaited changes s) ≡ next s')
        × At (drive_all changes q) (transferred c (drive_all changes q) k) s'
        × (view s' ≡ view s)
  step c changes q k s here asked =
      let there = settled changes q k s here in
      let t = handshake c (drive_all changes q) k (awaited changes s) there asked in
      (
        (x.tick t.offered).1,
        λ next.
            on x (wait_until x x.fuel (signal c)) (tick_once x >> next) (awaited changes s)
              t.offered t.waited
            ∙ on x (tick_once x) next t.offered (x.tick t.offered).1 (ticked_once t.offered),
        taken c (drive_all changes q) k (awaited changes s) there asked t t.offered refl,
        f.tick_view t.offered ∙ t.view_held ∙ view-awaited changes s,
      )

  -- A tick at which nothing is offered.
  pub still_at :
      (q : Pins) (k : Status) (s : Shared V W) → At q k s → p.Still q k → At q k (x.tick s).1
  still_at q k s (hq, hk) still = (
    f.tick_pins s ∙ hq,
    f.tick_still s (
          subst (λ (a : Pins). p.Still a (state s.dut.design)) (sym hq)
            (subst (λ (b : Status). p.Still q b) (sym hk) still))
        ∙ hk,
  )

  -- A tick at which the design takes nothing of what is offered.
  pub stalled_at :
      (c : Channel) (q : Pins) (k : Status) (s : Shared V W)
      → At q k s
      → Asked c q k
      → x.ports.get (signal c) s.dut.design ≡ 0
      → At q k (x.tick s).1
  stalled_at c q k s (hq, hk) asked down =
      (f.tick_pins s ∙ hq, (f.tick_stalled c s (move-Asked c (sym hq) (sym hk) asked) down).0 ∙ hk)

  -- Ports are set and not evaluated before the tick.
  abbrev pub placed : List Change → Shared V W → Shared V W
  placed changes s = with_design (set_all changes s.dut.design) s

  pub placed_lem :
      (changes : List Change) (q : Pins) (k : Status) (s : Shared V W)
      → At q k s
      → At (drive_all changes q) k (placed changes s)
  placed_lem changes q k s (hq, hk) =
      let (dq, dk) = set_all_lem changes s.dut.design in (dq ∙ ap (drive_all changes) hq, dk ∙ hk)
