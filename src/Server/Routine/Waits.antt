-- ===== src/Server/Routine/Waits.antt =====
-- How many ticks a routine lets pass: the simulator's command, and the address phase of an AXI read.
use knockout_kraken.Base.{ℕ, zero, suc, ◌≡◌, ◌≢◌, refl, ap, ◌∙◌, false, some, none, ≢→==, le_bytes}
use knockout_kraken.Wire.{MemoryRequest, MemoryRequestAxil}
use knockout_kraken.Server.Ports.{s_axi_ar_arready}
use knockout_kraken.Server.Routine.{
  Setting, Shared, go, ◌>>=◌, ◌>>◌, Piece, tick_once, must_reply, wait_while,
}
use knockout_kraken.Server.Routine.Axil.{ticks, cycle_step, serve_axil}
use knockout_kraken.Server.Routine.Axi.{offer_read, take_read, axi_read}

module _ {V W : Type 0} (x : Setting V W) where
  open x use {ports, tick, fuel}

  -- What is left after a number of ticks.
  abbrev pub ticked : ℕ → Shared V W → Shared V W
  ticked zero s = s
  ticked (suc n) s = ticked n (tick s).1

  ticks_lem :
      (n : ℕ) (s : Shared V W)
      → ((t : Shared V W) → (tick t).0 ≡ false)
      → ticks x n s ≡ some (go tt, ticked n s)
  unfolding ticks
  ticks_lem zero s on = refl
  ticks_lem (suc n) s on = rw (on s, ◌>>=◌, ◌>>◌) (ticks_lem n (tick s).1 on)

  -- While the main thread does not end the simulation, the command 0xDEED lets exactly `w_data` ticks
  -- pass and then answers with the word 0, whatever its address and size.
  cycle_step_ticks :
      (r : MemoryRequestAxil) (s : Shared V W)
      → ((t : Shared V W) → (tick t).0 ≡ false)
      → r.is_write ≡ 0xDEED
      → serve_axil x r s ≡ must_reply x (le_bytes 4 0) (ticked r.w_data s)
  unfolding serve_axil cycle_step
  cycle_step_ticks r s on magic = rw (magic, ◌>>=◌, ◌>>◌, ticks_lem r.w_data s on)

  then_go :
      {A : Type 0} (m : Piece x (Unit {0})) (k : Piece x A) (s s1 : Shared V W)
      → m s ≡ some (go tt, s1)
      → (m >> k) s ≡ k s1
  then_go m k s s1 e = rw (e, ◌>>=◌, ◌>>◌)

  then_stuck :
      {A : Type 0} (m : Piece x (Unit {0})) (k : Piece x A) (s : Shared V W)
      → m s ≡ none
      → (m >> k) s ≡ none
  then_stuck m k s e = rw (e, ◌>>=◌, ◌>>◌)

  passed :
      (n : ℕ) (s : Shared V W)
      → ports.get s_axi_ar_arready s.dut.design ≡ 0
      → wait_while x (suc n) s_axi_ar_arready s ≡ some (go tt, s)
  unfolding wait_while
  passed n s down = rw (down, ◌>>=◌)

  -- The address phase of an AXI read does not wait until S_AXI_ar_arready is up: when the signal is
  -- down behind the offer of the address, the routine lets one tick pass and goes on to the data,
  -- whatever the design has done.
  axi_read_unready :
      (req : MemoryRequest) (s s1 : Shared V W) {n : ℕ}
      → fuel ≡ suc n
      → offer_read x req s ≡ some (go tt, s1)
      → ports.get s_axi_ar_arready s1.dut.design ≡ 0
      → axi_read x req s ≡ (tick_once x >> take_read x req) s1
  unfolding axi_read
  axi_read_unready req s s1 {n = n} f offered down =
      let wait = wait_while x fuel s_axi_ar_arready in
      let on : wait s1 ≡ some (go tt, s1) =
        ap (λ (k : ℕ). wait_while x k s_axi_ar_arready s1) f ∙ passed n s1 down in
      then_go (offer_read x req) (wait >> (tick_once x >> take_read x req)) s s1 offered
      ∙ then_go wait (tick_once x >> take_read x req) s1 s1 on

  stuck :
      (n : ℕ) (s : Shared V W)
      → ((t : Shared V W) → (tick t).0 ≡ false)
      → ((v : V) → ports.get s_axi_ar_arready v ≢ 0)
      → wait_while x n s_axi_ar_arready s ≡ none
  unfolding wait_while
  stuck zero s on up = refl
  stuck (suc n) s on up =
      rw (≢→== (ports.get s_axi_ar_arready s.dut.design) 0 (up s.dut.design), ◌>>=◌, ◌>>◌, on s)
        (stuck n (tick s).1 on up)

  -- With a design that keeps S_AXI_ar_arready up, and while the main thread does not end the
  -- simulation, an AXI read never comes to its end: no fuel is enough.
  axi_read_stuck :
      (req : MemoryRequest) (s : Shared V W)
      → ((t : Shared V W) → (tick t).0 ≡ false)
      → ((v : V) → ports.get s_axi_ar_arready v ≢ 0)
      → axi_read x req s ≡ none
  unfolding axi_read
  axi_read_stuck req s on up =
      then_stuck (wait_while x fuel s_axi_ar_arready) _ _ (stuck fuel _ on up)
