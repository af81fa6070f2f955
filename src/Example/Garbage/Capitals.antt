-- ===== src/Example/Garbage/Capitals.antt =====
-- What the server answers.
use knockout_kraken.Base.{
  ℕ, zero, suc, ◌<◌, ◌≡◌, sym, ap, ◌∙◌, arith, false, List, [], ◌∷◌, ◌++◌, map, none, some, ℤ,
  is_negative, minus_one, append_assoc, append-nil, length,
}
use knockout_kraken.Socket.{Sockets}
use knockout_kraken.Example.Garbage.{
  Read, bytes, read_failed, Files, capital, answer, after_message, serve,
}

-- A connection from `w` on: the messages that the reads return, each answered by a write that
-- succeeds, and at the end a read that fails.
pub data Session {W : Type 0} (files : Files W) (fd : ℤ) : List (List ℕ) → W → W → Type 0 where
  over : {w w' : W} → files.read fd 128 w ≡ (read_failed, w') → Session files fd [] w w'
  message :
      {bs : List ℕ} {rest : List (List ℕ)} {w w1 w2 w' : W} {taken : ℤ}
      → files.read fd 128 w ≡ (bytes bs, w1)
      → files.write fd (map capital bs) w1 ≡ (taken, w2)
      → is_negative taken ≡ false
      → Session files fd rest w2 w'
      → Session files fd (bs ∷ rest) w w'

-- What is asked of the system: a read leaves alone what has been written to `fd`, and a write that
-- succeeds appends all of its bytes.
pub record Transcript {W : Type 0} (files : Files W) (fd : ℤ) (written : W → List ℕ) : Type 0 where
  pub read_keeps : (n : ℕ) (w : W) → written (files.read fd n w).1 ≡ written w
  pub write_appends :
      (bs : List ℕ) (w : W)
      → is_negative (files.write fd bs w).0 ≡ false
      → written (files.write fd bs w).1 ≡ written w ++ bs

abbrev pub joined : List (List ℕ) → List ℕ
joined [] = []
joined (bs ∷ rest) = map capital bs ++ joined rest

module _ {W : Type 0} (os : Sockets W) (files : Files W) (fd : ℤ) where
  answer_failed :
      {w w' : W}
      → files.read fd 128 w ≡ (read_failed, w')
      → answer os files fd w ≡ (some minus_one, w')
  unfolding answer
  answer_failed e = cc

  answer_goes :
      {bs : List ℕ} {w w1 w2 : W} {taken : ℤ}
      → files.read fd 128 w ≡ (bytes bs, w1)
      → files.write fd (map capital bs) w1 ≡ (taken, w2)
      → is_negative taken ≡ false
      → answer os files fd w ≡ (none, w2)
  unfolding answer
  answer_goes e f fine = cc

  -- Over a system that writes whole messages: a connection that ends with a failing read ends the
  -- program with -1, and all its messages have been answered, in order and in capitals. Enough fuel is
  -- one more than the messages.
  pub serve_answers :
      {written : W → List ℕ}
      → Transcript files fd written
      → (fuel : ℕ) (messages : List (List ℕ)) {w w' : W} → Session files fd messages w w'
      → length messages < fuel
      → (serve os files fuel fd w ≡ some (minus_one, w'))
        × (written w' ≡ written w ++ joined messages)
  unfolding serve answer
  serve_answers log zero messages s h = absurd (omega arith)
  serve_answers {written} log (suc fuel) [] {w} {w'} (over e) h = (
    ap (after_message (λ w'. serve os files fuel fd w')) (answer_failed e),
    sym (ap (λ (r : Read × W). written r.1) e)
        ∙ log.read_keeps 128 w
        ∙ sym (append-nil (written w)),
  )
  serve_answers {written} log (suc fuel) (bs ∷ rest) {w} (message {w1 = w1} {w2 = w2} e f fine s)
        h =
      let (ends, rest_out) = serve_answers log fuel rest s (omega arith) in
      let read_ = sym (log.read_keeps 128 w) ∙ ap (λ (r : Read × W). written r.1) e in
      let ok_ : is_negative (files.write fd (map capital bs) w1).0 ≡ false =
        ap (λ (r : ℤ × W). is_negative r.0) f ∙ fine in
      let wrote =
        sym (ap (λ (r : ℤ × W). written r.1) f) ∙ log.write_appends (map capital bs) w1 ok_ in
      (
        ap (after_message (λ w'. serve os files fuel fd w')) (answer_goes e f fine) ∙ ends,
        rest_out
            ∙ ap (λ (bs' : List ℕ). bs' ++ joined rest)
                (wrote ∙ ap (λ (o : List ℕ). o ++ map capital bs) (sym read_))
            ∙ append_assoc (written w) (map capital bs) (joined rest),
      )
