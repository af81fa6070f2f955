-- ===== src/Server/Ipc/Replies.antt =====
-- The reply loop of the server over a stream socket.
use knockout_kraken.Base.{
  ℕ, zero, suc, ◌+◌, ◌≤◌, ◌≡◌, refl, ap, ap₂, ◌⊎◌, inl, inr, Bool-cases, ◌∙◌, arith, List, [], ◌∷◌,
  ◌++◌, some, Option, length, take, drop, Bool, true, false, append_assoc, append-nil, length-drop,
  take-append-drop,
}
use knockout_kraken.Socket.{Sockets, Stream, eagain, epipe, other, Sent, sent, send_failed, taken}
use knockout_kraken.Server.Ipc.{IpcServer, after_send, reply_loop, reply}

after_send-true :
    {W : Type 0} (next : ℕ → W → Option (Bool × IpcServer × W)) (e : Bool) (s : IpcServer) (w : W)
    (r : Sent × W) {s' : IpcServer} {w' : W}
    → after_send next e s w r ≡ some (true, s', w')
    → next (taken r.0) r.1 ≡ some (true, s', w')
after_send-true next true s w r h = cc
after_send-true next false s w (send_failed epipe, wk) h = cc
after_send-true next false s w (send_failed eagain, wk) h = cc
after_send-true next false s w (send_failed other, wk) h = cc
after_send-true next false s w (sent k, wk) h = h

after_send_total :
    {W : Type 0} (next : ℕ → W → Option (Bool × IpcServer × W)) (e : Bool) (s : IpcServer) (w : W)
    (r : Sent × W)
    → ((x : Bool × IpcServer × W) × (next (taken r.0) r.1 ≡ some x))
    → (x : Bool × IpcServer × W) × (after_send next e s w r ≡ some x)
after_send_total next true s w r h = (_, refl)
after_send_total next false s w (send_failed epipe, wk) h = (_, refl)
after_send_total next false s w (send_failed eagain, wk) h = (_, refl)
after_send_total next false s w (send_failed other, wk) h = (_, refl)
after_send_total next false s w (sent k, wk) h = h

module _ {W : Type 0} (os : Sockets W) (s : IpcServer) (stream : Stream os s.client_fd) where
  open stream use {outgoing, patience, send_bound, send_appends, send_progress}

  abbrev rest_of : ℕ → List ℕ → ℕ → W → Option (Bool × IpcServer × W)
  rest_of fuel bs k w' = reply_loop os fuel s (drop k bs) w'

  reply_loop-true :
      (fuel : ℕ) (bs : List ℕ) (w : W) {s' : IpcServer} {w' : W}
      → reply_loop os fuel s bs w ≡ some (true, s', w')
      → outgoing w' ≡ outgoing w ++ bs
  unfolding reply_loop
  reply_loop-true fuel [] w {s'} {w'} h = ground (arith, append-nil (outgoing w))
  reply_loop-true zero (b ∷ bs) w h = cc
  reply_loop-true (suc fuel) (b ∷ bs) w h =
      let r = os.send s.client_fd (b ∷ bs) w in
      let cut = drop (taken r.0) (b ∷ bs) in
      reply_loop-true fuel cut r.1 (after_send-true (rest_of fuel (b ∷ bs)) s.error s w r h)
      ∙ ap (λ (xs : List ℕ). xs ++ cut) (send_appends (b ∷ bs) w)
      ∙ append_assoc (outgoing w) (take (taken r.0) (b ∷ bs)) cut
      ∙ ap (λ (xs : List ℕ). outgoing w ++ xs) (take-append-drop (taken r.0) (b ∷ bs))

  reply_loop_total :
      (fuel : ℕ) (bs : List ℕ) (w : W)
      → length bs + patience w ≤ fuel
      → (x : Bool × IpcServer × W) × (reply_loop os fuel s bs w ≡ some x)
  unfolding reply_loop
  reply_loop_total fuel [] w h = (_, refl)
  reply_loop_total zero (b ∷ bs) w h = absurd (omega arith)
  reply_loop_total (suc fuel) (b ∷ bs) w h =
      let r = os.send s.client_fd (b ∷ bs) w in
      after_send_total (rest_of fuel (b ∷ bs)) s.error s w r (
        reply_loop_total fuel (drop (taken r.0) (b ∷ bs)) r.1 (
          omega (
            arith,
            send_progress (b ∷ bs) w (omega arith),
            send_bound (b ∷ bs) w,
            length-drop (taken r.0) (b ∷ bs),
          )))

  -- Over a connected stream, with fuel for the bytes and the idle calls, a reply returns; it
  -- returns false, or else all of its data has gone out, in order, behind what had gone out before.
  reply_sends :
      (fuel : ℕ) (bytes : List ℕ) (w : W)
      → length bytes + patience w ≤ fuel
      → (x : Bool × IpcServer × W) × (reply os fuel s bytes w ≡ some x)
        × ((x.0 ≡ false) ⊎ (outgoing x.2 ≡ outgoing w ++ bytes))
  unfolding reply
  reply_sends fuel bytes w h =
      let ((b, s', w'), e) = reply_loop_total fuel bytes w h in
      (
        (b, s', w'),
        e,
        elim (Bool-cases b) [
          | inr f ↦ inl f
          | inl t ↦ inr (reply_loop-true fuel bytes w (e ∙ ap (λ (v : Bool). some (v, s', w')) t))
        ],
      )

  -- A socket that never refuses a send.
  abbrev Steady : Type 0
  Steady = (bs : List ℕ) (w : W) → (k : ℕ) × (w' : W) × (os.send s.client_fd bs w ≡ (sent k, w'))

  steady_true :
      (fuel : ℕ) (bs : List ℕ) (w : W)
      → s.error ≡ false
      → Steady
      → length bs + patience w ≤ fuel
      → (w' : W) × (reply_loop os fuel s bs w ≡ some (true, s, w'))
  unfolding reply_loop
  steady_true fuel [] w ne steady h = (w, refl)
  steady_true zero (b ∷ bs) w ne steady h = absurd (omega arith)
  steady_true (suc fuel) (b ∷ bs) w ne steady h =
      let (k, w1, e) = steady (b ∷ bs) w in
      let few = send_progress (b ∷ bs) w (omega arith) in
      let bound = send_bound (b ∷ bs) w in
      let left = ap (λ (r : Sent × W). patience r.1) e in
      let count = ap (λ (r : Sent × W). taken r.0) e in
      let (w', rest) =
        steady_true fuel (drop k (b ∷ bs)) w1 ne steady
          (omega (arith, few, bound, left, count, length-drop k (b ∷ bs))) in
      (
        w',
        ap₂ (λ (t : Bool) (r : Sent × W). after_send (rest_of fuel (b ∷ bs)) t s w r) ne e ∙ rest,
      )

  -- Over a connected stream that never refuses a send, with no error pending and fuel for the bytes
  -- and the idle calls, a reply returns true, and all of its data has gone out, in order, behind what
  -- had gone out before.
  pub reply_steady :
      (fuel : ℕ) (bytes : List ℕ) (w : W)
      → s.error ≡ false
      → Steady
      → length bytes + patience w ≤ fuel
      → (w' : W) × (reply os fuel s bytes w ≡ some (true, s, w'))
        × (outgoing w' ≡ outgoing w ++ bytes)
  unfolding reply
  reply_steady fuel bytes w ne steady h =
      let (w', e) = steady_true fuel bytes w ne steady h in (w', e, reply_loop-true fuel bytes w e)
