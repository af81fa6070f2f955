-- ===== src/Client/Ipc/Transfers.antt =====
-- Over a stream socket both loops return, and move exactly the bytes asked for, in order.
use knockout_kraken.Base.{
  ℕ, zero, suc, ◌+◌, ◌-◌, ◌≤◌, ◌≡◌, refl, sym, ap, ◌∙◌, arith, List, [], ◌∷◌, ◌++◌, some, length,
  take, drop, ℤ, append_assoc, append-nil, length-append, length-drop, take-append-drop,
}
use knockout_kraken.Base.Monad.{ok, M}
use knockout_kraken.Socket.{Sockets, Stream, taken, got}
use knockout_kraken.Client.Ipc.{send_ipc, recv_ipc, after_bytes}

after_bytes_ok :
    {W : Type 0} (bs : List ℕ) (m : M W (List ℕ)) (w : W) {w' : W} {cs : List ℕ}
    → m w ≡ some (ok cs, w')
    → after_bytes bs m w ≡ some (ok (bs ++ cs), w')
after_bytes_ok bs m w e = rw (e, after_bytes)

module _ {W : Type 0} (os : Sockets W) {fd : ℤ} (stream : Stream os fd) where
  open stream use {
    incoming, outgoing, patience, recv_prefix, recv_bound, recv_progress, recv_keeps, send_bound,
    send_appends, send_progress,
  }

  -- All of a buffer goes out, in order, behind what had gone out before; enough fuel is the number
  -- of bytes and of idle calls.
  pub send_ipc_all :
      (fuel : ℕ) (buffer : List ℕ) (w : W)
      → length buffer + patience w ≤ fuel
      → (w' : W) × (send_ipc os fuel fd buffer w ≡ some (ok tt, w'))
        × (outgoing w' ≡ outgoing w ++ buffer)
  unfolding send_ipc
  send_ipc_all fuel [] w h = (w, refl, sym (append-nil _))
  send_ipc_all zero (b ∷ bs) w h = absurd (omega arith)
  send_ipc_all (suc fuel) (b ∷ bs) w h =
      let r = os.send fd (b ∷ bs) w in
      let rest = drop (taken r.0) (b ∷ bs) in
      let (w', e, sent) = send_ipc_all fuel rest r.1 (
        omega (
          arith,
          send_progress (b ∷ bs) w (omega arith),
          send_bound (b ∷ bs) w,
          length-drop (taken r.0) (b ∷ bs),
        )) in
      (
        w',
        e,
        sent
            ∙ ap (λ (xs : List ℕ). xs ++ rest) (send_appends (b ∷ bs) w)
            ∙ append_assoc (outgoing w) (take (taken r.0) (b ∷ bs)) rest
            ∙ ap (λ (xs : List ℕ). outgoing w ++ xs) (take-append-drop (taken r.0) (b ∷ bs)),
      )

  -- If the other side sends at least `n` bytes, `n` bytes are received, which are the first that it
  -- sends, and the rest stays to be received; enough fuel is `n` and the number of idle calls.
  pub recv_ipc_all :
      (fuel n : ℕ) (w : W)
      → n ≤ length (incoming w)
      → n + patience w ≤ fuel
      → (bs : List ℕ) × (w' : W) × (recv_ipc os fuel fd n w ≡ some (ok bs, w'))
        × (length bs ≡ n)
        × (incoming w ≡ bs ++ incoming w')
        × (outgoing w' ≡ outgoing w)
  unfolding recv_ipc
  recv_ipc_all fuel zero w a h = ([], w, refl, refl, refl, refl)
  recv_ipc_all zero (suc n) w a h = absurd (omega arith)
  recv_ipc_all (suc fuel) (suc n) w a h =
      let r = os.recv fd (suc n) w in
      let front = got r.0 in
      let parts = ap length (recv_prefix (suc n) w) ∙ length-append front (incoming r.1) in
      let (bs, w', e, len, rest, same) =
        recv_ipc_all fuel (suc n - length front) r.1 (omega (arith, parts)) (
          omega
            (arith, recv_bound (suc n) w, recv_progress (suc n) w (omega arith) (omega arith))) in
      (
        front ++ bs,
        w',
        after_bytes_ok front (recv_ipc os fuel fd (suc n - length front)) r.1 e,
        omega (arith, length-append front bs, len, recv_bound (suc n) w),
        recv_prefix (suc n) w
            ∙ ap (λ (xs : List ℕ). front ++ xs) rest
            ∙ sym (append_assoc front bs (incoming w')),
        same ∙ recv_keeps (suc n) w,
      )
