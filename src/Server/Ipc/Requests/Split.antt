-- ===== src/Server/Ipc/Requests/Split.antt =====
-- The request loop of the server: what a message cut in two does to it.
use knockout_kraken.Base.{
  ℕ, suc, ◌+◌, ◌*◌, ◌-◌, ◌≤◌, ◌<◌, ◌≡◌, refl, ap, ◌∙◌, arith, List, ◌∷◌, some, length, true, false,
  store_at, store_at_outside, inl, inr,
}
use knockout_kraken.Socket.{Sockets, eagain, received, recv_failed}
use knockout_kraken.Server.Ipc.{IpcServer, Polled, request_loop}
use knockout_kraken.Server.Ipc.Requests.{one_round, later_at}

far : (x n size : ℕ) → x < suc size → x < suc n * suc size
far x n size h = grind arith

module _ {W : Type 0} (os : Sockets W) where
  -- A struct that arrives in two pieces: the second goes `length first` structs behind `msg`.
  two_pieces :
      (size fuel : ℕ) (s : IpcServer) (mem : ℕ → ℕ) (w w1 w2 : W) (b c : ℕ) (bs cs : List ℕ)
      → s.error ≡ false
      → length (b ∷ bs) + length (c ∷ cs) ≡ suc size
      → os.recv s.client_fd (suc size) w ≡ (received (b ∷ bs), w1)
      → os.recv s.client_fd (length (c ∷ cs)) w1 ≡ (received (c ∷ cs), w2)
      → request_loop os (suc size) (suc (suc fuel)) (suc size) 0 s mem w
        ≡ some (record {
          done = true;
          server = s;
          mem = store_at (store_at mem 0 (b ∷ bs)) (length (b ∷ bs) * suc size) (c ∷ cs);
          world = w2;
        })
  unfolding request_loop
  two_pieces size fuel s mem w w1 w2 b c bs cs ne len e1 e2 =
      one_round os (suc size) (suc fuel) size 0 s mem w ne e1
      ∙ later_at os (suc size) (suc fuel) (suc size) 0 s mem (b ∷ bs) w1 {left = length (c ∷ cs)}
          {next = length (b ∷ bs)} {at = 0} (omega arith) (omega arith) (omega arith)
      ∙ one_round os (suc size) fuel (length cs) (length (b ∷ bs)) s (store_at mem 0 (b ∷ bs)) w1 ne
          e2
      ∙ later_at os (suc size) fuel (length (c ∷ cs)) (length (b ∷ bs)) s (store_at mem 0 (b ∷ bs))
          (c ∷ cs) w2 {left = 0} {next = suc size} {at = length (b ∷ bs) * suc size} (omega arith)
          (omega arith) refl

  -- A struct that reaches the server in two pieces, neither empty, is reported as read, but its bytes
  -- from the end of the first piece on are those that the memory held before.
  pub split_struct_stale :
      (size : ℕ) (s : IpcServer) (mem : ℕ → ℕ) (w w1 w2 : W) (b c : ℕ) (bs cs : List ℕ)
      → s.error ≡ false
      → length (b ∷ bs) + length (c ∷ cs) ≡ suc size
      → os.recv s.client_fd (suc size) w ≡ (received (b ∷ bs), w1)
      → os.recv s.client_fd (length (c ∷ cs)) w1 ≡ (received (c ∷ cs), w2)
      → (p : Polled W) × (request_loop os (suc size) (suc size) (suc size) 0 s mem w ≡ some p)
        × (p.done ≡ true)
        × ((x : ℕ) → length (b ∷ bs) ≤ x → x < suc size → p.mem x ≡ mem x)
  split_struct_stale size s mem w w1 w2 b c bs cs ne len e1 e2 =
      let first = length (b ∷ bs) in
      let once = store_at mem 0 (b ∷ bs) in
      (
        record {
          done = true;
          server = s;
          mem = store_at once (first * suc size) (c ∷ cs);
          world = w2;
        },
        ap (λ (n : ℕ). request_loop os (suc size) n (suc size) 0 s mem w)
              (let k : suc size ≡ suc (suc (size - 1)) = omega arith in k)
            ∙ two_pieces size (size - 1) s mem w w1 w2 b c bs cs ne len e1 e2,
        refl,
        λ x from below.
            store_at_outside once (first * suc size) (c ∷ cs) x (inl (far x (length bs) size below))
            ∙ store_at_outside mem 0 (b ∷ bs) x (inr (omega arith)),
      )

  -- When the first piece of a struct has come and the rest has not, the call returns false without
  -- an error; the bytes received have left the socket, and the next call begins at `msg` again.
  pub split_struct_dropped :
      (size : ℕ) (s : IpcServer) (mem : ℕ → ℕ) (w w1 w2 : W) (b : ℕ) (bs : List ℕ)
      → s.error ≡ false
      → length (b ∷ bs) < suc size
      → os.recv s.client_fd (suc size) w ≡ (received (b ∷ bs), w1)
      → os.recv s.client_fd (suc size - length (b ∷ bs)) w1 ≡ (recv_failed eagain, w2)
      → request_loop os (suc size) (suc size) (suc size) 0 s mem w
        ≡ some (record { done = false; server = s; mem = store_at mem 0 (b ∷ bs); world = w2 })
  split_struct_dropped size s mem w w1 w2 b bs ne len e1 e2 =
      let left = size - length (b ∷ bs) in
      one_round os (suc size) size size 0 s mem w ne e1
      ∙ later_at os (suc size) size (suc size) 0 s mem (b ∷ bs) w1 {left = suc left}
          {next = length (b ∷ bs)} {at = 0} (omega arith) (omega arith) (omega arith)
      ∙ ap
          (λ (n : ℕ).
            request_loop os (suc size) n (suc left) (length (b ∷ bs)) s (store_at mem 0 (b ∷ bs))
              w1)
          (let k : size ≡ suc (size - 1) = omega arith in k)
      ∙ one_round os (suc size) (size - 1) left (length (b ∷ bs)) s (store_at mem 0 (b ∷ bs)) w1 ne
          (ap (λ (n : ℕ). os.recv s.client_fd n w1)
              (let k : suc left ≡ suc size - length (b ∷ bs) = omega arith in k)
            ∙ e2)
