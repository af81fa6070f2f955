-- ===== src/Server/Ipc.antt =====
-- regression/src/server/ipc.cc: the server's end of a socket. A memory address is an offset from the
-- object that `msg` points to.
pub mod Requests
pub mod Replies
use Prim.Native.String.{String}
use knockout_kraken.Base.{
  ℕ, zero, suc, ◌+◌, ◌-◌, ◌*◌, List, [], ◌∷◌, Option, none, some, length, drop, ℤ, pos, Bool, true,
  false, is_negative, is_positive, minus_one, if◌then◌else◌, store_at,
}
use knockout_kraken.Socket.{
  Sockets, Errno, eagain, epipe, other, Sent, sent, send_failed, Received, received, recv_failed,
}
use knockout_kraken.Wire.{sizeof_axil, sizeof_request}

pub record IpcServer : Type 0 where
  pub name : String
  pub socket_fd : ℤ
  pub client_fd : ℤ
  pub error : Bool

abbrev pub set_error : IpcServer → IpcServer
set_error s = record s { error = true }

-- What a request loop leaves: its result, the server, the memory at `msg`, the world.
pub record Polled (W : Type 0) : Type 0 where
  pub done : Bool
  pub server : IpcServer
  pub mem : ℕ → ℕ
  pub world : W

-- The body of the request loop: the error flag, which is tested before `recv` is called, then what
-- `recv` returned. `next` is the rest of the loop.
abbrev pub after_recv :
    {W : Type 0}
    → (List ℕ → W → Option (Polled W))
    → Bool
    → IpcServer
    → (ℕ → ℕ)
    → W
    → Received × W
    → Option (Polled W)
after_recv next true s mem w r = some (record { done = false; server = s; mem = mem; world = w })
after_recv next false s mem w (recv_failed eagain, w') =
    some (record { done = false; server = s; mem = mem; world = w' })
after_recv next false s mem w (recv_failed epipe, w') =
    some (record { done = false; server = set_error s; mem = mem; world = w' })
after_recv next false s mem w (recv_failed other, w') =
    some (record { done = false; server = set_error s; mem = mem; world = w' })
after_recv next false s mem w (received [], w') =
    some (record { done = false; server = set_error s; mem = mem; world = w' })
after_recv next false s mem w (received (b ∷ bs), w') = next (b ∷ bs) w'

-- The body of the reply loop, likewise.
abbrev pub after_send :
    {W : Type 0}
    → (ℕ → W → Option (Bool × IpcServer × W))
    → Bool
    → IpcServer
    → W
    → Sent × W
    → Option (Bool × IpcServer × W)
after_send next true s w r = some (false, s, w)
after_send next false s w (send_failed epipe, w') = some (false, set_error s, w')
after_send next false s w (send_failed eagain, w') = some (false, s, w')
after_send next false s w (send_failed other, w') = some (false, s, w')
after_send next false s w (sent k, w') = next k w'

module _ {W : Type 0} (os : Sockets W) where
  -- The constructor. `client_fd` is assigned last: on an error it keeps what was in its place.
  unfoldable pub open_server : String → ℤ → W → IpcServer × W
  open_server name uninit w =
      let (fd, w1) = os.socket w in
      let s : IpcServer = record {
        name = name;
        socket_fd = fd;
        client_fd = uninit;
        error = false;
      } in
      let (bound, w2) = os.bind fd name w1 in
      let (listening, w3) = os.listen fd 1 w2 in
      if is_negative fd
      then (set_error s, w1)
      else (if is_negative bound
          then (set_error s, w2)
          else (if is_negative listening
              then (set_error s, w3)
              else (record s { client_fd = minus_one }, w3)))

  close_open : ℤ → W → W
  close_open fd w = if is_positive fd then (os.close fd w).1 else w

  -- The destructor.
  unfoldable pub close_server : IpcServer → W → W
  unfolding close_open
  close_server s w = close_open s.client_fd (close_open s.socket_fd w)

  unfoldable pub wait_for_client : IpcServer → W → Bool × IpcServer × W
  wait_for_client s w =
      let (fd, w1) = os.accept s.socket_fd w in
      if s.error
      then (false, s, w)
      else (if is_negative fd
          then (false, set_error (record s { client_fd = fd }), w1)
          else (true, record s { client_fd = fd }, w1))

  -- The loop of `getRequestAXIL` and `getRequestAXI`, which differ in `size`, the size of the struct:
  -- `&msg[curr_byte]` is `curr_byte` structs behind `msg`. Each round receives a byte or returns, so
  -- fuel for `missing_bytes` rounds is enough.
  pub request_loop :
      (size fuel missing_bytes curr_byte : ℕ) → IpcServer → (ℕ → ℕ) → W → Option (Polled W)
  request_loop size fuel zero curr_byte s mem w =
      some (record { done = true; server = s; mem = mem; world = w })
  request_loop size zero (suc missing_bytes) curr_byte s mem w = none
  request_loop size (suc fuel) (suc missing_bytes) curr_byte s mem w =
      after_recv
        (λ bs w'.
          request_loop size fuel (suc missing_bytes - length bs) (curr_byte + length bs) s
            (store_at mem (curr_byte * size) bs) w')
        s.error s mem w (os.recv s.client_fd (suc missing_bytes) w)

  unfoldable pub get_request_axil : IpcServer → (ℕ → ℕ) → W → Option (Polled W)
  get_request_axil = request_loop sizeof_axil sizeof_axil sizeof_axil 0

  unfoldable pub get_request_axi : IpcServer → (ℕ → ℕ) → W → Option (Polled W)
  get_request_axi = request_loop sizeof_request sizeof_request sizeof_request 0

  -- The loop of `reply` over the bytes from `curr_byte` on. A `send` that takes nothing is made again.
  unfoldable pub reply_loop : ℕ → IpcServer → List ℕ → W → Option (Bool × IpcServer × W)
  reply_loop fuel s [] w = some (true, s, w)
  reply_loop zero s (b ∷ bs) w = none
  reply_loop (suc fuel) s (b ∷ bs) w =
      after_send (λ k w'. reply_loop fuel s (drop k (b ∷ bs)) w') s.error s w
        (os.send s.client_fd (b ∷ bs) w)

  -- `data` is given as its `word_count*4` bytes.
  unfoldable pub reply : ℕ → IpcServer → List ℕ → W → Option (Bool × IpcServer × W)
  reply fuel s bytes w = reply_loop fuel s bytes w
