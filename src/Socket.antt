-- ===== src/Socket.antt =====
-- The socket calls of the operating system, which both sides of the simulator's connection use. They
-- are no code of the repository: a development over them takes them as a parameter, and what it
-- needs of them as a record of laws.
use Prim.Native.String.{String}
use knockout_kraken.Base.{ℕ, ◌+◌, ◌≤◌, ◌<◌, ◌≡◌, List, [], ◌++◌, length, take, ℤ}

pub data Errno : Type 0 where
  eagain epipe other : Errno

-- What `send` returns: the number of bytes taken, or -1 with `errno`.
pub data Sent : Type 0 where
  sent : ℕ → Sent
  send_failed : Errno → Sent

-- What `recv` returns: the bytes put into the buffer, none at the end of the stream, or -1.
pub data Received : Type 0 where
  received : List ℕ → Received
  recv_failed : Errno → Received

-- A socket file goes by its name. The flags of the calls are left out, as they are constant.
pub record Sockets (W : Type 0) : Type 0 where
  pub send : ℤ → List ℕ → W → Sent × W
  pub recv : ℤ → ℕ → W → Received × W
  pub socket : W → ℤ × W
  pub connect : ℤ → String → W → ℤ × W
  pub bind : ℤ → String → W → ℤ × W
  pub listen : ℤ → ℕ → W → ℤ × W
  pub accept : ℤ → W → ℤ × W
  pub close : ℤ → W → ℤ × W

abbrev pub taken : Sent → ℕ
taken (sent k) = k
taken (send_failed e) = 0

abbrev pub got : Received → List ℕ
got (received bs) = bs
got (recv_failed e) = []

-- A connected stream socket `fd`. `incoming` is what the other side has sent or will send before it
-- needs an answer, `outgoing` what has been sent to it; `patience` bounds the calls that come back
-- with nothing while there is something to transfer.
pub record Stream {W : Type 0} (os : Sockets W) (fd : ℤ) : Type 0 where
  pub incoming : W → List ℕ
  pub outgoing : W → List ℕ
  pub patience : W → ℕ
  pub recv_prefix :
      (n : ℕ) (w : W) → incoming w ≡ got (os.recv fd n w).0 ++ incoming (os.recv fd n w).1
  pub recv_bound : (n : ℕ) (w : W) → length (got (os.recv fd n w).0) ≤ n
  pub recv_progress :
      (n : ℕ) (w : W)
      → 0 < n
      → 0 < length (incoming w)
      → patience (os.recv fd n w).1 < patience w + length (got (os.recv fd n w).0)
  pub recv_keeps : (n : ℕ) (w : W) → outgoing (os.recv fd n w).1 ≡ outgoing w
  pub send_bound : (bs : List ℕ) (w : W) → taken (os.send fd bs w).0 ≤ length bs
  pub send_appends :
      (bs : List ℕ) (w : W)
      → outgoing (os.send fd bs w).1 ≡ outgoing w ++ take (taken (os.send fd bs w).0) bs
  pub send_progress :
      (bs : List ℕ) (w : W)
      → 0 < length bs
      → patience (os.send fd bs w).1 < patience w + taken (os.send fd bs w).0
