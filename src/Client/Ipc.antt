-- ===== src/Client/Ipc.antt =====
-- regression/src/client/ipc.c: whole buffers over a stream socket. The loops run on fuel; they end
-- by themselves only when all bytes have gone through.
pub mod Transfers
use Prim.Native.String.{String}
use knockout_kraken.Base.{
  ℕ, zero, suc, ◌-◌, List, [], ◌∷◌, ◌++◌, Option, none, some, length, drop, ℤ, is_negative,
  minus_one, if◌then◌else◌,
}
use knockout_kraken.Base.Monad.{Result, ok, err, M, pure, spin}
use knockout_kraken.Socket.{Sockets, taken, got}

-- What a loop has put into the buffer before.
abbrev pub after_bytes : {W : Type 0} → List ℕ → M W (List ℕ) → M W (List ℕ)
after_bytes bs m w = elim (m w) [
  | none ↦ none
  | some (r, w') ↦ elim r [
    | ok cs ↦ some (ok (bs ++ cs), w')
    | err code cs ↦ some (err code cs, w')
  ]
]

module _ {W : Type 0} (os : Sockets W) where
  -- `initIPC`: the descriptor is written to `*socket_fd` on every path.
  unfoldable pub init_ipc : String → M W ℤ
  init_ipc filename w =
      let (fd, w1) = os.socket w in
      let (res, w2) = os.connect fd filename w1 in
      if is_negative fd
      then some (err minus_one (some fd), w1)
      else (if is_negative res then some (err minus_one (some fd), w2) else some (ok fd, w2))

  -- The loop of `sendIPC` over the bytes that are missing, those from `curr_byte` on. A `send` that
  -- fails or takes nothing is made again.
  unfoldable pub send_ipc : ℕ → ℤ → List ℕ → M W (Unit {0})
  send_ipc fuel port [] w = pure tt w
  send_ipc zero port (b ∷ bs) w = spin w
  send_ipc (suc fuel) port (b ∷ bs) w =
      let (r, w') = os.send port (b ∷ bs) w in send_ipc fuel port (drop (taken r) (b ∷ bs)) w'

  -- The loop of `recvIPC` over the number of bytes missing. A `recv` that fails, or that finds the
  -- end of the stream, is made again.
  unfoldable pub recv_ipc : ℕ → ℤ → ℕ → M W (List ℕ)
  recv_ipc fuel port zero w = pure [] w
  recv_ipc zero port (suc missing_bytes) w = spin w
  recv_ipc (suc fuel) port (suc missing_bytes) w =
      let (r, w') = os.recv port (suc missing_bytes) w in
      after_bytes (got r) (recv_ipc fuel port (suc missing_bytes - length (got r))) w'
