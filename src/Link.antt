-- ===== src/Link.antt =====
-- The driver of regression/src/client/fpga_rtl.c with regression/src/client/ipc.c, connected to a
-- routine of regression/src/server/subroutine.cc with regression/src/server/ipc.cc. What the two ends of
-- the socket do is a record of laws.
pub mod Round
pub mod Calls
pub mod Refinement
pub mod Words
pub mod Registers
pub mod Pages
pub mod Transplants
pub mod Bursts
mod Pipe
mod Tests
use knockout_kraken.Base.{ℕ, ◌≤◌, ◌<◌, ◌≡◌, List, [], ◌∷◌, ◌++◌, some, length, ℤ, segment, store_at}
use knockout_kraken.Base.Monad.{M, pure, ◌>>=◌, ◌>>◌}
use knockout_kraken.Socket.{Sockets, received, sent}
use knockout_kraken.Client.Fpga.{Fpga}
use knockout_kraken.Server.Dut.{TopDut}
use knockout_kraken.Server.Routine.Axil.Slave.{write_register}
use knockout_kraken.Server.Routine.{Setting, Shared, Piece, go}

-- What has become of the object while the simulator goes on, by ticks and by the work of its threads: the
-- design, the time and the threads are as `elapse` says, but no byte of the DRAM is written, and its
-- size and mask stay.
abbrev pub elapsed : {V W : Type 0} → (W → TopDut V → TopDut V) → W → TopDut V → TopDut V
elapsed elapse w d = record (elapse w d) {
  dram = d.dram;
  dram_size = d.dram_size;
  dram_addr_mask = d.dram_addr_mask;
}

-- Nothing happens.
abbrev pub at_rest : {V W : Type 0} → W → TopDut V → TopDut V
at_rest w d = d

-- A socket between the client, which calls `client` on `fd`, and the simulator, which calls `x.os` on
-- `server_fd`. `to_server` and `to_client` are the bytes under way. A send takes all of its bytes; a
-- recv gives the bytes that are there, when they are no more than asked for; a recv of the client that
-- finds nothing waits while the simulator goes on, by `elapse`, and the routine then does a round, and
-- gives what that has sent.
pub record Connection {V W : Type 0} (x : Setting V W) (round : Piece x (Unit {0}))
    (elapse : W → TopDut V → TopDut V) (client : Sockets (Shared V W)) (fd server_fd : ℤ)
    : Type 0 where
  pub to_server : W → List ℕ
  pub to_client : W → List ℕ
  pub client_send :
      (bs : List ℕ) (s : Shared V W)
      → (w' : W) × (client.send fd bs s ≡ (sent (length bs), record s { world = w' }))
        × (to_server w' ≡ to_server s.world ++ bs)
        × (to_client w' ≡ to_client s.world)
  pub server_recv :
      (n : ℕ) (w : W)
      → 0 < length (to_server w)
      → length (to_server w) ≤ n
      → (w' : W) × (x.os.recv server_fd n w ≡ (received (to_server w), w'))
        × (to_server w' ≡ [])
        × (to_client w' ≡ to_client w)
  pub server_send :
      (bs : List ℕ) (w : W)
      → (w' : W) × (x.os.send server_fd bs w ≡ (sent (length bs), w'))
        × (to_server w' ≡ to_server w)
        × (to_client w' ≡ to_client w ++ bs)
  pub client_recv :
      (n : ℕ) (s s' : Shared V W)
      → to_client s.world ≡ []
      → round (record s { dut = elapsed elapse s.world s.dut }) ≡ some (go tt, s')
      → 0 < length (to_client s'.world)
      → length (to_client s'.world) ≤ n
      → (w' : W) × (client.recv fd n s ≡ (received (to_client s'.world), record s' { world = w' }))
        × (to_server w' ≡ to_server s'.world)
        × (to_client w' ≡ [])

-- Accesses to the memory of the FPGA.
pub data Access : Type 0 where
  read : ℕ → ℕ → Access
  write : ℕ → List ℕ → Access

-- They are made in order; the result is what the reads have returned.
unfoldable pub run : {W : Type 0} → Fpga W → List Access → M W (List (List ℕ))
run fpga [] = pure []
run fpga (read addr n ∷ rest) = do
  bytes ← fpga.read_axi addr n
  answers ← run fpga rest
  pure (bytes ∷ answers)
run fpga (write addr bytes ∷ rest) = do fpga.write_axi addr bytes; run fpga rest

-- The same accesses on a memory that is a function.
unfoldable pub replay : List Access → (ℕ → ℕ) → List (List ℕ) × (ℕ → ℕ)
replay [] memory = ([], memory)
replay (read addr n ∷ rest) memory =
    let (answers, memory') = replay rest memory in (segment memory addr n ∷ answers, memory')
replay (write addr bytes ∷ rest) memory = replay rest (store_at memory addr bytes)

-- Accesses to the registers of the FPGA.
pub data WordAccess : Type 0 where
  read_word : ℕ → WordAccess
  write_word : ℕ → ℕ → WordAccess

unfoldable pub run_words : {W : Type 0} → Fpga W → List WordAccess → M W (List ℕ)
run_words fpga [] = pure []
run_words fpga (read_word addr ∷ rest) = do
  word ← fpga.read_axil addr
  answers ← run_words fpga rest
  pure (word ∷ answers)
run_words fpga (write_word addr word ∷ rest) = do fpga.write_axil addr word; run_words fpga rest

-- The same accesses on a bank of registers.
unfoldable pub replay_words : List WordAccess → (ℕ → ℕ) → List ℕ × (ℕ → ℕ)
replay_words [] registers = ([], registers)
replay_words (read_word addr ∷ rest) registers =
    let (answers, registers') = replay_words rest registers in
    (registers addr ∷ answers, registers')
replay_words (write_word addr word ∷ rest) registers =
    replay_words rest (write_register registers addr word)
