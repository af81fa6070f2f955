-- ===== src/Link/Registers.antt =====
-- Client, sockets and simulator together are a bank of registers.
use knockout_kraken.Base.{
  ℕ, suc, ◌^◌, ◌<◌, ◌≡◌, refl, ap, arith, false, List, [], ◌∷◌, some, All, pos, of_le,
  of_le-le_bytes, segment,
}
use knockout_kraken.Base.Monad.{ok, ◌>>=◌, ◌>>◌}
use knockout_kraken.Socket.{Sockets}
use knockout_kraken.Wire.{MemoryRequestAxil}
use knockout_kraken.Client.Fpga.{Fpga}
use knockout_kraken.Client.Rtl.{FpgaContext, rtl_fpga, read_axil, write_axil}
use knockout_kraken.Server.Ipc.{IpcServer}
use knockout_kraken.Server.Routine.{Setting, Shared}
use knockout_kraken.Server.Routine.Axil.{axil_round}
use knockout_kraken.Server.Routine.Axil.Slave.{AxilSlave, write_register}
use knockout_kraken.Link.{
  at_rest, Connection, WordAccess, read_word, write_word, run_words, replay_words,
}
use knockout_kraken.Link.Words.{sim, Between, context, exchanged}

-- 32-bit addresses and words.
abbrev pub Fits : WordAccess → Type 0
Fits (read_word addr) = addr < 2 ^ 32
Fits (write_word addr word) = (addr < 2 ^ 32) × (word < 2 ^ 32)

abbrev pub Bounded : (ℕ → ℕ) → Type 0
Bounded c = (a : ℕ) → c a < 2 ^ 32

pub write_register-Bounded :
    (registers : ℕ → ℕ) (addr word : ℕ)
    → Bounded registers
    → word < 2 ^ 32
    → Bounded (write_register registers addr word)
write_register-Bounded registers addr word h k a = ground (arith, h a)

of_le-bytes : (c : ℕ → ℕ) (a : ℕ) → ((i : ℕ) → c i < 256) → of_le (segment c a 4) < 2 ^ 32
unfolding segment
of_le-bytes c a h = omega (arith, h a, h (suc a), h (suc (suc a)), h (suc (suc (suc a))))

module _ {V W : Type 0} (y : Setting V W) (fuel : ℕ) (uninit : ℕ → ℕ) where
  module _ (slave : AxilSlave (sim y fuel uninit)) (client : Sockets (Shared V W)) (port : ℕ)
      (ipc : IpcServer) where
    module _
        (link : Connection
          (sim y fuel uninit)
          (axil_round (sim y fuel uninit) uninit)
          at_rest
          client
          (pos (suc port))
          ipc.client_fd) where
      module _ (agree : (w : W) → slave.under_way w ≡ (link.to_server w, link.to_client w))
          (ne : ipc.error ≡ false) where
        module _ (client_fuel : ℕ) (stale : ℕ → ℕ) (c : FpgaContext)
            (stale_bytes : (i : ℕ) → stale i < 256) where
          -- Between two accesses.
          abbrev pub Quiet : Shared V W → (ℕ → ℕ) → Type 0
          Quiet s registers = Between y fuel uninit slave client port ipc link s registers [] []

          abbrev open_context : FpgaContext
          open_context =
              context y fuel uninit slave client port ipc link agree ne client_fuel stale c

          pub read_axil_linked :
              (addr : ℕ) (s : Shared V W) (registers : ℕ → ℕ)
              → addr < 2 ^ 32
              → Bounded registers
              → Quiet s registers
              → (s' : Shared V W) × (read_axil client (suc client_fuel) stale open_context addr s
                  ≡ some (ok (registers addr), s'))
                × Quiet s' registers
          unfolding read_axil
          read_axil_linked addr s registers small bounded b =
              let r : MemoryRequestAxil = record {
                addr = addr;
                byte_size = 4;
                is_write = 0;
                w_data = of_le (segment stale 20 4);
              } in
              let t =
                exchanged y fuel uninit slave client port ipc link agree ne client_fuel stale c r s
                  registers small (omega arith) refl (of_le-bytes stale 20 stale_bytes) refl b in
              (
                t.after,
                rw (t.sent_, ◌>>=◌, ◌>>◌, t.got_)
                    (ap (λ (w : ℕ). some (ok w, t.after))
                      (of_le-le_bytes 4 (registers addr) (omega (arith, bounded addr)))),
                t.quiet,
              )

          pub write_axil_linked :
              (addr word : ℕ) (s : Shared V W) (registers : ℕ → ℕ)
              → addr < 2 ^ 32
              → word < 2 ^ 32
              → Quiet s registers
              → (s' : Shared V W) × (write_axil client
                    (suc client_fuel)
                    stale
                    open_context
                    addr
                    word
                    s
                  ≡ some (ok tt, s'))
                × Quiet s' (write_register registers addr word)
          unfolding write_axil
          write_axil_linked addr word s registers small fits b =
              let r : MemoryRequestAxil = record {
                addr = addr;
                byte_size = 4;
                is_write = 1;
                w_data = word;
              } in
              let t =
                exchanged y fuel uninit slave client port ipc link agree ne client_fuel stale c r s
                  registers small (omega arith) refl fits refl b in
              (t.after, rw (t.sent_, ◌>>=◌, ◌>>◌, t.got_) refl, t.quiet)

          -- The driver on its open socket.
          abbrev pub linked_words : Fpga (Shared V W)
          linked_words = rtl_fpga client (suc client_fuel) stale open_context

          -- The driver, its open socket and the AXI-Lite routine together are a bank of registers.
          -- Over a design that is such a bank behind its AXI-Lite port, with registers of 32 bits,
          -- between transactions, a connection with nothing under way that other threads leave
          -- alone, in a simulator that does not end and in which nothing happens but the rounds
          -- that the client waits for and their ticks, no error pending at the server, positive
          -- fuel on both sides, and bytes in the client's uninitialised memory: any sequence of
          -- reads and writes of 32-bit words at 32-bit addresses returns 0, its reads return what
          -- they return on a plain function from addresses to words, the bank ends as that function
          -- does, and the port and the connection are as at the start.
          pub run_words_refines :
              (accesses : List WordAccess) (s : Shared V W) (registers : ℕ → ℕ)
              → Bounded registers
              → All Fits accesses
              → Quiet s registers
              → (s' : Shared V W) × (run_words linked_words accesses s
                  ≡ some (ok (replay_words accesses registers).0, s'))
                × Quiet s' (replay_words accesses registers).1
          unfolding run_words replay_words rtl_fpga
          run_words_refines [] s registers bounded h b = (s, refl, b)
          run_words_refines (read_word addr ∷ rest) s registers bounded (small, h) b =
              let (s1, e1, b1) = read_axil_linked addr s registers small bounded b in
              let (s2, e2, b2) = run_words_refines rest s1 registers bounded h b1 in
              (s2, rw (e1, ◌>>=◌, e2) refl, b2)
          run_words_refines (write_word addr word ∷ rest) s registers bounded ((small, fits), h) b =
              let (s1, e1, b1) = write_axil_linked addr word s registers small fits b in
              let (s2, e2, b2) =
                run_words_refines rest s1 (write_register registers addr word)
                  (write_register-Bounded registers addr word bounded fits) h b1 in
              (s2, rw (e1, ◌>>=◌, ◌>>◌) e2, b2)
