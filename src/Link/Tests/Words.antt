-- ===== src/Link/Tests/Words.antt =====
-- A word that is written to a register and read back through the socket.
use knockout_kraken.Base.{ℕ, ◌≡◌, refl, arith, List, [], ◌∷◌, some, pos}
use knockout_kraken.Base.Monad.{ok}
use knockout_kraken.Client.Fpga.{Fpga}
use knockout_kraken.Client.Rtl.{rtl_fpga}
use knockout_kraken.Server.Ipc.{IpcServer}
use knockout_kraken.Server.Routine.{Setting, Shared, Piece}
use knockout_kraken.Server.Routine.Axil.{axil_round}
use knockout_kraken.Server.Routine.Axil.Slave.{AxilSlave, write_register}
use knockout_kraken.Server.Examples.Registers.{Bus, bus, slave, resting, blank}
use knockout_kraken.Link.{
  at_rest, Connection, WordAccess, read_word, write_word, run_words, replay_words,
}
use knockout_kraken.Link.Pipe.{Pipe, empty, server_end, client_end, link}
use knockout_kraken.Link.Words.{sim}
use knockout_kraken.Link.Registers.{Quiet, linked_words, run_words_refines}
use knockout_kraken.Link.Transplants.{linked_get_state-push_state}
use knockout_kraken.Client.Interface.{transplant_push_state, transplant_get_state}
use knockout_kraken.Link.Tests.{context}

abbrev setting : Setting Bus Pipe
setting = bus server_end

abbrev round : Piece setting (Unit {0})
round = axil_round (sim setting 7 blank) blank

abbrev server : IpcServer
server = (resting empty).ipc

abbrev own : AxilSlave (sim setting 7 blank)
own = slave server_end 7 (λ w. (w.to_server, w.to_client))

abbrev connection :
    Connection
      (sim setting 7 blank)
      round
      at_rest
      (client_end round at_rest)
      (pos 5)
      server.client_fd
connection = link round at_rest setting 7 blank (pos 5) server.client_fd

abbrev driver : Fpga (Shared Bus Pipe)
driver =
    linked_words setting 7 blank own (client_end round at_rest) 4 server connection (λ w. refl) refl
      9 blank context (λ i. omega arith)

abbrev accesses : List WordAccess
accesses = write_word 0x9004 7 ∷ read_word 0x9004 ∷ read_word 8 ∷ []

run_words_refines_example :
    (s' : Shared Bus Pipe) × (run_words driver accesses (resting empty)
      ≡ some (ok (7 ∷ 0 ∷ []), s'))
    × Quiet setting 7 blank own
        (client_end round at_rest)
        4
        server
        connection
        (λ w. refl)
        refl
        9
        blank
        context
        (λ i. omega arith)
        s'
        (write_register blank 0x9004 7)
unfolding replay_words
run_words_refines_example =
    run_words_refines setting 7 blank own (client_end round at_rest) 4 server connection (λ w. refl)
      refl 9 blank context (λ i. omega arith) accesses (resting empty) blank (λ a. omega arith)
      ((omega arith, omega arith), (omega arith, (omega arith, tt)))
      (record {
        rests = record { no_write = refl; no_read = refl; holds = refl };
        same_ipc = refl;
        asked = refl;
        answered = refl;
      })

abbrev two_registers : List ℕ
two_registers = 5 ∷ 0xFFFF_FFFF_0000_0001 ∷ []

linked_get_state-push_state_example :
    (s' s'' : Shared Bus Pipe) × (transplant_push_state driver 3 two_registers (resting empty)
      ≡ some (ok tt, s'))
    × (transplant_get_state driver 3 2 s' ≡ some (ok two_registers, s''))
unfolding rtl_fpga
linked_get_state-push_state_example =
    linked_get_state-push_state setting 7 blank own (client_end round at_rest) 4 server connection
      (λ w. refl) refl 9 blank context (λ i. omega arith) 3 two_registers (resting empty) blank
      (λ a. omega arith)
      (record {
        rests = record { no_write = refl; no_read = refl; holds = refl };
        same_ipc = refl;
        asked = refl;
        answered = refl;
      })
      (omega arith, omega arith, omega arith, omega arith) (omega arith, (omega arith, tt))
