-- ===== src/Link/Transplants.antt =====
-- Thread states of the client interface, in the registers of the simulated design.
use knockout_kraken.Base.{ℕ, suc, ◌^◌, ◌<◌, ◌≡◌, refl, false, List, some, length, All, pos}
use knockout_kraken.Base.Monad.{ok}
use knockout_kraken.Socket.{Sockets}
use knockout_kraken.Client.Rtl.{FpgaContext, rtl_fpga}
use knockout_kraken.Client.Interface.{transplant_push_state, transplant_get_state}
use knockout_kraken.Client.Interface.Registers.{RegisterFile, Window, get_state-push_state}
use knockout_kraken.Server.Ipc.{IpcServer}
use knockout_kraken.Server.Routine.{Setting, Shared}
use knockout_kraken.Server.Routine.Axil.{axil_round}
use knockout_kraken.Server.Routine.Axil.Slave.{AxilSlave, write_register}
use knockout_kraken.Link.{at_rest, Connection}
use knockout_kraken.Link.Words.{sim}
use knockout_kraken.Link.Registers.{
  Bounded, write_register-Bounded, Quiet, linked_words, read_axil_linked, write_axil_linked,
}

module _ {V W : Type 0} (y : Setting V W) (fuel : ℕ) (uninit : ℕ → ℕ) where
  module _ (slave : AxilSlave (sim y fuel uninit)) (client : Sockets (Shared V W)) (port : ℕ)
      (ipc : IpcServer) where
    module _
        (link : Connection
          (sim y fuel uninit)
          (axil_round (sim y fuel uninit) uninit)
          at_rest
          client
          (pos (suc port))
          ipc.client_fd) where
      module _ (agree : (w : W) → slave.under_way w ≡ (link.to_server w, link.to_client w))
          (ne : ipc.error ≡ false) where
        module _ (client_fuel : ℕ) (stale : ℕ → ℕ) (c : FpgaContext)
            (stale_bytes : (i : ℕ) → stale i < 256) where
          abbrev Rest : Shared V W → (ℕ → ℕ) → Type 0
          Rest s registers =
              Quiet y fuel uninit slave client port ipc link agree ne client_fuel stale c
                stale_bytes s registers
              × Bounded registers

          -- The whole link is a device that keeps its words.
          pub linked_file :
              RegisterFile
                (linked_words y fuel uninit slave client port ipc link agree ne client_fuel stale c
                  stale_bytes)
                0
                (2 ^ 32)
          unfolding rtl_fpga
          linked_file = record {
            Holds = Rest;
            bounded = λ s registers a h. h.1 a;
            reads = λ a s registers h l u.
                let (s', e, q) =
                  read_axil_linked y fuel uninit slave client port ipc link agree ne client_fuel
                    stale c stale_bytes a s registers u h.1 h.0 in
                (s', e, (q, h.1));
            writes = λ a v s registers h l u small.
                let (s', e, q) =
                  write_axil_linked y fuel uninit slave client port ipc link agree ne client_fuel
                    stale c stale_bytes a v s registers u small h.0 in
                (
                  s',
                  write_register registers a v,
                  e,
                  (q, write_register-Bounded registers a v h.1 small),
                  λ b. refl,
                );
          }

          -- Over a design that is a bank of 32-bit registers behind its AXI-Lite port, between
          -- transactions, a connection with nothing under way that other threads leave alone, in a
          -- simulator that does not end and in which nothing happens but the rounds that the client
          -- waits for and their ticks, no error pending at the server, positive fuel on both sides,
          -- and bytes in the client's uninitialised memory: a state of at most 64 registers of 64
          -- bits that the client pushes for a thread, whose window lies below 2^32, through its
          -- driver and the simulator is got back whole, and both calls return 0.
          pub linked_get_state-push_state :
              (thread_id : ℕ) (state : List ℕ) (s : Shared V W) (registers : ℕ → ℕ)
              → Bounded registers
              → Quiet y fuel uninit slave client port ipc link agree ne client_fuel stale c
                  stale_bytes s registers
              → Window
                  (linked_words y fuel uninit slave client port ipc link agree ne client_fuel stale
                    c stale_bytes)
                  linked_file
                  thread_id
                  (length state)
              → All (λ x. x < 2 ^ 64) state
              → (s' s'' : Shared V W) × (transplant_push_state
                    (linked_words y fuel uninit slave client port ipc link agree ne client_fuel
                      stale c stale_bytes)
                    thread_id
                    state
                    s
                  ≡ some (ok tt, s'))
                × (transplant_get_state
                      (linked_words y fuel uninit slave client port ipc link agree ne client_fuel
                        stale c stale_bytes)
                      thread_id
                      (length state)
                      s'
                    ≡ some (ok state, s''))
          unfolding linked_file
          linked_get_state-push_state thread_id state s registers bounded quiet fits small =
              get_state-push_state
                (linked_words y fuel uninit slave client port ipc link agree ne client_fuel stale c
                  stale_bytes)
                linked_file thread_id state s registers (quiet, bounded) fits small
