-- ===== src/Link/Tests/Bursts.antt =====
-- A page that the design stores block by block and that the client fetches through the socket.
use knockout_kraken.Base.{
  ℕ, zero, suc, ◌+◌, ◌≡◌, refl, arith, List, [], ◌∷◌, false, some, replicate, pos,
}
use knockout_kraken.Base.Monad.{ok}
use knockout_kraken.Client.Fpga.{Fpga}
use knockout_kraken.Client.Interface.{fetch_page_from_fpga}
use knockout_kraken.Server.Dut.{TopDut, addr_mask, power2_loop}
use knockout_kraken.Server.Ipc.{IpcServer}
use knockout_kraken.Server.Routine.{Setting, Shared, Piece, go}
use knockout_kraken.Server.Routine.Axi.{axi_round}
use knockout_kraken.Server.Routine.Dram.{dram_write}
use knockout_kraken.Server.Routine.Dram.Master.{asking_write, master}
use knockout_kraken.Server.Routine.Dram.Writes.{joined, WholeBlocks}
use knockout_kraken.Server.Examples.Machine.{Wires}
use knockout_kraken.Server.Examples.Machine
use knockout_kraken.Server.Examples.Bursting.{machine, own, asks, block}
use knockout_kraken.Link.{Connection}
use knockout_kraken.Link.Bursts.{linked_fetch_page-dram_write}
use knockout_kraken.Link.Pipe.{Pipe, empty, server_end, client_end, link}
use knockout_kraken.Link.Refinement.{linked_fpga}
use knockout_kraken.Link.Round.{simulator}
use knockout_kraken.Link.Tests.{context, blank}

abbrev Design : Type 0
Design = Wires master machine

abbrev setting : Setting Design Pipe
setting = record {
  design = (Machine.setting master machine).design;
  ports = (Machine.setting master machine).ports;
  os = server_end;
  tick = λ s. (false, s);
  fuel = 1;
}

all_whole : (n : ℕ) → WholeBlocks (replicate n (block 2))
all_whole zero = tt
all_whole (suc n) = (refl, all_whole n)

abbrev rest : List (List ℕ)
rest = replicate 63 (block 2)

abbrev storing : Shared Design ℕ
storing = asks (asking_write 8192 3 (block 1) rest)

abbrev server : IpcServer
server = storing.ipc

abbrev round : Piece setting (Unit {0})
round = axi_round setting blank

-- While the client waits, the simulator ticks.
abbrev going_on : Pipe → TopDut Design → TopDut Design
going_on w d = record d { time = d.time + 2; ready_thread = 0 }

abbrev connection :
    Connection
      (simulator setting 0 blank)
      round
      going_on
      (client_end round going_on)
      (pos 5)
      server.client_fd
connection = link round going_on setting 0 blank (pos 5) server.client_fd

abbrev driver : Fpga (Shared Design Pipe)
driver = linked_fpga setting 0 blank (client_end round going_on) 4 server connection 4 blank context

abbrev left : TopDut Design → (ℕ → ℕ) → Pipe → Shared Design Pipe
left d memory w = record { dut = record d { dram = memory }; ipc = server; world = w }

linked_fetch_page-dram_write_example :
    (s' : Shared Design ℕ) × (d' : TopDut Design) × (w' : Pipe) × (dram_write
        (Machine.setting master machine)
        storing
      ≡ some (go tt, s'))
    × (fetch_page_from_fpga driver 8200 (left storing.dut s'.dut.dram empty)
        ≡ some (ok (joined (block 1 ∷ rest)), left d' s'.dut.dram w'))
    × ((w'.to_server ≡ []) × (w'.to_client ≡ []))
unfolding addr_mask power2_loop
linked_fetch_page-dram_write_example =
    linked_fetch_page-dram_write setting 0 blank (client_end round going_on) 4 server connection 4
      blank context (Machine.setting master machine) own 8200 3 (block 1) rest storing storing.dut
      empty (omega arith) refl refl (refl, all_whole 63) refl refl refl refl (refl, omega arith)
      (refl, refl)
