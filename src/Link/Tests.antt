-- ===== src/Link/Tests.antt =====
-- A block that is written and read back through the socket.
mod Words
mod Bursts
use knockout_kraken.Base.{
  ℕ, ◌+◌, ◌-◌, ◌^◌, ◌≤◌, ◌<◌, ◌≡◌, refl, ap, ap₂, ◌∙◌, arith, false, List, [], ◌∷◌, ◌++◌, Option,
  none, some, length, take, drop, take_all, drop_all, replicate, segment, store_at, pos, minus_one,
}
use knockout_kraken.Base.Monad.{ok}
use knockout_kraken.Socket.{Sockets, Received, received, recv_failed, eagain, sent}
use knockout_kraken.Client.Fpga.{Fpga}
use knockout_kraken.Client.Rtl.{FpgaContext}
use knockout_kraken.Server.Dut.{Design, TopDut, addr_mask, power2_loop}
use knockout_kraken.Server.Ipc.{IpcServer}
use knockout_kraken.Server.Ports.{Ports}
use knockout_kraken.Server.Routine.{Setting, Shared, Piece}
use knockout_kraken.Server.Routine.Axi.{axi_round}
use knockout_kraken.Link.{Connection, Access, read, write, run, replay}
use knockout_kraken.Link.Pipe.{Pipe, empty, server_end, client_end, link}
use knockout_kraken.Link.Round.{simulator}
use knockout_kraken.Link.Calls.{IsAlike}
use knockout_kraken.Link.Pages.{linked_fetch_page-push_page}
use knockout_kraken.Client.Interface.{push_page_to_fpga, fetch_page_from_fpga}
use knockout_kraken.Link.Refinement.{linked_fpga, run_refines}

abbrev pub blank : ℕ → ℕ
blank a = 0

abbrev design : Design ℕ
design = record { eval = λ v. v; set_clock = λ n v. v; set_reset = λ n v. v }

abbrev ports : Ports ℕ
ports = record { get = λ o v. v; get_wide = λ o v. []; set = λ i n v. v; set_wide = λ i bs v. v }

abbrev dut : TopDut ℕ
dut = record {
  design = 0;
  dram = blank;
  dram_size = 2 ^ 24;
  dram_addr_mask = 2 ^ 25 - 1;
  axi_base_addr = 2 ^ 24;
  time = 0;
  ready_thread = 0;
  decoupled_count = 0;
  threads = [];
  terminating = false;
  error_occurred = false;
}

abbrev server : IpcServer
server = record { name = "/dev/shm/axi"; socket_fd = pos 3; client_fd = pos 4; error = false }

abbrev pub context : FpgaContext
context = record {
  axil_fd = minus_one;
  axi_fd = minus_one;
  dram_size = 2 ^ 24;
  base_address = record {
    axil_base = 0;
    tt = 0;
    transplant_data = 0;
    transplant_ctl = 0;
    transplant_stop_cpu = 0;
    message_queue = 0;
    dram_base = 0;
    pt_base = 0;
    page_base = 0;
    axi_base = 2 ^ 24;
    message = 0;
  };
}

abbrev setting : Setting ℕ Pipe
setting = record {
  design = design;
  ports = ports;
  os = server_end;
  tick = λ s. (false, s);
  fuel = 1;
}

abbrev round : Piece setting (Unit {0})
round = axi_round setting blank

-- While the client waits, the simulator ticks.
abbrev going_on : Pipe → TopDut ℕ → TopDut ℕ
going_on w d = record d { design = d.design + 1; time = d.time + 2; ready_thread = 0 }

abbrev connection :
    Connection
      (simulator setting 0 blank)
      round
      going_on
      (client_end round going_on)
      (pos 5)
      server.client_fd
connection = link round going_on setting 0 blank (pos 5) server.client_fd

abbrev driver : Fpga (Shared ℕ Pipe)
driver = linked_fpga setting 0 blank (client_end round going_on) 4 server connection 4 blank context

abbrev simulated : TopDut ℕ → (ℕ → ℕ) → Pipe → Shared ℕ Pipe
simulated d memory w = record { dut = record d { dram = memory }; ipc = server; world = w }

abbrev block : List ℕ
block = replicate 64 7

abbrev accesses : List Access
accesses = write 128 block ∷ read 128 64 ∷ read 0 64 ∷ []

run_refines_example :
    (d' : TopDut ℕ) × (w' : Pipe) × (run driver accesses (simulated dut blank empty)
      ≡ some (ok (block ∷ replicate 64 0 ∷ []), simulated d' (store_at blank 128 block) w'))
    × IsAlike d' dut
    × ((w'.to_server ≡ []) × (w'.to_client ≡ []))
unfolding replay segment store_at addr_mask power2_loop
run_refines_example =
    run_refines setting 0 blank (client_end round going_on) 4 server connection 4 blank context
      accesses dut blank empty refl (refl, omega arith)
      (
        (refl, refl, omega arith, omega arith, omega arith),
        (
          (refl, refl, omega arith, omega arith, omega arith),
          ((refl, refl, omega arith, omega arith, omega arith), tt),
        ),
      )
      (refl, refl)

abbrev page : List ℕ
page = replicate 4096 9

linked_fetch_page-push_page_example :
    (d1 d2 : TopDut ℕ) × (w1 w2 : Pipe) × (push_page_to_fpga driver 5000 page
        (simulated dut blank empty)
      ≡ some (ok tt, simulated d1 (store_at blank 4096 page) w1))
    × (fetch_page_from_fpga driver 4100 (simulated d1 (store_at blank 4096 page) w1)
        ≡ some (ok page, simulated d2 (store_at blank 4096 page) w2))
    × ((w2.to_server ≡ []) × (w2.to_client ≡ []))
unfolding addr_mask power2_loop
linked_fetch_page-push_page_example =
    linked_fetch_page-push_page setting 0 blank (client_end round going_on) 4 server connection 4
      blank context 5000 4100 page dut blank empty refl (refl, omega arith) refl (omega arith) refl
      refl (refl, refl)
