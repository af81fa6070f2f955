-- ===== src/Server/Examples/Starting.antt =====
-- A system whose calls all fail.
use Prim.Native.String.{String}
use knockout_kraken.Base.{ℕ, ◌+◌, ◌-◌, ◌^◌, ◌≡◌, refl, false, [], pos, minus_one}
use knockout_kraken.Socket.{Sockets, send_failed, recv_failed, other}
use knockout_kraken.Server.Dut.{Design}
use knockout_kraken.Server.Ipc.{IpcServer, set_error, wait_for_client}
use knockout_kraken.Server.Routine.{Setting, Shared, ◌>>◌, join, tick_once, fault}
use knockout_kraken.Server.Routine.Axil.{axil_round}
use knockout_kraken.Server.Routine.Axi.{axi_round}
use knockout_kraken.Server.Start.Refused.{refused_client}

abbrev broken : Sockets ℕ
broken = record {
  send = λ fd bs w. (send_failed other, w);
  recv = λ fd n w. (recv_failed other, w);
  socket = λ w. (minus_one, w);
  connect = λ fd name w. (minus_one, w);
  bind = λ fd name w. (minus_one, w);
  listen = λ fd n w. (minus_one, w);
  accept = λ fd w. (minus_one, w);
  close = λ fd w. (minus_one, w);
}

abbrev design : Design ℕ
design = record { eval = λ v. v; set_clock = λ n v. v; set_reset = λ n v. v }

abbrev blank : ℕ → ℕ
blank a = 0

abbrev counted_removal : String → ℕ → ℕ
counted_removal name w = w + 1

abbrev setting : Setting ℕ ℕ
setting = record {
  design = design;
  ports = record { get = λ o v. v; get_wide = λ o v. []; set = λ i n v. v; set_wide = λ i bs v. v };
  os = broken;
  tick = λ s. (false, s);
  fuel = 8;
}

abbrev listening : IpcServer
listening = record {
  name = "/dev/shm/axi";
  socket_fd = pos 3;
  client_fd = minus_one;
  error = false;
}

abbrev refused : Shared ℕ ℕ
refused = record {
  dut = record {
    design = 0;
    dram = blank;
    dram_size = 2 ^ 24;
    dram_addr_mask = 2 ^ 25 - 1;
    axi_base_addr = 2 ^ 24;
    time = 0;
    ready_thread = 0;
    decoupled_count = 0;
    threads = [];
    terminating = false;
    error_occurred = false;
  };
  ipc = set_error listening;
  world = 0;
}

refused_client_example :
    (axil_round setting blank refused ≡ (tick_once setting >> join) (fault setting refused))
    × (axi_round setting blank refused ≡ (tick_once setting >> join) (fault setting refused))
unfolding wait_for_client
refused_client_example = refused_client setting blank listening 0 0 refused refl refl
