-- ===== src/Server/Examples/Serving.antt =====
-- The routines at a design whose ports all show one level, and a socket that follows a script.
use knockout_kraken.Base.{
  ℕ, ◌-◌, ◌^◌, ◌≡◌, inr, refl, arith, false, List, [], ◌∷◌, length, replicate, length-replicate,
  store_at, pos,
}
use knockout_kraken.Socket.{Sockets, Received, received, recv_failed, eagain, sent}
use knockout_kraken.Wire.{MemoryRequest, MemoryRequestAxil, request_bytes}
use knockout_kraken.Server.Ipc.{IpcServer, set_error, reply, reply_loop}
use knockout_kraken.Server.Dut.{TopDut, addr_mask, power2_loop}
use knockout_kraken.Server.Routine.{Setting, Shared, go, wait_until, ◌>>=◌, fault, send_reply}
use knockout_kraken.Server.Routine.Axi.{replied, axi_dram_access, serve_axi, axi_round}
use knockout_kraken.Server.Routine.Dram.{write_blocks}
use knockout_kraken.Server.Routine.Memory.{Masked, axi_dram_read-write, axi_dram_overrun}
use knockout_kraken.Server.Routine.Rounds.{axi_round_whole}
use knockout_kraken.Server.Routine.Bursts.{write_blocks_within}

abbrev next : List Received → Received × List Received
next [] = (recv_failed eagain, [])
next (r ∷ rs) = (r, rs)

abbrev script : Sockets (List Received)
script = record {
  send = λ fd bs w. (sent (length bs), w);
  recv = λ fd n w. next w;
  socket = λ w. (pos 3, w);
  connect = λ fd name w. (pos 0, w);
  bind = λ fd name w. (pos 0, w);
  listen = λ fd n w. (pos 0, w);
  accept = λ fd w. (pos 4, w);
  close = λ fd w. (pos 0, w);
}

-- The design is the level that its ports show.
abbrev setting : Setting ℕ (List Received)
setting = record {
  design = record { eval = λ v. v; set_clock = λ n v. v; set_reset = λ n v. v };
  ports = record {
    get = λ o v. v;
    get_wide = λ o v. replicate 64 1;
    set = λ i n v. v;
    set_wide = λ i bs v. v;
  };
  os = script;
  tick = λ s. (false, s);
  fuel = 8;
}

abbrev blank : ℕ → ℕ
blank a = 0

abbrev dut : ℕ → TopDut ℕ
dut level = record {
  design = level;
  dram = blank;
  dram_size = 2 ^ 24;
  dram_addr_mask = 2 ^ 25 - 1;
  axi_base_addr = 2 ^ 24;
  time = 0;
  ready_thread = 0;
  decoupled_count = 0;
  threads = [];
  terminating = false;
  error_occurred = false;
}

abbrev server : IpcServer
server = record { name = "/dev/shm/axi"; socket_fd = pos 3; client_fd = pos 4; error = false }

abbrev at_level : ℕ → List Received → Shared ℕ (List Received)
at_level level script = record { dut = dut level; ipc = server; world = script }

dut-Masked : (level : ℕ) → Masked (dut level)
unfolding addr_mask power2_loop
dut-Masked level = (refl, omega arith)

abbrev four_words : List ℕ
four_words = 1 ∷ 2 ∷ 3 ∷ 4 ∷ []

abbrev small_write : ℕ → MemoryRequest
small_write addr = record { addr = addr; byte_size = 4; is_write = 1; w_data = four_words }

abbrev stored_at : ℕ → List ℕ → Shared ℕ (List Received)
stored_at addr bs = record {
  dut = record (dut 0) { dram = store_at blank addr bs };
  ipc = server;
  world = [];
}

axi_dram_read-write_example :
    axi_dram_access setting (record (small_write 64) { is_write = 0 }) (stored_at 64 four_words)
    ≡ (send_reply setting four_words >>= replied setting) (stored_at 64 four_words)
unfolding axi_dram_access reply reply_loop
axi_dram_read-write_example =
    axi_dram_read-write setting (small_write 64) (at_level 0 []) (stored_at 64 four_words)
      (dut-Masked 0) (omega arith) refl (omega arith) refl refl refl

abbrev long_write : MemoryRequest
long_write = record {
  addr = 2 ^ 24 - 4;
  byte_size = 8;
  is_write = 1;
  w_data = 1 ∷ 2 ∷ 3 ∷ 4 ∷ 5 ∷ 6 ∷ 7 ∷ 8 ∷ [];
}

axi_dram_overrun_example : store_at blank (2 ^ 24 - 4) long_write.w_data (2 ^ 24) ≡ 5
unfolding axi_dram_access reply reply_loop
axi_dram_overrun_example =
    axi_dram_overrun setting long_write (at_level 0 []) (stored_at (2 ^ 24 - 4) long_write.w_data)
      (dut-Masked 0) (omega arith) refl (omega arith) (omega arith) refl refl

abbrev axil_read : MemoryRequestAxil
axil_read = record { addr = 0x9004; byte_size = 4; is_write = 0; w_data = 7 }

abbrev page_write : MemoryRequest
page_write = record { addr = 0x1000; byte_size = 4096; is_write = 1; w_data = replicate 4096 9 }

abbrev zeros : List ℕ
zeros = 0 ∷ 0 ∷ 0 ∷ 0 ∷ []

axi_round_whole_example :
    axi_round setting blank (at_level 1 (received (request_bytes page_write zeros) ∷ []))
    ≡ serve_axi setting page_write (at_level 1 [])
axi_round_whole_example =
    axi_round_whole setting blank page_write zeros
      (at_level 1 (received (request_bytes page_write zeros) ∷ [])) refl refl
      (omega arith, omega arith, omega arith) (length-replicate {A = ℕ} 4096 9) refl refl

abbrev closed_by_client : Shared ℕ (List Received)
closed_by_client = fault setting (record { dut = dut 1; ipc = set_error server; world = [] })

abbrev two_blocks : Shared ℕ (List Received)
two_blocks = record {
  dut = record (dut 1) {
    dram = store_at (store_at blank 128 (replicate 64 1)) 192 (replicate 64 1);
  };
  ipc = server;
  world = [];
}

write_blocks_within_example :
    store_at (store_at blank 128 (replicate 64 1)) 192 (replicate 64 1) 256 ≡ 0
unfolding write_blocks wait_until
write_blocks_within_example =
    write_blocks_within setting (λ s b. refl) (λ v. refl) 128 2 (at_level 1 []) two_blocks (go tt)
      256 refl refl (inr (omega arith))

abbrev design_read : MemoryRequest
design_read = record { addr = 2 ^ 24; byte_size = 64; is_write = 0; w_data = replicate 4096 0 }

-- A design whose ports are always up.
abbrev always_up : Setting ℕ (List Received)
always_up = record setting {
  ports = record {
    get = λ o v. 1;
    get_wide = λ o v. replicate 64 1;
    set = λ i n v. v;
    set_wide = λ i bs v. v;
  };
}
