-- ===== src/Client/Examples/Socketed.antt =====
-- The calls over a socket that passes at most `chunk + 1` bytes at a time.
use knockout_kraken.Base.{
  ℕ, suc, ◌≡◌, refl, sym, arith, List, [], ◌∷◌, ◌++◌, some, length, take, drop, min, length-take,
  take-append-drop, ℤ, pos, minus_one,
}
use knockout_kraken.Base.Monad.{ok}
use knockout_kraken.Socket.{Sockets, sent, received, Stream}
use knockout_kraken.Client.Ipc.{send_ipc, recv_ipc}
use knockout_kraken.Client.Ipc.Transfers.{send_ipc_all, recv_ipc_all}
use knockout_kraken.Client.Rtl.{FpgaContext, rtl_defaults}

record Line : Type 0 where
  inbox : List ℕ
  outbox : List ℕ

abbrev line : ℕ → Sockets Line
line chunk = record {
  send = λ fd bs w. (
    sent (min (suc chunk) (length bs)),
    record w { outbox = w.outbox ++ take (min (suc chunk) (length bs)) bs },
  );
  recv = λ fd n w. (
    received (take (min (suc chunk) n) w.inbox),
    record w { inbox = drop (min (suc chunk) n) w.inbox },
  );
  socket = λ w. (pos 3, w);
  connect = λ fd name w. (pos 0, w);
  bind = λ fd name w. (pos 0, w);
  listen = λ fd n w. (pos 0, w);
  accept = λ fd w. (pos 4, w);
  close = λ fd w. (pos 0, w);
}

abbrev stream : (chunk : ℕ) → Stream (line chunk) (pos 3)
stream chunk = record {
  incoming = λ w. w.inbox;
  outgoing = λ w. w.outbox;
  patience = λ w. 0;
  recv_prefix = λ n w. sym (take-append-drop (min (suc chunk) n) w.inbox);
  recv_bound = λ n w. omega (arith, length-take (min (suc chunk) n) w.inbox);
  recv_progress = λ n w h k. omega (arith, length-take (min (suc chunk) n) w.inbox);
  recv_keeps = λ n w. refl;
  send_bound = λ bs w. omega arith;
  send_appends = λ bs w. refl;
  send_progress = λ bs w h. omega arith;
}

abbrev idle : Line
idle = record { inbox = 7 ∷ 0 ∷ 1 ∷ 0 ∷ 9 ∷ []; outbox = [] }

abbrev blank : ℕ → ℕ
blank a = 0

abbrev context : ℤ → FpgaContext
context fd = record {
  axil_fd = fd;
  axi_fd = fd;
  dram_size = 0;
  base_address = record {
    axil_base = 0;
    tt = 0;
    transplant_data = 0;
    transplant_ctl = 0;
    transplant_stop_cpu = 0;
    message_queue = 0;
    dram_base = 0;
    pt_base = 0;
    page_base = 0;
    axi_base = 0;
    message = 0;
  };
}

send_ipc_all_example :
    (w' : Line) × (send_ipc (line 2) 9 (pos 3) (1 ∷ 2 ∷ 3 ∷ 4 ∷ []) idle ≡ some (ok tt, w'))
    × (w'.outbox ≡ 1 ∷ 2 ∷ 3 ∷ 4 ∷ [])
send_ipc_all_example = send_ipc_all (line 2) (stream 2) 9 (1 ∷ 2 ∷ 3 ∷ 4 ∷ []) idle (omega arith)

recv_ipc_all_example :
    (bs : List ℕ) × (w' : Line) × (recv_ipc (line 2) 9 (pos 3) 4 idle ≡ some (ok bs, w'))
    × (length bs ≡ 4)
    × (idle.inbox ≡ bs ++ w'.inbox)
    × (w'.outbox ≡ [])
recv_ipc_all_example = recv_ipc_all (line 2) (stream 2) 9 4 idle (omega arith) (omega arith)

abbrev connected : FpgaContext
connected = record (rtl_defaults (context minus_one)) { axi_fd = pos 3; axil_fd = pos 3 }
