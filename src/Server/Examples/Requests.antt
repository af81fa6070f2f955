-- ===== src/Server/Examples/Requests.antt =====
-- The server at a socket that follows a script: what `recv` and `send` return, in order.
use knockout_kraken.Base.{
  ℕ, ◌^◌, ◌≤◌, ◌<◌, ◌≡◌, refl, arith, bit_and, true, false, List, [], ◌∷◌, ◌++◌, some, length, take,
  min, pos, replicate, store_at,
}
use knockout_kraken.Socket.{Sockets, Stream, sent, Received, received, recv_failed, eagain}
use knockout_kraken.Wire.{MemoryRequest, MemoryRequestAxil}
use knockout_kraken.Server.Ipc.{IpcServer, Polled, request_loop, reply}
use knockout_kraken.Server.Ipc.Requests.Split.{split_struct_stale, split_struct_dropped}
use knockout_kraken.Server.Ipc.Replies.{reply_steady}
use knockout_kraken.Server.Dut.{addr_mask}
use knockout_kraken.Server.Dut.Mask.{addr_mask_keeps}

abbrev next : List Received → Received × List Received
next [] = (recv_failed eagain, [])
next (r ∷ rs) = (r, rs)

abbrev script : Sockets (List Received)
script = record {
  send = λ fd bs w. (sent (length bs), w);
  recv = λ fd n w. next w;
  socket = λ w. (pos 3, w);
  connect = λ fd name w. (pos 0, w);
  bind = λ fd name w. (pos 0, w);
  listen = λ fd n w. (pos 0, w);
  accept = λ fd w. (pos 4, w);
  close = λ fd w. (pos 0, w);
}

abbrev server : IpcServer
server = record { name = "/dev/shm/axi"; socket_fd = pos 3; client_fd = pos 4; error = false }

abbrev blank : ℕ → ℕ
blank a = 0

abbrev axil_read : MemoryRequestAxil
axil_read = record { addr = 0x9004; byte_size = 4; is_write = 0; w_data = 7 }

abbrev page_write : MemoryRequest
page_write = record { addr = 0x1000; byte_size = 4096; is_write = 1; w_data = replicate 4096 9 }

abbrev zeros : List ℕ
zeros = 0 ∷ 0 ∷ 0 ∷ 0 ∷ []

split_struct_stale_example :
    (p : Polled (List Received)) × (request_loop script 4 4 4 0 server blank
        (received (1 ∷ 2 ∷ []) ∷ received (3 ∷ 4 ∷ []) ∷ [])
      ≡ some p)
    × (p.done ≡ true)
    × ((x : ℕ) → 2 ≤ x → x < 4 → p.mem x ≡ 0)
split_struct_stale_example =
    split_struct_stale script 3 server blank (received (1 ∷ 2 ∷ []) ∷ received (3 ∷ 4 ∷ []) ∷ [])
      (received (3 ∷ 4 ∷ []) ∷ []) [] 1 3 (2 ∷ []) (4 ∷ []) refl refl refl refl

split_struct_dropped_example :
    request_loop script 4 4 4 0 server blank (received (1 ∷ 2 ∷ []) ∷ recv_failed eagain ∷ [])
    ≡ some
        (record { done = false; server = server; mem = store_at blank 0 (1 ∷ 2 ∷ []); world = [] })
split_struct_dropped_example =
    split_struct_dropped script 3 server blank (received (1 ∷ 2 ∷ []) ∷ recv_failed eagain ∷ [])
      (recv_failed eagain ∷ []) [] 1 (2 ∷ []) refl (omega arith) refl refl

-- A socket that takes at most three bytes at a time; its state is what it has taken.
abbrev narrow : Sockets (List ℕ)
narrow = record {
  send = λ fd bs w. (sent (min 3 (length bs)), w ++ take (min 3 (length bs)) bs);
  recv = λ fd n w. (recv_failed eagain, w);
  socket = λ w. (pos 3, w);
  connect = λ fd name w. (pos 0, w);
  bind = λ fd name w. (pos 0, w);
  listen = λ fd n w. (pos 0, w);
  accept = λ fd w. (pos 4, w);
  close = λ fd w. (pos 0, w);
}

abbrev narrow_stream : Stream narrow (pos 4)
narrow_stream = record {
  incoming = λ w. [];
  outgoing = λ w. w;
  patience = λ w. 0;
  recv_prefix = λ n w. refl;
  recv_bound = λ n w. omega arith;
  recv_progress = λ n w h k. omega arith;
  recv_keeps = λ n w. refl;
  send_bound = λ bs w. omega arith;
  send_appends = λ bs w. refl;
  send_progress = λ bs w h. omega arith;
}

reply_steady_example :
    (w' : List ℕ) × (reply narrow 5 server (1 ∷ 2 ∷ 3 ∷ 4 ∷ []) [] ≡ some (true, server, w'))
    × (w' ≡ 1 ∷ 2 ∷ 3 ∷ 4 ∷ [])
reply_steady_example =
    reply_steady narrow server narrow_stream 5 (1 ∷ 2 ∷ 3 ∷ 4 ∷ []) [] refl (λ bs w. (_, _, refl))
      (omega arith)

addr_mask_keeps_example :
    (mask : ℕ) × (addr_mask (2 ^ 24) ≡ some mask) × (bit_and 0x12_3456 mask ≡ 0x12_3456)
addr_mask_keeps_example = addr_mask_keeps (2 ^ 24) 0x12_3456 (omega arith) (omega arith)
