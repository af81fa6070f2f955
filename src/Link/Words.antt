-- ===== src/Link/Words.antt =====
-- One word access of the client, from its request to the answer that it receives.
use knockout_kraken.Base.{
  ℕ, suc, ◌^◌, ◌<◌, ◌≡◌, refl, sym, ap, ◌∙◌, arith, true, false, List, [], ◌++◌, some, length, pos,
}
use knockout_kraken.Base.Monad.{ok}
use knockout_kraken.Socket.{Sockets, received}
use knockout_kraken.Wire.{MemoryRequestAxil, axil_bytes}
use knockout_kraken.Wire.Layout.{length-axil_bytes}
use knockout_kraken.Client.Ipc.{send_ipc, recv_ipc}
use knockout_kraken.Client.Rtl.{FpgaContext}
use knockout_kraken.Server.Ipc.{IpcServer, reply}
use knockout_kraken.Server.Routine.{Setting, Shared, go, must_reply, ◌>>=◌}
use knockout_kraken.Server.Routine.Axil.{axil_round, serve_axil}
use knockout_kraken.Server.Routine.Axil.Slave.{AxilSlave}
use knockout_kraken.Server.Routine.Axil.Slave.{Rests}
use knockout_kraken.Server.Routine.Axil.Transactions.{respond, serve_axil-Rests}
use knockout_kraken.Server.Routine.Rounds.{axil_round_whole}
use knockout_kraken.Link.{at_rest, Connection}
use knockout_kraken.Link.Round.{simulator, send_ipc_once, recv_ipc_once, reply_once}

must_reply_lem :
    {V W : Type 0} (x : Setting V W) (bytes : List ℕ) (s : Shared V W) {w' : W}
    → reply x.os x.fuel s.ipc bytes s.world ≡ some (true, s.ipc, w')
    → must_reply x bytes s ≡ some (go tt, record s { world = w' })
must_reply_lem x bytes s e = rw (e, ◌>>=◌)

module _ {V W : Type 0} (y : Setting V W) (fuel : ℕ) (uninit : ℕ → ℕ) where
  abbrev pub sim : Setting V W
  sim = simulator y fuel uninit

  module _ (slave : AxilSlave sim) (client : Sockets (Shared V W)) (port : ℕ)
      (ipc : IpcServer) where
    module _
        (link : Connection sim
          (axil_round sim uninit)
          at_rest
          client
          (pos (suc port))
          ipc.client_fd) where
      open link use {to_server, to_client}

      -- What is under way on the socket, and the bank behind the port.
      pub record Between (s : Shared V W) (registers : ℕ → ℕ) (request answer : List ℕ)
          : Type 0 where
        pub rests : Rests sim slave s registers
        pub same_ipc : s.ipc ≡ ipc
        pub asked : to_server s.world ≡ request
        pub answered : to_client s.world ≡ answer

      -- Only the world has changed.
      moved :
          (s : Shared V W) (w : W) (registers : ℕ → ℕ)
          → Rests sim slave s registers
          → Rests sim slave (record s { world = w }) registers
      moved s w registers r = record { no_write = r.no_write; no_read = r.no_read; holds = r.holds }

      module _ (agree : (w : W) → slave.under_way w ≡ (to_server w, to_client w))
          (ne : ipc.error ≡ false) where
        served :
            (r : MemoryRequestAxil) (s : Shared V W) (registers : ℕ → ℕ)
            → r.is_write < 2
            → r.byte_size ≡ 4
            → Between s registers [] []
            → 0 < length (respond sim slave r registers).0
            → (s' : Shared V W) × (serve_axil sim r s ≡ some (go tt, s'))
              × Between s' (respond sim slave r registers).1 [] (respond sim slave r registers).0
        served r s registers plain four b some_bytes =
            let (s1, e, rests, same) =
              serve_axil-Rests sim slave r s registers (omega (arith, plain)) four b.rests in
            let bytes = (respond sim slave r registers).0 in
            let at = same.same_ipc ∙ b.same_ipc in
            let under : (to_server s1.world, to_client s1.world)
                ≡ (to_server s.world, to_client s.world) =
              sym (agree s1.world) ∙ same.same_socket ∙ agree s.world in
            let (w', out, kept, put) = link.server_send bytes s1.world in
            (
              record s1 { world = w' },
              e
                  ∙ must_reply_lem sim bytes s1 (
                      reply_once y.os fuel s1.ipc bytes s1.world some_bytes
                        (ap (λ (i : IpcServer). i.error) at ∙ ne)
                        (ap (λ (i : IpcServer). y.os.send i.client_fd bytes s1.world) at ∙ out)),
              record {
                rests = moved s1 w' _ rests;
                same_ipc = at;
                asked = kept ∙ ap (λ (u : List ℕ × List ℕ). u.0) under ∙ b.asked;
                answered =
                    put
                    ∙ ap (λ (xs : List ℕ). xs ++ bytes)
                        (ap (λ (u : List ℕ × List ℕ). u.1) under ∙ b.answered);
              },
            )

        module _ (client_fuel : ℕ) (stale : ℕ → ℕ) (c : FpgaContext) where
          -- The AXI-Lite socket of the client is open.
          abbrev pub context : FpgaContext
          context = record c { axil_fd = pos (suc port) }

          -- A request goes out and the answer comes back.
          pub record Exchanged (bytes answer : List ℕ) (registers' : ℕ → ℕ) (s : Shared V W)
              : Type 0 where
            pub between : Shared V W
            pub after : Shared V W
            pub sent_ :
                send_ipc client (suc client_fuel) (pos (suc port)) bytes s ≡ some (ok tt, between)
            pub got_ :
                recv_ipc client (suc client_fuel) (pos (suc port)) 4 between
                ≡ some (ok answer, after)
            pub quiet : Between after registers' [] []

          pub exchanged :
              (r : MemoryRequestAxil) (s : Shared V W) (registers : ℕ → ℕ)
              → r.addr < 2 ^ 32
              → r.is_write < 2
              → r.byte_size ≡ 4
              → r.w_data < 2 ^ 32
              → length (respond sim slave r registers).0 ≡ 4
              → Between s registers [] []
              → Exchanged
                  (axil_bytes r)
                  (respond sim slave r registers).0
                  (respond sim slave r registers).1
                  s
          exchanged r s registers small plain four word size b =
              let bytes = axil_bytes r in
              let answer = (respond sim slave r registers).0 in
              let long = length-axil_bytes r in
              let (w1, gone, request, none_back) = link.client_send bytes s in
              let s1 = record s { world = w1 } in
              let here : to_server w1 ≡ bytes =
                request ∙ ap (λ (xs : List ℕ). xs ++ bytes) b.asked in
              let count = ap (λ (xs : List ℕ). length xs) here in
              let (w2, taken_, empty, same) =
                link.server_recv 24 w1 (omega (arith, count, long)) (omega (arith, count, long)) in
              let s2 = record s { world = w2 } in
              let (s3, e3, b3) =
                served r s2 registers plain four
                  (record {
                    rests = moved s w2 registers b.rests;
                    same_ipc = b.same_ipc;
                    asked = empty;
                    answered = same ∙ none_back ∙ b.answered;
                  })
                  (omega (arith, size)) in
              let round =
                axil_round_whole sim uninit r s1 refl
                  (ap (λ (i : IpcServer). i.error) b.same_ipc ∙ ne)
                  (omega (arith, small), omega (arith, four), omega (arith, plain)) word
                  (ap (λ (i : IpcServer). y.os.recv i.client_fd 24 w1) b.same_ipc
                    ∙ taken_
                    ∙ ap (λ (xs : List ℕ). (received xs, w2)) here)
                ∙ e3 in
              let back = ap (λ (xs : List ℕ). length xs) b3.answered in
              let (w4, got, server4, client4) =
                link.client_recv 4 s1 s3 (none_back ∙ b.answered) round (omega (arith, back, size))
                  (omega (arith, back, size)) in
              record {
                between = s1;
                after = record s3 { world = w4 };
                sent_ =
                    send_ipc_once client client_fuel (pos (suc port)) bytes s (omega (arith, long))
                      gone;
                got_ =
                    recv_ipc_once client client_fuel 4 (pos (suc port)) answer s1 (omega arith) size
                      (got
                        ∙ ap (λ (xs : List ℕ). (received xs, record s3 { world = w4 }))
                            b3.answered);
                quiet = record {
                  rests = moved s3 w4 _ b3.rests;
                  same_ipc = b3.same_ipc;
                  asked = server4 ∙ b3.asked;
                  answered = client4;
                };
              }
