-- ===== src/Link/Round.antt =====
-- One access of the client, from its request to the answer that it receives.
use knockout_kraken.Base.{
  ℕ, zero, suc, ◌*◌, ◌-◌, ◌/◌, ◌%◌, ◌<◌, ◌≡◌, refl, ap, ap₂, ◌∙◌, arith, Bool, true, false, List,
  [], ◌∷◌, ◌++◌, some, length, length-segment, take, drop, take_all, drop_all, ℤ, pos, segment,
  store_at, append-nil, le_bytes, lt→ltb,
}
use knockout_kraken.Base.Monad.{ok}
use knockout_kraken.Socket.{Sockets, Received, received, Sent, sent, taken, got}
use knockout_kraken.Wire.{MemoryRequest, request_bytes}
use knockout_kraken.Wire.Layout.{Fits, length-request_bytes}
use knockout_kraken.Client.Ipc.{send_ipc, recv_ipc, after_bytes}
use knockout_kraken.Server.Dut.{TopDut, is_axi_dram}
use knockout_kraken.Server.Ipc.{IpcServer, after_send, reply, reply_loop}
use knockout_kraken.Server.Routine.{Setting, Shared, go, ◌>>=◌, ◌>>◌, send_reply}
use knockout_kraken.Server.Routine.Axi.{
  axi_round, serve_axi, axi_dram_access, replied, dram_address,
}
use knockout_kraken.Server.Routine.Memory.{Masked, dram_address_lem, read_access, write_access}
use knockout_kraken.Server.Routine.Rounds.{axi_round_whole}
use knockout_kraken.Link.{Connection, elapsed}

-- A buffer that one call of the operating system takes, or fills, whole.
pub send_ipc_once :
    {W : Type 0} (os : Sockets W) (fuel : ℕ) (fd : ℤ) (bs : List ℕ) (w : W) {w' : W}
    → 0 < length bs
    → os.send fd bs w ≡ (sent (length bs), w')
    → send_ipc os (suc fuel) fd bs w ≡ some (ok tt, w')
unfolding send_ipc
send_ipc_once os fuel fd [] w h e = absurd (omega arith)
send_ipc_once {W = W} os fuel fd (b ∷ bs) w {w' = w'} h e =
    ap (λ (r : Sent × W). send_ipc os fuel fd (drop (taken r.0) (b ∷ bs)) r.1) e
    ∙ ap (λ (rest : List ℕ). send_ipc os fuel fd rest w')
        (drop_all (length (b ∷ bs)) (b ∷ bs) (omega arith))

pub recv_ipc_once :
    {W : Type 0} (os : Sockets W) (fuel n : ℕ) (fd : ℤ) (bs : List ℕ) (w : W) {w' : W}
    → 0 < n
    → length bs ≡ n
    → os.recv fd n w ≡ (received bs, w')
    → recv_ipc os (suc fuel) fd n w ≡ some (ok bs, w')
unfolding recv_ipc
recv_ipc_once os fuel zero fd bs w h len e = absurd (omega arith)
recv_ipc_once {W = W} os fuel (suc n) fd bs w {w' = w'} h len e =
    ap
      (λ (r : Received × W).
        after_bytes (got r.0) (recv_ipc os fuel fd (suc n - length (got r.0))) r.1)
      e
    ∙ ap (λ (left : ℕ). after_bytes bs (recv_ipc os fuel fd left) w')
        (let z : suc n - length bs ≡ 0 = omega (arith, len) in z)
    ∙ ap (λ (cs : List ℕ). some (ok cs, w')) (append-nil bs)

pub reply_once :
    {W : Type 0} (os : Sockets W) (fuel : ℕ) (s : IpcServer) (bs : List ℕ) (w : W) {w' : W}
    → 0 < length bs
    → s.error ≡ false
    → os.send s.client_fd bs w ≡ (sent (length bs), w')
    → reply os (suc fuel) s bs w ≡ some (true, s, w')
unfolding reply reply_loop
reply_once os fuel s [] w h ne e = absurd (omega arith)
reply_once {W = W} os fuel s (b ∷ bs) w {w' = w'} h ne e =
    ap₂
      (λ (error : Bool) (r : Sent × W).
        after_send (λ k w1. reply_loop os fuel s (drop k (b ∷ bs)) w1) error s w r)
      ne e
    ∙ ap (λ (rest : List ℕ). reply_loop os fuel s rest w')
        (drop_all (length (b ∷ bs)) (b ∷ bs) (omega arith))

serve_axi_dram :
    {V W : Type 0} (x : Setting V W) (q : MemoryRequest) (s s' : Shared V W)
    → q.byte_size % 64 ≡ 0
    → q.addr < s.dut.dram_size
    → axi_dram_access x q s ≡ some (go (pos 0), s')
    → serve_axi x q s ≡ some (go tt, s')
unfolding serve_axi is_axi_dram
serve_axi_dram x q s s' blocks below e =
    rw (blocks, lt→ltb q.addr s.dut.dram_size below, ◌>>=◌, ◌>>◌, e)

replied_lem :
    {V W : Type 0} (x : Setting V W) (bytes : List ℕ) (s : Shared V W) {w' : W}
    → reply x.os x.fuel s.ipc bytes s.world ≡ some (true, s.ipc, w')
    → (send_reply x bytes >>= replied x) s ≡ some (go (pos 0), record s { world = w' })
replied_lem x bytes s e = rw (e, ◌>>=◌)

module _ {V W : Type 0} (y : Setting V W) (fuel : ℕ) (uninit : ℕ → ℕ) where
  -- The fuel is not 0.
  abbrev pub simulator : Setting V W
  simulator = record y { fuel = suc fuel }

  module _ (client : Sockets (Shared V W)) (fd : ℤ) (d : TopDut V) (ipc : IpcServer) where
    module _ {elapse : W → TopDut V → TopDut V}
        (link : Connection simulator
          (axi_round simulator uninit)
          elapse
          client
          fd
          ipc.client_fd) where
      open link use {to_server, to_client}

      -- The simulator with a memory, and what is under way.
      abbrev pub state : (ℕ → ℕ) → W → Shared V W
      state memory w = record { dut = record d { dram = memory }; ipc = ipc; world = w }

      abbrev pub Holds : List ℕ → List ℕ → W → Type 0
      Holds request answer w = (to_server w ≡ request) × (to_client w ≡ answer)

      replied_once :
          (memory : ℕ → ℕ) (bs : List ℕ) (w : W)
          → ipc.error ≡ false
          → 0 < length bs
          → Holds [] [] w
          → (w' : W) × ((send_reply simulator bs >>= replied simulator) (state memory w)
              ≡ some (go (pos 0), state memory w'))
            × Holds [] bs w'
      replied_once memory bs w ne h (asked, answered) =
          let (w', e, same, out) = link.server_send bs w in
          (
            w',
            replied_lem simulator bs (state memory w) (reply_once y.os fuel ipc bs w h ne e),
            (same ∙ asked, out ∙ ap (λ (xs : List ℕ). xs ++ bs) answered),
          )

      -- The routine answers a request from a quiet connection.
      abbrev pub Serves : (memory memory' : ℕ → ℕ) → MemoryRequest → List ℕ → Type 0
      Serves memory memory' q bs =
          (w : W)
          → Holds [] [] w
          → (w' : W) × (serve_axi simulator q (state memory w) ≡ some (go tt, state memory' w'))
            × Holds [] bs w'

      pub served_read :
          (memory : ℕ → ℕ) (q : MemoryRequest)
          → ipc.error ≡ false
          → Masked d
          → q.is_write ≡ 0
          → q.addr % 4 ≡ 0
          → q.byte_size % 64 ≡ 0
          → 0 < q.byte_size
          → q.addr < d.dram_size
          → Serves memory memory q (segment memory q.addr q.byte_size)
      served_read memory q ne masked e word blocks some_bytes below w quiet =
          let len = length-segment memory q.addr q.byte_size in
          let bs = segment memory q.addr q.byte_size in
          let found : segment memory (dram_address d q.addr) q.byte_size ≡ bs =
            ap (λ (a : ℕ). segment memory a q.byte_size)
              (dram_address_lem d q.addr masked below word) in
          let (w', replied_, done) = replied_once memory bs w ne (omega (arith, len)) quiet in
          (
            w',
            serve_axi_dram simulator q (state memory w) _ blocks below (
                read_access simulator q (state memory w) e
                ∙ ap
                    (λ (bytes : List ℕ).
                      (send_reply simulator bytes >>= replied simulator) (state memory w))
                    (ap (take (4 * (q.byte_size / 4))) found
                      ∙ take_all (4 * (q.byte_size / 4)) bs (omega (arith, len)))
                ∙ replied_),
            done,
          )

      pub served_write :
          (memory : ℕ → ℕ) (q : MemoryRequest) (bytes : List ℕ)
          → ipc.error ≡ false
          → Masked d
          → q.is_write ≡ 1
          → q.addr % 4 ≡ 0
          → q.byte_size % 64 ≡ 0
          → q.addr < d.dram_size
          → take q.byte_size q.w_data ≡ bytes
          → Serves memory (store_at memory q.addr bytes) q (le_bytes 4 0)
      served_write memory q bytes ne masked e word blocks below data_ w quiet =
          let memory' = store_at memory q.addr bytes in
          let (w', replied_, done) = replied_once memory' (le_bytes 4 0) w ne (omega arith) quiet in
          (
            w',
            serve_axi_dram simulator q (state memory w) _ blocks below (
                write_access simulator q (state memory w) e
                ∙ ap₂
                    (λ (a : ℕ) (bs : List ℕ).
                      (send_reply simulator (le_bytes 4 0) >>= replied simulator)
                        (state (store_at memory a bs) w))
                    (dram_address_lem d q.addr masked below word) data_
                ∙ replied_),
            done,
          )

      -- The object when the simulator has gone on.
      abbrev pub passed : (ℕ → ℕ) → W → TopDut V
      passed memory w = elapsed elapse w (record d { dram = memory })

  module _ (client : Sockets (Shared V W)) (fd : ℤ) (d : TopDut V) (ipc : IpcServer) where
    module _ {elapse : W → TopDut V → TopDut V}
        (link : Connection simulator
          (axi_round simulator uninit)
          elapse
          client
          fd
          ipc.client_fd) where
      abbrev next : (ℕ → ℕ) → W → TopDut V
      next = passed client fd d ipc link

      -- A recv behind a request gives the whole answer, when it is of the size expected.
      pub received_answer :
          (memory memory' : ℕ → ℕ) (q : MemoryRequest) (padding bs : List ℕ) (n : ℕ) (w : W)
          → ipc.error ≡ false
          → Fits q.addr q.byte_size q.is_write
          → length q.w_data ≡ 4096
          → length padding ≡ 4
          → Serves client fd (next memory w) ipc link memory memory' q bs
          → length bs ≡ n
          → 0 < n
          → Holds client fd d ipc link (request_bytes q padding) [] w
          → (w' : W) × (client.recv fd n (state client fd d ipc link memory w)
              ≡ (received bs, state client fd (next memory w) ipc link memory' w'))
            × Holds client fd d ipc link [] [] w'
      received_answer memory memory' q padding bs n w ne fits len pad serves size h
            (asked, answered) =
          let bytes = request_bytes q padding in
          let d' = next memory w in
          let long = length-request_bytes q padding len pad in
          let whole = ap (λ (xs : List ℕ). length xs) asked in
          let (w1, taken_, none_left, same) =
            link.server_recv 4120 w (omega (arith, long, whole)) (omega (arith, long, whole)) in
          let (w2, served, (done, sent_)) = serves w1 (none_left, same ∙ answered) in
          let round =
            axi_round_whole simulator uninit q padding (state client fd d' ipc link memory w) refl
              ne fits len pad (taken_ ∙ ap (λ (bs' : List ℕ). (received bs', w1)) asked)
            ∙ served in
          let count = ap (λ (xs : List ℕ). length xs) sent_ in
          let (w3, got_, server3, client3) =
            link.client_recv n (state client fd d ipc link memory w)
              (state client fd d' ipc link memory' w2) answered round (omega (arith, count, size))
              (omega (arith, count, size)) in
          (
            w3,
            got_
                ∙ ap (λ (bs' : List ℕ). (received bs', state client fd d' ipc link memory' w3))
                    sent_,
            (server3 ∙ done, client3),
          )
