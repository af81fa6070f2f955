-- ===== src/Server/Routine/Rounds.antt =====
-- One round of the routines that serve the client, from the bytes on the socket on.
use knockout_kraken.Base.{
  ap₂, Option, ℕ, suc, ◌%◌, ◌^◌, ◌<◌, ◌≡◌, ◌≢◌, refl, ap, ◌∙◌, true, false, List, [], some, length,
  ≢→==, Bool-cases, inl, inr,
}
use knockout_kraken.Socket.{received}
use knockout_kraken.Wire.{MemoryRequest, MemoryRequestAxil, axil_bytes, request_bytes}
use knockout_kraken.Wire.Layout.{Fits}
use knockout_kraken.Server.Ipc.{Polled, IpcServer, set_error, get_request_axil, get_request_axi}
use knockout_kraken.Server.Ipc.Requests.{
  get_request_axil_whole, get_request_axi_whole, get_request_gone, get_request_failed,
}
use knockout_kraken.Server.Routine.{
  Setting, Shared, go, joining, join, ◌>>=◌, ◌>>◌, Piece, tick_once, fault, give_up, poll,
}
use knockout_kraken.Server.Routine.Axil.{serve_axil, axil_round}
use knockout_kraken.Server.Routine.Axi.{serve_axi, axi_round}

module _ {V W : Type 0} (x : Setting V W) where
  open x use {os, fuel}

  -- What the loop around a request gives on to the rest of a round.
  abbrev answer : Polled W → Shared V W → Shared V W
  answer p s = record s { ipc = p.server; world = p.world }

  poll_done :
      (request : IpcServer → (ℕ → ℕ) → W → Option (Polled W)) (mem : ℕ → ℕ) (s : Shared V W)
      (p : Polled W) {k n : ℕ}
      → k ≡ suc n
      → request s.ipc mem s.world ≡ some p
      → p.done ≡ true
      → poll x k request mem s ≡ some (go p.mem, answer p s)
  unfolding poll
  poll_done request mem s p {n = n} f e done =
      ap (λ (k : ℕ). poll x k request mem s) f ∙ rw (poll, e, done)

  poll_error :
      (request : IpcServer → (ℕ → ℕ) → W → Option (Polled W)) (mem : ℕ → ℕ) (s : Shared V W)
      (p : Polled W) {k n : ℕ}
      → k ≡ suc n
      → request s.ipc mem s.world ≡ some p
      → p.done ≡ false
      → p.server.error ≡ true
      → poll x k request mem s ≡ give_up x (answer p s)
  unfolding poll
  poll_error request mem s p {n = n} f e done error =
      ap (λ (k : ℕ). poll x k request mem s) f ∙ rw (poll, e, done, error)

  gave_up :
      {A B : Type 0} (m : Piece x A) (next : A → Piece x B) (s s' : Shared V W)
      → m s ≡ give_up x s'
      → (m >>= next) s ≡ (tick_once x >> join) (fault x s')
  gave_up m next s s' e = elim (Bool-cases ((x.tick (fault x s')).0)) [
    | inl t ↦ rw (e, ◌>>=◌, ◌>>◌, t)
    | inr t ↦ rw (e, ◌>>=◌, ◌>>◌, t)
  ]

  -- An AXI-Lite request whose 24 bytes one recv returns together is served by the round as the
  -- client wrote it, when no error is pending and the fuel is not 0.
  pub axil_round_whole :
      (uninit : ℕ → ℕ) (r : MemoryRequestAxil) (s : Shared V W) {n : ℕ} {w' : W}
      → fuel ≡ suc n
      → s.ipc.error ≡ false
      → Fits r.addr r.byte_size r.is_write
      → r.w_data < 2 ^ 32
      → os.recv s.ipc.client_fd 24 s.world ≡ (received (axil_bytes r), w')
      → axil_round x uninit s ≡ serve_axil x r (record s { world = w' })
  unfolding axil_round
  axil_round_whole uninit r s f ne fits small e =
      let (p, got, done, server, req, world) =
        get_request_axil_whole os s.ipc uninit s.world _ r ne fits small e in
      rw (poll_done (get_request_axil os) uninit s p f got done, ◌>>=◌)
        (ap₂ (serve_axil x) req (λ i. record s { ipc = server i; world = world i }))

  -- An AXI request with 4096 bytes of data whose bytes one recv returns together, whatever its
  -- padding, is served by the round as the client wrote it, when no error is pending and the fuel
  -- is not 0.
  pub axi_round_whole :
      (uninit : ℕ → ℕ) (r : MemoryRequest) (padding : List ℕ) (s : Shared V W) {n : ℕ} {w' : W}
      → fuel ≡ suc n
      → s.ipc.error ≡ false
      → Fits r.addr r.byte_size r.is_write
      → length r.w_data ≡ 4096
      → length padding ≡ 4
      → os.recv s.ipc.client_fd 4120 s.world ≡ (received (request_bytes r padding), w')
      → axi_round x uninit s ≡ serve_axi x r (record s { world = w' })
  unfolding axi_round
  axi_round_whole uninit r padding s f ne fits len pad e =
      let (p, got, done, server, req, world) =
        get_request_axi_whole os s.ipc uninit s.world _ r padding ne fits len pad e in
      rw (poll_done (get_request_axi os) uninit s p f got done, ◌>>=◌)
        (ap₂ (serve_axi x) req (λ i. record s { ipc = server i; world = world i }))

  -- When recv finds the end of the stream at the start of a request, and no error was pending, a
  -- round of either routine sets the error of its socket, reports an error to the main thread,
  -- waits for a tick, and stops serving.
  client_gone :
      (uninit : ℕ → ℕ) (s : Shared V W) {n : ℕ} {w1 w2 : W}
      → fuel ≡ suc n
      → s.ipc.error ≡ false
      → os.recv s.ipc.client_fd 24 s.world ≡ (received [], w1)
      → os.recv s.ipc.client_fd 4120 s.world ≡ (received [], w2)
      → (axil_round x uninit s
          ≡ (tick_once x >> join) (fault x (record s { ipc = set_error s.ipc; world = w1 })))
        × (axi_round x uninit s
            ≡ (tick_once x >> join) (fault x (record s { ipc = set_error s.ipc; world = w2 })))
  unfolding axil_round axi_round
  client_gone uninit s f ne e1 e2 =
      let (axil, axi) = get_request_gone os s.ipc uninit s.world _ _ ne e1 e2 in
      (
        gave_up (poll x fuel (get_request_axil os) uninit) _ s _
            (poll_error (get_request_axil os) uninit s _ f axil refl refl),
        gave_up (poll x fuel (get_request_axi os) uninit) _ s _
            (poll_error (get_request_axi os) uninit s _ f axi refl refl),
      )

  -- With an error pending on its socket a round of either routine receives nothing: it reports an
  -- error to the main thread, waits for a tick, and stops serving.
  pub failed_rounds :
      (uninit : ℕ → ℕ) (s : Shared V W) {n : ℕ}
      → fuel ≡ suc n
      → s.ipc.error ≡ true
      → (axil_round x uninit s ≡ (tick_once x >> join) (fault x s))
        × (axi_round x uninit s ≡ (tick_once x >> join) (fault x s))
  unfolding axil_round axi_round
  failed_rounds uninit s f e =
      let (axil, axi) = get_request_failed os s.ipc uninit s.world e in
      (
        gave_up (poll x fuel (get_request_axil os) uninit) _ s _
            (poll_error (get_request_axil os) uninit s _ f axil refl e),
        gave_up (poll x fuel (get_request_axi os) uninit) _ s _
            (poll_error (get_request_axi os) uninit s _ f axi refl e),
      )

  -- A plain AXI-Lite request for another size than 4, and an AXI request for no multiple of 64 bytes,
  -- are not served: the error is reported, nothing else is touched, and the routine stops serving.
  bad_sizes :
      (r : MemoryRequestAxil) (q : MemoryRequest) (s : Shared V W)
      → r.is_write ≢ 0xDEED
      → r.byte_size ≢ 4
      → q.byte_size % 64 ≢ 0
      → (serve_axil x r s ≡ some (joining, fault x s))
        × (serve_axi x q s ≡ some (joining, fault x s))
  unfolding serve_axil serve_axi
  bad_sizes r q s plain size blocks = (
    rw (≢→== r.is_write 0xDEED plain, ≢→== r.byte_size 4 size, ◌>>=◌, ◌>>◌),
    rw (≢→== (q.byte_size % 64) 0 blocks, ◌>>=◌, ◌>>◌),
  )
