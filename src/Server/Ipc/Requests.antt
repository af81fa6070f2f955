-- ===== src/Server/Ipc/Requests.antt =====
-- The request loop of the server: when it returns, and how a message in one piece is read.
pub mod Split
use knockout_kraken.Base.{
  ℕ, zero, suc, ◌+◌, ◌*◌, ◌-◌, ◌^◌, ◌≤◌, ◌<◌, ◌≡◌, refl, sym, ap, ap₂, ◌∙◌, arith, List, [], ◌∷◌,
  some, Option, length, Bool, true, false, store_at, store_at_outside, segment-store_at, segment,
  inl, inr,
}
use knockout_kraken.Socket.{Sockets, eagain, epipe, other, Received, received, recv_failed}
use knockout_kraken.Wire.{
  MemoryRequest, MemoryRequestAxil, axil_bytes, request_bytes, axil_at, request_at,
}
use knockout_kraken.Wire.Layout.{
  Fits, axil_at-axil_bytes, request_at-request_bytes, length-axil_bytes, length-request_bytes,
}
use knockout_kraken.Server.Ipc.{
  after_recv, IpcServer, set_error, Polled, request_loop, get_request_axil, get_request_axi,
}

after_recv_total :
    {W : Type 0} (next : List ℕ → W → Option (Polled W)) (e : Bool) (s : IpcServer) (mem : ℕ → ℕ)
    (w : W) (r : Received × W)
    → ((b : ℕ) (bs : List ℕ) (w' : W) → (p : Polled W) × (next (b ∷ bs) w' ≡ some p))
    → (p : Polled W) × (after_recv next e s mem w r ≡ some p)
after_recv_total next true s mem w r h = (_, refl)
after_recv_total next false s mem w (recv_failed eagain, w') h = (_, refl)
after_recv_total next false s mem w (recv_failed epipe, w') h = (_, refl)
after_recv_total next false s mem w (recv_failed other, w') h = (_, refl)
after_recv_total next false s mem w (received [], w') h = (_, refl)
after_recv_total next false s mem w (received (b ∷ bs), w') h = h b bs w'

module _ {W : Type 0} (os : Sockets W) where
  -- The loop behind a round that has received `bs`.
  abbrev later : (size fuel missing curr : ℕ) → IpcServer → (ℕ → ℕ) → List ℕ → W → Option (Polled W)
  later size fuel missing curr s mem bs w' =
      request_loop os size fuel (missing - length bs) (curr + length bs) s
        (store_at mem (curr * size) bs) w'

  one_round :
      (size fuel missing curr : ℕ) (s : IpcServer) (mem : ℕ → ℕ) (w : W) {r : Received × W}
      → s.error ≡ false
      → os.recv s.client_fd (suc missing) w ≡ r
      → request_loop os size (suc fuel) (suc missing) curr s mem w
        ≡ after_recv (later size fuel (suc missing) curr s mem) false s mem w r
  unfolding request_loop
  one_round size fuel missing curr s mem w ne e =
      ap₂
        (λ (t : Bool) (x : Received × W).
          after_recv (later size fuel (suc missing) curr s mem) t s mem w x)
        ne e

  later_at :
      (size fuel missing curr : ℕ) (s : IpcServer) (mem : ℕ → ℕ) (bs : List ℕ) (w' : W)
      {left next at : ℕ}
      → missing - length bs ≡ left
      → curr + length bs ≡ next
      → curr * size ≡ at
      → later size fuel missing curr s mem bs w'
        ≡ request_loop os size fuel left next s (store_at mem at bs) w'
  later_at size fuel missing curr s mem bs w' p q r =
      λ i. request_loop os size fuel (p i) (q i) s (store_at mem (r i) bs) w'

  -- The request loop returns with fuel for the bytes that are missing, whatever the socket does.
  request_loop_total :
      (size fuel missing curr : ℕ) (s : IpcServer) (mem : ℕ → ℕ) (w : W)
      → missing ≤ fuel
      → (p : Polled W) × (request_loop os size fuel missing curr s mem w ≡ some p)
  unfolding request_loop
  request_loop_total size fuel zero curr s mem w h = (_, refl)
  request_loop_total size zero (suc missing) curr s mem w h = absurd (omega arith)
  request_loop_total size (suc fuel) (suc missing) curr s mem w h =
      after_recv_total (later size fuel (suc missing) curr s mem) s.error s mem w
        (os.recv s.client_fd (suc missing) w)
        λ b bs w'.
          request_loop_total size fuel (suc missing - length (b ∷ bs)) (curr + length (b ∷ bs)) s
            (store_at mem (curr * size) (b ∷ bs)) w' (omega arith)

  gone_round :
      (size fuel : ℕ) (s : IpcServer) (mem : ℕ → ℕ) (w w' : W)
      → s.error ≡ false
      → os.recv s.client_fd (suc size) w ≡ (received [], w')
      → request_loop os (suc size) (suc fuel) (suc size) 0 s mem w
        ≡ some (record { done = false; server = set_error s; mem = mem; world = w' })
  gone_round size fuel s mem w w' ne e = one_round (suc size) fuel size 0 s mem w ne e

  -- At the end of the stream both calls set the error flag and return false.
  pub get_request_gone :
      (s : IpcServer) (mem : ℕ → ℕ) (w w1 w2 : W)
      → s.error ≡ false
      → os.recv s.client_fd 24 w ≡ (received [], w1)
      → os.recv s.client_fd 4120 w ≡ (received [], w2)
      → (get_request_axil os s mem w
          ≡ some (record { done = false; server = set_error s; mem = mem; world = w1 }))
        × (get_request_axi os s mem w
            ≡ some (record { done = false; server = set_error s; mem = mem; world = w2 }))
  unfolding get_request_axil get_request_axi
  get_request_gone s mem w w1 w2 ne e1 e2 =
      (gone_round 23 23 s mem w w1 ne e1, gone_round 4119 4119 s mem w w2 ne e2)

  -- With an error pending both calls return false and do nothing.
  pub get_request_failed :
      (s : IpcServer) (mem : ℕ → ℕ) (w : W)
      → s.error ≡ true
      → (get_request_axil os s mem w
          ≡ some (record { done = false; server = s; mem = mem; world = w }))
        × (get_request_axi os s mem w
            ≡ some (record { done = false; server = s; mem = mem; world = w }))
  unfolding get_request_axil get_request_axi request_loop
  get_request_failed s mem w e = (rw e, rw e)

  -- A struct that arrives in one piece is stored at `msg`, and the call returns true.
  whole_struct :
      (size : ℕ) (s : IpcServer) (mem : ℕ → ℕ) (w w' : W) (bs : List ℕ)
      → s.error ≡ false
      → length bs ≡ suc size
      → os.recv s.client_fd (suc size) w ≡ (received bs, w')
      → request_loop os (suc size) (suc size) (suc size) 0 s mem w
        ≡ some (record { done = true; server = s; mem = store_at mem 0 bs; world = w' })
  unfolding request_loop
  whole_struct size s mem w w' [] ne len e = absurd (omega arith)
  whole_struct size s mem w w' (b ∷ bs) ne len e =
      one_round (suc size) size size 0 s mem w ne e
      ∙ later_at (suc size) size (suc size) 0 s mem (b ∷ bs) w' {left = 0} {next = suc size}
          {at = 0} (omega arith) (omega arith) (omega arith)

  -- Nothing there yet: false, with no error and nothing stored.
  quiet :
      (size : ℕ) (s : IpcServer) (mem : ℕ → ℕ) (w w' : W)
      → s.error ≡ false
      → os.recv s.client_fd (suc size) w ≡ (recv_failed eagain, w')
      → request_loop os (suc size) (suc size) (suc size) 0 s mem w
        ≡ some (record { done = false; server = s; mem = mem; world = w' })
  quiet size s mem w w' ne e = one_round (suc size) size size 0 s mem w ne e

  -- An AXI-Lite request that reaches the server in one piece is read as the client wrote it.
  pub get_request_axil_whole :
      (s : IpcServer) (mem : ℕ → ℕ) (w w' : W) (r : MemoryRequestAxil)
      → s.error ≡ false
      → Fits r.addr r.byte_size r.is_write
      → r.w_data < 2 ^ 32
      → os.recv s.client_fd 24 w ≡ (received (axil_bytes r), w')
      → (p : Polled W) × (get_request_axil os s mem w ≡ some p)
        × (p.done ≡ true)
        × (p.server ≡ s)
        × (axil_at p.mem ≡ r)
        × (p.world ≡ w')
  unfolding get_request_axil
  get_request_axil_whole s mem w w' r ne fits small e = (
    _,
    whole_struct 23 s mem w w' (axil_bytes r) ne (length-axil_bytes r) e,
    refl,
    refl,
    axil_at-axil_bytes r (store_at mem 0 (axil_bytes r)) fits small (
        ap (segment (store_at mem 0 (axil_bytes r)) 0) (sym (length-axil_bytes r))
        ∙ segment-store_at mem 0 (axil_bytes r)),
    refl,
  )

  -- So is an AXI request with its 4096 bytes of data, whatever its padding.
  pub get_request_axi_whole :
      (s : IpcServer) (mem : ℕ → ℕ) (w w' : W) (r : MemoryRequest) (padding : List ℕ)
      → s.error ≡ false
      → Fits r.addr r.byte_size r.is_write
      → length r.w_data ≡ 4096
      → length padding ≡ 4
      → os.recv s.client_fd 4120 w ≡ (received (request_bytes r padding), w')
      → (p : Polled W) × (get_request_axi os s mem w ≡ some p)
        × (p.done ≡ true)
        × (p.server ≡ s)
        × (request_at p.mem ≡ r)
        × (p.world ≡ w')
  unfolding get_request_axi
  get_request_axi_whole s mem w w' r padding ne fits len pad e =
      let all : List ℕ = request_bytes r padding in
      let count = length-request_bytes r padding len pad in
      (
        record { done = true; server = s; mem = store_at mem 0 all; world = w' },
        whole_struct 4119 s mem w w' all ne count e,
        refl,
        refl,
        request_at-request_bytes r padding (store_at mem 0 all) fits len
            (ap (segment (store_at mem 0 all) 0) (sym count) ∙ segment-store_at mem 0 all),
        refl,
      )
