-- ===== src/Link/Pipe.antt =====
-- A socket that is a pair of byte queues.
use knockout_kraken.Base.{
  ℕ, ◌≤◌, ◌<◌, ◌≡◌, refl, ap, ap₂, ◌∙◌, arith, List, [], ◌∷◌, ◌++◌, Option, none, some, length,
  take, drop, take_all, drop_all, ℤ, minus_one,
}
use knockout_kraken.Socket.{Sockets, Received, received, recv_failed, eagain, sent}
use knockout_kraken.Server.Routine.{Setting, Shared, Outcome, go}
use knockout_kraken.Server.Dut.{TopDut}
use knockout_kraken.Link.{Connection, elapsed}
use knockout_kraken.Link.Round.{simulator}

-- The bytes under way in either direction.
pub record Pipe : Type 0 where
  pub to_server : List ℕ
  pub to_client : List ℕ

abbrev pub empty : Pipe
empty = record { to_server = []; to_client = [] }

-- What recv gives of the bytes that are there.
abbrev pub available : ℕ → List ℕ → Received
available n [] = recv_failed eagain
available n (b ∷ bs) = received (take n (b ∷ bs))

pub available_all :
    (n : ℕ) (bs : List ℕ) → 0 < length bs → length bs ≤ n → available n bs ≡ received bs
available_all n [] h k = absurd (omega arith)
available_all n (b ∷ bs) h k = ap received (take_all n (b ∷ bs) k)

abbrev pub server_end : Sockets Pipe
server_end = record {
  send = λ fd bs w. (sent (length bs), record w { to_client = w.to_client ++ bs });
  recv = λ fd n w. (available n w.to_server, record w { to_server = drop n w.to_server });
  socket = λ w. (minus_one, w);
  connect = λ fd name w. (minus_one, w);
  bind = λ fd name w. (minus_one, w);
  listen = λ fd n w. (minus_one, w);
  accept = λ fd w. (minus_one, w);
  close = λ fd w. (minus_one, w);
}

-- The simulator does one round when the client waits.
module _ {V : Type 0} (round : Shared V Pipe → Option (Outcome (Unit {0}) × Shared V Pipe))
    (elapse : Pipe → TopDut V → TopDut V) where
  abbrev pub deliver : ℕ → Shared V Pipe → Received × Shared V Pipe
  deliver n s = (
    available n s.world.to_client,
    record s { world = record s.world { to_client = drop n s.world.to_client } },
  )

  abbrev pub from_round :
      ℕ → Shared V Pipe → Option (Outcome (Unit {0}) × Shared V Pipe) → Received × Shared V Pipe
  from_round n s none = (recv_failed eagain, s)
  from_round n s (some (o, s')) = deliver n s'

  abbrev pub await : ℕ → Shared V Pipe → List ℕ → Received × Shared V Pipe
  await n s [] = from_round n s (round (record s { dut = elapsed elapse s.world s.dut }))
  await n s (b ∷ bs) = deliver n s

  abbrev pub client_end : Sockets (Shared V Pipe)
  client_end = record {
    send = λ fd bs s. (
      sent (length bs),
      record s { world = record s.world { to_server = s.world.to_server ++ bs } },
    );
    recv = λ fd n s. await n s s.world.to_client;
    socket = λ w. (minus_one, w);
    connect = λ fd name w. (minus_one, w);
    bind = λ fd name w. (minus_one, w);
    listen = λ fd n w. (minus_one, w);
    accept = λ fd w. (minus_one, w);
    close = λ fd w. (minus_one, w);
  }

  pub awaited :
      (n : ℕ) (fd : ℤ) (s s' : Shared V Pipe)
      → s.world.to_client ≡ []
      → round (record s { dut = elapsed elapse s.world s.dut }) ≡ some (go tt, s')
      → 0 < length s'.world.to_client
      → length s'.world.to_client ≤ n
      → client_end.recv fd n s
        ≡ (received s'.world.to_client, record s' { world = record s'.world { to_client = [] } })
  awaited n fd s s' none_there round_ h k =
      ap (await n s) none_there
      ∙ ap (from_round n s) round_
      ∙ ap₂
          (λ (r : Received) (rest : List ℕ).
            (r, record s' { world = record s'.world { to_client = rest } }))
          (available_all n s'.world.to_client h k) (drop_all n s'.world.to_client k)

  module _ (y : Setting V Pipe) (fuel : ℕ) (uninit : ℕ → ℕ) (fd server_fd : ℤ) where
    abbrev pub link :
        Connection
          (simulator (record y { os = server_end }) fuel uninit)
          round
          elapse
          client_end
          fd
          server_fd
    link = record {
      to_server = λ w. w.to_server;
      to_client = λ w. w.to_client;
      client_send = λ bs s. (_, refl, refl, refl);
      server_recv = λ n w h k. (
        record w { to_server = [] },
        ap₂ (λ (r : Received) (rest : List ℕ). (r, record w { to_server = rest }))
            (available_all n w.to_server h k) (drop_all n w.to_server k),
        refl,
        refl,
      );
      server_send = λ bs w. (_, refl, refl, refl);
      client_recv = λ n s s' e round_ h k. (_, awaited n fd s s' e round_ h k, refl, refl);
    }
