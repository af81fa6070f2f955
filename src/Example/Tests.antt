-- ===== src/Example/Tests.antt =====
-- A round of the six threads, and a conversation of two messages.
use knockout_kraken.Base.{
  ℕ, ◌+◌, ◌≡◌, ◌≢◌, refl, arith, List, [], ◌∷◌, ◌++◌, replicate, some, tally, length, pos,
  minus_one,
}
use knockout_kraken.Socket.{Sockets, sent, recv_failed, eagain}
use knockout_kraken.Example.SyncClock.{
  entering, counted, asleep, State, initial, ticked, count, release, returned, Reach, here, later,
  Notified,
}
use knockout_kraken.Example.SyncClock.Rounds.{
  is_entering, is_counted, is_waiting, is_finished, tick_all_counted,
}
use knockout_kraken.Example.SyncClock.Missed.{missed_never_returns}
use knockout_kraken.Example.Garbage.{Read, bytes, read_failed, Files, serve, capital}
use knockout_kraken.Example.Garbage.Capitals.{over, message, joined, serve_answers}

-- `k` threads have counted.
abbrev counting : ℕ → ℕ → State
counting k left = record {
  top = asleep 10;
  thread_cnt = k;
  subs = replicate k (counted 9) ++ replicate left (entering 9);
}

all_count : Reach initial (counting 6 0)
all_count =
    later
      (later
        (later
          (later
            (later
              (later (later here (release 9 refl (omega arith)))
                (count [] (replicate 5 (entering 9)) 10 9 refl refl))
              (count (replicate 1 (counted 9)) (replicate 4 (entering 9)) 10 9 refl refl))
            (count (replicate 2 (counted 9)) (replicate 3 (entering 9)) 10 9 refl refl))
          (count (replicate 3 (counted 9)) (replicate 2 (entering 9)) 10 9 refl refl))
        (count (replicate 4 (counted 9)) (replicate 1 (entering 9)) 10 9 refl refl))
      (count (replicate 5 (counted 9)) [] 10 9 refl refl)

all_count-Notified : Notified all_count
unfolding all_count
all_count-Notified = (((((((tt, tt), tt), tt), tt), tt), tt), tt)

tick_all_counted_example :
    (tally is_entering (replicate 6 (counted 9)) ≡ 0)
    × (tally is_finished (replicate 6 (counted 9)) ≡ 0)
    × (tally is_counted (replicate 6 (counted 9)) + tally is_waiting (replicate 6 (counted 9)) ≡ 6)
tick_all_counted_example = tick_all_counted all_count all_count-Notified refl

missed_never_returns_example : (ticked 9 (counting 6 0)).top ≢ returned
missed_never_returns_example =
    missed_never_returns 9 all_count all_count-Notified refl (omega arith) here tt

-- The messages still to come, and what has been written.
record Talk : Type 0 where
  incoming : List (List ℕ)
  written : List ℕ

abbrev take_message : Talk → List (List ℕ) → Read × Talk
take_message w [] = (read_failed, w)
take_message w (bs ∷ rest) = (bytes bs, record w { incoming = rest })

abbrev conversation : Files Talk
conversation = record {
  read = λ fd n w. take_message w w.incoming;
  write = λ fd bs w. (pos (length bs), record w { written = w.written ++ bs });
}

abbrev no_sockets : Sockets Talk
no_sockets = record {
  send = λ fd bs w. (sent (length bs), w);
  recv = λ fd n w. (recv_failed eagain, w);
  socket = λ w. (pos 3, w);
  connect = λ fd name w. (pos 0, w);
  bind = λ fd name w. (pos 0, w);
  listen = λ fd n w. (pos 0, w);
  accept = λ fd w. (pos 4, w);
  close = λ fd w. (pos 0, w);
}

abbrev two_messages : List (List ℕ)
two_messages = (104 ∷ 105 ∷ []) ∷ (33 ∷ 122 ∷ []) ∷ []

abbrev silent : Talk
silent = record { incoming = two_messages; written = [] }

read_written : (w : Talk) (bs : List (List ℕ)) → (take_message w bs).1.written ≡ w.written
read_written w [] = refl
read_written w (m ∷ rest) = refl

abbrev capitals : List ℕ
capitals = 72 ∷ 73 ∷ 33 ∷ 90 ∷ []

serve_answers_example :
    (serve no_sockets conversation 3 (pos 4) silent
      ≡ some (minus_one, record { incoming = []; written = capitals }))
    × (capitals ≡ joined two_messages)
unfolding capital
serve_answers_example =
    serve_answers no_sockets conversation (pos 4)
      (record { read_keeps = λ n w. read_written w w.incoming; write_appends = λ bs w h. refl }) 3
      two_messages (message refl refl refl (message refl refl refl (over refl))) (omega arith)
