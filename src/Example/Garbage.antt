-- ===== src/Example/Garbage.antt =====
-- regression/src/example/garbage_server.cc and garbage_client.cc: a server that answers each message
-- in capitals, and a client that sends it what is typed. Printed lines are left out.
pub mod Capitals
use Prim.Native.String.{String}
use knockout_kraken.Base.{
  ℕ, zero, suc, ◌+◌, ◌-◌, Bool, true, false, ◌&&◌, List, [], ◌∷◌, map, Option, none, some, ℤ, pos,
  negsuc, is_negative, minus_one, if◌then◌else◌, leb,
}
use knockout_kraken.Socket.{Sockets}

-- What `read` returns: bytes, none of them at the end of the file, or -1.
pub data Read : Type 0 where
  bytes : List ℕ → Read
  read_failed : Read

-- The calls of the system that the two programs make besides those for sockets. `write` returns the
-- number of bytes taken, or -1.
pub record Files (W : Type 0) : Type 0 where
  pub read : ℤ → ℕ → W → Read × W
  pub write : ℤ → List ℕ → W → ℤ × W

abbrev pub socket_name : String
socket_name = "garbage.server"

-- The body of the loop over the bytes read.
unfoldable pub capital : ℕ → ℕ
capital b = if leb 97 b && leb b 122 then b - 97 + 65 else b

-- The rest of a loop behind one message: the next one, unless there is an exit code.
abbrev pub after_message : {W : Type 0} → (W → Option (ℤ × W)) → Option ℤ × W → Option (ℤ × W)
after_message next (none, w) = next w
after_message next (some c, w) = some (c, w)

module _ {W : Type 0} (os : Sockets W) (files : Files W) where
  open os use {socket, connect, bind, listen, accept}
  open files use {read, write}

  -- One message of a connection: `none` goes on, and an exit code ends the program.
  unfoldable pub answer : ℤ → W → Option ℤ × W
  unfolding capital
  answer data_socket w =
      let (got, w1) = read data_socket 128 w in
      elim got [
        | read_failed ↦ (some minus_one, w1)
        | bytes bs ↦
            let (taken, w2) = write data_socket (map capital bs) w1 in
            (if is_negative taken then some minus_one else none, w2)
      ]

  -- The inner `for(;;)`, on fuel. Nothing leaves it but an error.
  unfoldable pub serve : ℕ → ℤ → W → Option (ℤ × W)
  unfolding answer
  serve zero data_socket w = none
  serve (suc fuel) data_socket w =
      after_message (λ w'. serve fuel data_socket w') (answer data_socket w)

  -- `main` of garbage_server.cc. As the inner loop is not left, the outer one has one round.
  unfoldable pub server_main : ℕ → W → Option (ℤ × W)
  unfolding serve
  server_main fuel w =
      let (socket_fd, w1) = socket w in
      let (bound, w2) = bind socket_fd socket_name w1 in
      let (listening, w3) = listen socket_fd 5 w2 in
      let (data_socket, w4) = accept socket_fd w3 in
      if is_negative socket_fd
      then some (pos 1, w1)
      else (if is_negative bound
          then some (minus_one, w2)
          else (if is_negative listening
              then some (minus_one, w3)
              else (if is_negative data_socket
                  then some (minus_one, w4)
                  else serve fuel data_socket w4)))

  -- One message of the client: standard input is descriptor 0. A failed read of the reply does not
  -- end the program.
  unfoldable pub converse : ℤ → W → Option ℤ × W
  converse socket_fd w =
      let (typed, w1) = read (pos 0) 128 w in
      elim typed [
        | read_failed ↦ (some minus_one, w1)
        | bytes bs ↦
            let (taken, w2) = write socket_fd bs w1 in
            let (reply, w3) = read socket_fd 128 w2 in
            if is_negative taken then (some minus_one, w2) else (none, w3)
      ]

  unfoldable pub talk : ℕ → ℤ → W → Option (ℤ × W)
  unfolding converse
  talk zero socket_fd w = none
  talk (suc fuel) socket_fd w = after_message (λ w'. talk fuel socket_fd w') (converse socket_fd w)

  -- `main` of garbage_client.cc.
  unfoldable pub client_main : ℕ → W → Option (ℤ × W)
  unfolding talk
  client_main fuel w =
      let (socket_fd, w1) = socket w in
      let (connected, w2) = connect socket_fd socket_name w1 in
      if is_negative socket_fd
      then some (minus_one, w1)
      else (if is_negative connected then some (minus_one, w2) else talk fuel socket_fd w2)
