-- ===== src/Client/Interface/Waiting.antt =====
-- The loops that poll a status word: what they do once the word changes, and when a read fails.
use knockout_kraken.Base.{
  ℕ, zero, suc, ◌+◌, ◌<◌, ◌≡◌, arith, List, true, none, some, ℤ, Option, minus_one, not, ◌==◌,
  suc-ne-zero, take-append, replicate, ap, ◌∙◌,
}
use knockout_kraken.Base.Word.{u32}
use knockout_kraken.Base.Monad.{Result, ok, err, ◌>>=◌, ◌>>◌}
use knockout_kraken.Client.Fpga.{Fpga}
use knockout_kraken.Client.Message.{MessageFpga, message_bytes}
use knockout_kraken.Client.Message.Pages.{length-message_bytes}
use knockout_kraken.Client.Interface.{
  wait_room, wait_message, wait_pending, has_message_pending, send_message_to_fpga,
  query_message_from_fpga, transplant_wait_till_pending, transplant_free_pending, query_base,
  data_base, message_buffer, axi_transplant_ctrl_base, query_thread_state,
}

-- `n` reads of the word at `a` that all return 0 lead from `w` to `w'`.
pub data Zeros {W : Type 0} (fpga : Fpga W) (a : ℕ) : ℕ → W → W → Type 0 where
  here : {w : W} → Zeros fpga a 0 w w
  again :
      {n : ℕ} {w w1 w' : W}
      → fpga.read_axil a w ≡ some (ok 0, w1)
      → Zeros fpga a n w1 w'
      → Zeros fpga a (suc n) w w'

module _ {W : Type 0} (fpga : Fpga W) where
  wait_room-Zeros :
      (fuel res : ℕ) {n : ℕ} {w w1 w2 : W} {v : ℕ}
      → Zeros fpga (query_base fpga) n w w1
      → fpga.read_axil (query_base fpga) w1 ≡ some (ok (suc v), w2)
      → n < fuel
      → wait_room fpga fuel res w ≡ some (ok tt, w2)
  unfolding wait_room
  wait_room-Zeros zero res z e h = absurd (omega arith)
  wait_room-Zeros (suc fuel) res {v = v} here e h = rw (e, ◌>>=◌, suc-ne-zero v)
  wait_room-Zeros (suc fuel) res (again r z) e h =
      rw (r, ◌>>=◌) (wait_room-Zeros fuel 0 z e (omega arith))

  -- Once the status word is not 0, after `n` reads that return 0, a message of at most 64 bytes is
  -- written to the queue behind zeros up to 64 bytes; enough fuel is one more than `n`.
  pub send_message_room :
      (fuel : ℕ) (raw : List ℕ) {n : ℕ} {w w1 w2 : W} {v : ℕ}
      → Zeros fpga (query_base fpga) n w w1
      → fpga.read_axil (query_base fpga) w1 ≡ some (ok (suc v), w2)
      → n < fuel
      → send_message_to_fpga fpga fuel raw w
        ≡ fpga.write_axi (data_base fpga) (message_buffer raw) w2
  unfolding send_message_to_fpga
  send_message_room fuel raw z e h = rw (wait_room-Zeros fuel 0xFFFF_FFFF z e h, ◌>>=◌, ◌>>◌)

  -- A status read that fails at once, with nothing read, is taken for room: the message is written.
  send_message_unread :
      (fuel : ℕ) (raw : List ℕ) {w w1 : W} {code : ℤ}
      → fpga.read_axil (query_base fpga) w ≡ some (err code none, w1)
      → send_message_to_fpga fpga (suc fuel) raw w
        ≡ fpga.write_axi (data_base fpga) (message_buffer raw) w1
  unfolding send_message_to_fpga wait_room
  send_message_unread fuel raw e = rw (e, ◌>>=◌, ◌>>◌)

  -- Once the status word is not 0, after n reads of it that return 0, a message of sixteen words is
  -- written to the queue as its 64 bytes: nothing is cut off and nothing added. Enough fuel is one
  -- more than n.
  pub send_message_words :
      (fuel : ℕ) (m : MessageFpga) {n : ℕ} {w w1 w2 : W} {v : ℕ}
      → Zeros fpga (query_base fpga) n w w1
      → fpga.read_axil (query_base fpga) w1 ≡ some (ok (suc v), w2)
      → n < fuel
      → send_message_to_fpga fpga fuel (message_bytes m) w
        ≡ fpga.write_axi (data_base fpga) (message_bytes m) w2
  send_message_words fuel m {w2 = w2} z e h =
      send_message_room fuel (message_bytes m) z e h
      ∙ ap (λ (bs : List ℕ). fpga.write_axi (data_base fpga) bs w2)
          (take-append (message_bytes m) (replicate 64 0) 64 (length-message_bytes m))

  has_message_read :
      {w w1 : W} (v : ℕ)
      → fpga.read_axil (u32 (query_base fpga + 4)) w ≡ some (ok v, w1)
      → has_message_pending fpga w ≡ some (ok (not (v == 0)), w1)
  unfolding has_message_pending
  has_message_read v e = rw (e, ◌>>=◌)

  wait_message-Zeros :
      (fuel : ℕ) {n : ℕ} {w w1 w2 : W} {v : ℕ}
      → Zeros fpga (u32 (query_base fpga + 4)) n w w1
      → fpga.read_axil (u32 (query_base fpga + 4)) w1 ≡ some (ok (suc v), w2)
      → n < fuel
      → wait_message fpga fuel w ≡ some (ok tt, w2)
  unfolding wait_message
  wait_message-Zeros zero z e h = absurd (omega arith)
  wait_message-Zeros (suc fuel) {v = v} here e h =
      rw (has_message_read (suc v) e, ◌>>=◌, suc-ne-zero v)
  wait_message-Zeros (suc fuel) (again r z) e h =
      rw (has_message_read 0 r, ◌>>=◌) (wait_message-Zeros fuel z e (omega arith))

  -- Once the pending word is not 0, after `n` reads that return 0, 64 bytes are read from the
  -- queue; enough fuel is one more than `n`.
  query_message_pending :
      (fuel : ℕ) {n : ℕ} {w w1 w2 : W} {v : ℕ}
      → Zeros fpga (u32 (query_base fpga + 4)) n w w1
      → fpga.read_axil (u32 (query_base fpga + 4)) w1 ≡ some (ok (suc v), w2)
      → n < fuel
      → query_message_from_fpga fpga fuel w ≡ fpga.read_axi (data_base fpga) 64 w2
  unfolding query_message_from_fpga
  query_message_pending fuel z e h = rw (wait_message-Zeros fuel z e h, ◌>>=◌, ◌>>◌)

  -- A failed read of the pending word that has read nothing is reported as a pending message.
  pub has_message_unread :
      {w w1 : W} {code : ℤ}
      → fpga.read_axil (u32 (query_base fpga + 4)) w ≡ some (err code none, w1)
      → has_message_pending fpga w ≡ some (ok true, w1)
  unfolding has_message_pending
  has_message_unread e = rw (e, ◌>>=◌)

  -- `queryThreadState` after a read that returns 0 and after one that fails.
  wait_pending-Zeros :
      (fuel : ℕ) {n : ℕ} {w w1 w2 : W} (v : ℕ)
      → Zeros fpga (axi_transplant_ctrl_base fpga) n w w1
      → fpga.read_axil (axi_transplant_ctrl_base fpga) w1 ≡ some (ok (suc v), w2)
      → n < fuel
      → wait_pending fpga (suc fuel) 0 w ≡ some (ok (suc v), w2)
  unfolding wait_pending query_thread_state
  wait_pending-Zeros zero v z e h = absurd (omega arith)
  wait_pending-Zeros (suc fuel) v here e h = rw (e, ◌>>=◌, suc-ne-zero v)
  wait_pending-Zeros (suc fuel) v (again r z) e h =
      rw (r, ◌>>=◌) (wait_pending-Zeros fuel v z e (omega arith))

  wait_pending_err :
      (fuel : ℕ) {n : ℕ} {w w1 w2 : W} {code : ℤ} {o : Option ℕ}
      → Zeros fpga (axi_transplant_ctrl_base fpga) n w w1
      → fpga.read_axil (axi_transplant_ctrl_base fpga) w1 ≡ some (err code o, w2)
      → n < fuel
      → wait_pending fpga fuel 0 w ≡ some (err minus_one none, w2)
  unfolding wait_pending query_thread_state
  wait_pending_err zero z e h = absurd (omega arith)
  wait_pending_err (suc fuel) here e h = rw (e, ◌>>=◌)
  wait_pending_err (suc fuel) (again r z) e h =
      rw (r, ◌>>=◌) (wait_pending_err fuel z e (omega arith))

  -- Once a thread is pending, after `n` reads that return 0, the pending threads are returned, and
  -- they have been written back to the control word once, whatever that write returned; enough fuel
  -- is two more than `n`.
  wait_till_pending :
      (fuel : ℕ) {n : ℕ} {w w1 w2 w3 : W} (v : ℕ) {r : Result (Unit {0})}
      → Zeros fpga (axi_transplant_ctrl_base fpga) n w w1
      → fpga.read_axil (axi_transplant_ctrl_base fpga) w1 ≡ some (ok (suc v), w2)
      → fpga.write_axil (axi_transplant_ctrl_base fpga) (suc v) w2 ≡ some (r, w3)
      → n < fuel
      → transplant_wait_till_pending fpga (suc fuel) w ≡ some (ok (suc v), w3)
  unfolding transplant_wait_till_pending transplant_free_pending
  wait_till_pending fuel v z e f h = rw (wait_pending-Zeros fuel v z e h, ◌>>=◌, f)

  -- A read of the control word that fails, behind reads of it that return 0, ends the wait with -1,
  -- and nothing is written back.
  wait_till_pending_err :
      (fuel : ℕ) {n : ℕ} {w w1 w2 : W} {code : ℤ} {o : Option ℕ}
      → Zeros fpga (axi_transplant_ctrl_base fpga) n w w1
      → fpga.read_axil (axi_transplant_ctrl_base fpga) w1 ≡ some (err code o, w2)
      → n < fuel
      → transplant_wait_till_pending fpga fuel w ≡ some (err minus_one none, w2)
  unfolding transplant_wait_till_pending
  wait_till_pending_err fuel z e h = rw (wait_pending_err fuel z e h, ◌>>=◌)
