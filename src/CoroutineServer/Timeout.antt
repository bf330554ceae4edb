-- ===== src/CoroutineServer/Timeout.antt =====
-- asio/echo/co_server.cc, class session in the mode with a timeout for each operation (`start (true)`): the coroutine that
-- echoes, and a coroutine for each timeout. Several of these may wait on the one timer: a new expiry cancels the waits
-- before it.
pub mod Guard
use snippets_cc.Prelude.{
  ℕ, zero, suc, ◌+◌, ◌-◌, ◌<◌, ◌≡◌, ◌⊎◌, refl, ap, Bool, true, false, Bool-cases, inl, inr, Option,
  none, some, Option-cases, List, [], ◌∷◌, ◌++◌, map, ◌==◌, leb, if◌then◌else◌, length, take, drop,
  get_elem?, arith,
}
use snippets_cc.Asio.{
  Operation, no_operation, receiving, writing, Wait, no_wait, armed, cancelled, cancel, resize,
}
use snippets_cc.CoroutineServer.{max_receive}

-- `spawned` is the number of timeout coroutines that have not begun, `waits` are the others, each at its wait.
pub record Session : Type 0 where
  pub is_open : Bool
  pub timeout : ℕ
  pub buffer : List ℕ
  pub operation : Operation
  pub spawned : ℕ
  pub waits : List Wait
  pub now : ℕ
  pub received : List ℕ
  pub sent : List ℕ

unfoldable pub start_timeout : Session → Session
start_timeout s = record s { spawned = s.spawned + 1 }

-- `timer_.cancel ()`
unfoldable pub cancel_timer : Session → Session
cancel_timer s = record s { waits = map cancel s.waits }

-- `wait`: from its beginning to the wait, and after it.
unfoldable pub begin_wait : Session → Session
begin_wait s = record (cancel_timer s) {
  spawned = s.spawned - 1;
  waits = map cancel s.waits ++ armed (s.now + s.timeout) ∷ [];
}

unfoldable pub waited : (error : Bool) → Session → Session
waited error s = if error then s else record s { is_open = false }

-- `echo`: from the top of the loop to the receive, after it to the write, and after the write.
unfoldable pub echo : Session → Session
echo s = record (start_timeout s) { buffer = resize max_receive s.buffer; operation = receiving }

unfoldable pub echo_received : (error : Bool) (n : ℕ) → Session → Session
echo_received error n s =
    if error then cancel_timer s else record (start_timeout (cancel_timer s)) {
      buffer = resize n s.buffer;
      operation = writing n;
    }

unfoldable pub echo_written : (error : Bool) → Session → Session
echo_written error s = if error then cancel_timer s else echo (cancel_timer s)

-- `make` and `start_with_timeout`, with the beginning of `echo`.
unfoldable pub start_with_timeout : (timeout now : ℕ) → Session
start_with_timeout timeout now = echo (record {
  is_open = true;
  timeout = timeout;
  buffer = [];
  operation = no_operation;
  spawned = 0;
  waits = [];
  now = now;
  received = [];
  sent = [];
})

-- A timeout coroutine begins, its wait ends or is cancelled; the receive or the write of `echo` completes.
pub data Completion : Type 0 where
  wait_begins : Completion
  wait_ended wait_cancelled : (i : ℕ) → Completion
  data_received : (bytes : List ℕ) → Completion
  receive_failed : Completion
  all_written : Completion
  write_failed : (bytes : ℕ) → Completion

-- The waits without the one at `i`.
abbrev pub remove : ℕ → List Wait → List Wait
remove i [] = []
remove zero (w ∷ ws) = ws
remove (suc i) (w ∷ ws) = w ∷ remove i ws

abbrev pub end_wait : Option Wait → (i : ℕ) → Session → Session
end_wait (some (armed expiry)) i s =
    if leb expiry s.now then waited false (record s { waits = remove i s.waits }) else s
end_wait (some cancelled) i s = waited false (record s { waits = remove i s.waits })
end_wait _ i s = s

abbrev pub abort_wait : Option Wait → (i : ℕ) → Session → Session
abort_wait (some cancelled) i s = waited true (record s { waits = remove i s.waits })
abort_wait _ i s = s

abbrev pub transmit : ℕ → Session → Session
transmit count s = record s { operation = no_operation; sent = s.sent ++ take count s.buffer }

-- Received data fits in the buffer.
unfoldable pub react : Completion → Operation → Session → Session
react wait_begins o s = if s.spawned == 0 then s else begin_wait s
react (wait_ended i) o s = end_wait (get_elem? s.waits i) i s
react (wait_cancelled i) o s = abort_wait (get_elem? s.waits i) i s
react (data_received bytes) receiving s =
    if leb (length bytes) (length s.buffer)
    then echo_received false (length bytes) (record s {
      operation = no_operation;
      buffer = bytes ++ drop (length bytes) s.buffer;
      received = s.received ++ bytes;
    })
    else s
react receive_failed receiving s = echo_received true 0 (record s { operation = no_operation })
react all_written (writing n) s = echo_written false (transmit n s)
react (write_failed count) (writing n) s = echo_written true (transmit count s)
react _ _ s = s

unfoldable pub run : List (Completion × ℕ) → Session → Session
run [] s = s
run ((c, elapsed) ∷ cs) s = run cs (react c s.operation (record s { now = s.now + elapsed }))
