-- ===== src/CoroutineServer.antt =====
-- asio/echo/co_server.cc, class session in the mode that the server starts it in (`start (false)`): the
-- coroutine that echoes and the one that watches the deadline. A coroutine stands at a yield, which is the
-- operation or the wait that is pending, and each part of it from one yield to the next is a step on the strand.
pub mod Guard
pub mod Timeout
pub mod Agreement
mod Tests
use snippets_cc.Prelude.{
  ℕ, ◌+◌, Bool, true, false, List, [], ◌∷◌, ◌++◌, leb, if◌then◌else◌, length, take, drop,
}
use snippets_cc.Asio.{
  Operation, no_operation, receiving, writing, Wait, no_wait, armed, cancelled, cancel, resize,
  Event, data_received, receive_failed, all_written, write_failed, wait_ended, wait_cancelled,
}

abbrev pub max_receive : ℕ
max_receive = 1024

-- The members of a session, the clock, the bytes received and sent, and whether the watching coroutine has begun.
-- `no_operation` and, once it has begun, `no_wait` mean that the coroutine has returned.
pub record Session : Type 0 where
  pub is_open : Bool
  pub timeout : ℕ
  pub deadline : ℕ
  pub buffer : List ℕ
  pub operation : Operation
  pub is_watched : Bool
  pub wait : Wait
  pub now : ℕ
  pub received : List ℕ
  pub sent : List ℕ

-- `echo` from the top of the loop to the receive.
unfoldable pub echo : Session → Session
echo s = record s {
  deadline = s.now + s.timeout;
  buffer = resize max_receive s.buffer;
  operation = receiving;
}

-- `echo` after the receive.
unfoldable pub echo_received : (error : Bool) (n : ℕ) → Session → Session
echo_received error n s = if error then record s { wait = cancel s.wait } else record s {
  deadline = s.now + s.timeout;
  buffer = resize n s.buffer;
  operation = writing n;
}

-- `echo` after the write.
unfoldable pub echo_written : (error : Bool) → Session → Session
echo_written error s = if error then record s { wait = cancel s.wait } else echo s

-- `watch` from the top of the loop to the wait.
unfoldable pub watch : Session → Session
watch s =
    if leb s.deadline s.now
    then record s { is_open = false }
    else record s { wait = armed s.deadline }

-- `watch` after the wait.
unfoldable pub watch_waited : (error : Bool) → Session → Session
watch_waited error s = if error then s else watch s

-- `make` and the beginning of `echo`; the watching coroutine has been spawned.
unfoldable pub start_with_watchdog : (timeout now : ℕ) → Session
start_with_watchdog timeout now = echo (record {
  is_open = true;
  timeout = timeout;
  deadline = 0;
  buffer = [];
  operation = no_operation;
  is_watched = false;
  wait = no_wait;
  now = now;
  received = [];
  sent = [];
})

-- The watching coroutine begins.
unfoldable pub start_watchdog : Session → Session
start_watchdog s = if s.is_watched then s else watch (record s { is_watched = true })

abbrev pub advance : ℕ → Session → Session
advance elapsed s = record s { now = s.now + elapsed }

-- The receive has filled the first part of the buffer; the write has written the first bytes of it.
abbrev pub deliver : List ℕ → Session → Session
deliver bytes s = record s {
  operation = no_operation;
  buffer = bytes ++ drop (length bytes) s.buffer;
  received = s.received ++ bytes;
}

abbrev pub transmit : ℕ → Session → Session
transmit count s = record s { operation = no_operation; sent = s.sent ++ take count s.buffer }

-- The coroutine whose operation completes goes on. Received data fits in the buffer.
unfoldable pub react : Event → Operation → Wait → Session → Session
react (data_received bytes) receiving w s =
    if leb (length bytes) (length s.buffer)
    then echo_received false (length bytes) (deliver bytes s)
    else s
react receive_failed receiving w s = echo_received true 0 (record s { operation = no_operation })
react all_written (writing n) w s = echo_written false (transmit n s)
react (write_failed count) (writing n) w s = echo_written true (transmit count s)
react wait_ended o (armed expiry) s =
    if leb expiry s.now then watch_waited false (record s { wait = no_wait }) else s
react wait_ended o cancelled s = watch_waited false (record s { wait = no_wait })
react wait_cancelled o cancelled s = watch_waited true (record s { wait = no_wait })
react _ _ _ s = s

unfoldable pub step : Event → ℕ → Session → Session
step e elapsed s = let s' = advance elapsed s in react e s'.operation s'.wait s'

unfoldable pub run : List (Event × ℕ) → Session → Session
run [] s = s
run ((e, elapsed) ∷ es) s = run es (step e elapsed s)
