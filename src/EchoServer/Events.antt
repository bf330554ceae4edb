-- ===== src/EchoServer/Events.antt =====
-- The completions of Boost.Asio, each after some time. An event whose operation is not pending, or that
-- Boost.Asio does not produce, changes nothing but the clock.
pub use snippets_cc.Asio.{
  Event, data_received, receive_failed, all_written, write_failed, wait_ended, wait_cancelled,
}
use snippets_cc.Prelude.{
  drop, ℕ, ◌+◌, true, false, List, [], ◌∷◌, ◌++◌, leb, if◌then◌else◌, length, take,
}
use snippets_cc.EchoServer.{
  Operation, no_operation, receiving, writing, Wait, no_wait, armed, cancelled, Session, start,
  make, handle_receive, handle_write, handle_wait,
}

-- `elapsed` is the time since the last event.
abbrev pub advance : ℕ → Session → Session
advance elapsed s = record s { now = s.now + elapsed }

-- The operation is no longer pending when its handler runs.
abbrev pub completed : Session → Session
completed s = record s { operation = no_operation }

abbrev pub deliver : List ℕ → Session → Session
deliver bytes s = record s {
  operation = no_operation;
  buffer = bytes ++ drop (length bytes) s.buffer;
  received = s.received ++ bytes;
}

abbrev pub transmit : ℕ → ℕ → Session → Session
transmit count bytes s = record s {
  operation = no_operation;
  sent = s.sent ++ take count (take bytes s.buffer);
}

-- Received data fits in the buffer.
unfoldable pub react : Event → Operation → Wait → Session → Session
react (data_received bytes) receiving w s =
    if leb (length bytes) (length s.buffer)
    then handle_receive false (length bytes) (deliver bytes s)
    else s
react receive_failed receiving w s = handle_receive true 0 (completed s)
react all_written (writing bytes) w s = handle_write false (transmit bytes bytes s)
react (write_failed count) (writing bytes) w s = handle_write true (transmit count bytes s)
react wait_ended o (armed expiry) s =
    if leb expiry s.now then handle_wait false (record s { wait = no_wait }) else s
react wait_ended o cancelled s = handle_wait false (record s { wait = no_wait })
react wait_cancelled o cancelled s = handle_wait true (record s { wait = no_wait })
react _ _ _ s = s

unfoldable pub step : Event → ℕ → Session → Session
step e elapsed s = let s' = advance elapsed s in react e s'.operation s'.wait s'

unfoldable pub run : List (Event × ℕ) → Session → Session
run [] s = s
run ((e, elapsed) ∷ es) s = run es (step e elapsed s)

-- A session that has been started.
unfoldable pub started : (timeout now : ℕ) → List ℕ → Session
started timeout now buffer = start (make timeout now buffer)
