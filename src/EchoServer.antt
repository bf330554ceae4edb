-- ===== src/EchoServer.antt =====
-- asio/echo/server.cc, class session in the mode that the server starts it in (`start (false)`): the
-- handlers with the watchdog. A handler is a function from the session before to the session after;
-- Boost.Asio is the environment that completes the operations that are pending. The strand makes each
-- handler one step.
pub mod Events
pub mod Echo
pub mod Watchdog
pub mod Timeout
pub mod Acceptor
mod Tests
pub use snippets_cc.Asio.{
  Operation, no_operation, receiving, writing, Wait, no_wait, armed, cancelled, cancel,
}
use snippets_cc.Prelude.{ℕ, ◌+◌, Bool, true, false, List, [], ◌∷◌, ◌++◌, leb, if◌then◌else◌, length}

-- The members of a session, the clock, and all the bytes received and sent.
pub record Session : Type 0 where
  pub is_open : Bool
  pub timeout : ℕ
  pub deadline : ℕ
  pub buffer : List ℕ
  pub operation : Operation
  pub wait : Wait
  pub now : ℕ
  pub received : List ℕ
  pub sent : List ℕ

-- `explicit session (tcp::socket sock, duration timeout)`; `buffer` is what the array holds.
unfoldable pub make : (timeout now : ℕ) → List ℕ → Session
make timeout now buffer = record {
  is_open = true;
  timeout = timeout;
  deadline = 0;
  buffer = buffer;
  operation = no_operation;
  wait = no_wait;
  now = now;
  received = [];
  sent = [];
}

unfoldable pub stop : Session → Session
stop s = record s { is_open = false; wait = cancel s.wait }

unfoldable pub receive_with_watchdog : Session → Session
receive_with_watchdog s = record s { operation = receiving; deadline = s.now + s.timeout }

unfoldable pub send_with_watchdog : ℕ → Session → Session
send_with_watchdog bytes s = record s { operation = writing bytes; deadline = s.now + s.timeout }

unfoldable pub start_watchdog : Session → Session
start_watchdog s = if leb s.deadline s.now then stop s else record s { wait = armed s.deadline }

-- `start (false)`
unfoldable pub start : Session → Session
start s = start_watchdog (receive_with_watchdog s)

-- The lambdas; `error` tells whether there was one.
unfoldable pub handle_receive : (error : Bool) (bytes : ℕ) → Session → Session
handle_receive error bytes s = if error then stop s else send_with_watchdog bytes s

unfoldable pub handle_write : (error : Bool) → Session → Session
handle_write error s = if error then stop s else receive_with_watchdog s

unfoldable pub handle_wait : (error : Bool) → Session → Session
handle_wait error s = if error then s else start_watchdog s
