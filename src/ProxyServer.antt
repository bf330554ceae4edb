-- ===== src/ProxyServer.antt =====
-- asio/proxy/server.cc: the classes watchdog and session. A session has two sides, the client and the
-- target server; what is received from one is written to the other, and the methods for the two sides
-- have the same code, each with its socket, buffer, strand and watchdog. A handler is a function from
-- the session before to the session after. One thread runs the handlers (`main` calls `run` once).
pub mod Sessions
pub mod Symmetry
pub mod Connecting
pub mod Forwarding
pub mod Watchdogs
pub mod Acceptor
mod Tests
use snippets_cc.Prelude.{
  ℕ, ◌+◌, Bool, true, false, Option, none, some, List, [], ◌∷◌, ◌++◌, leb, if◌then◌else◌, length,
}
use snippets_cc.Asio.{Operation, no_operation, receiving, writing, Wait, no_wait, armed, cancel}

pub record Watchdog : Type 0 where
  pub deadline : ℕ
  pub wait : Wait

-- `start (cb)`: the watchdog, and whether it calls `cb`.
unfoldable pub start_watchdog : (now : ℕ) → Watchdog → Watchdog × Bool
start_watchdog now w =
    if leb w.deadline now then (w, true) else (record w { wait = armed w.deadline }, false)

-- `handle_wait` in `start`.
unfoldable pub handle_wait : (error : Bool) (now : ℕ) → Watchdog → Watchdog × Bool
handle_wait error now w = if error then (w, false) else start_watchdog now w

unfoldable pub stop_watchdog : Watchdog → Watchdog
stop_watchdog w = record w { wait = cancel w.wait }

unfoldable pub delay : (now dur : ℕ) → Watchdog → Watchdog
delay now dur w = record w { deadline = now + dur }

-- One side: the buffer for what is received from it, the operation pending on behalf of these bytes, their watchdog,
-- and all the bytes received from the side and written to the other.
pub record Side : Type 0 where
  pub buffer : List ℕ
  pub operation : Operation
  pub watchdog : Watchdog
  pub received : List ℕ
  pub sent : List ℕ

-- The members of a session and the clock. `connecting` tells whether `async_connect` is pending, `is_running`
-- whether it has succeeded and `stop` has not been called since.
pub record Session : Type 0 where
  pub connecting : Bool
  pub is_running : Bool
  pub timeout : ℕ
  pub client : Side
  pub server : Side
  pub now : ℕ

-- `receive_from_client` and `receive_from_server`.
unfoldable pub receive : (now timeout : ℕ) → Side → Side
unfolding delay
receive now timeout x = record x { operation = receiving; watchdog = delay now timeout x.watchdog }

-- `send_to_server` and `send_to_client`.
unfoldable pub send : (bytes now timeout : ℕ) → Side → Side
unfolding delay
send bytes now timeout x = record x {
  operation = writing bytes;
  watchdog = delay now timeout x.watchdog;
}

unfoldable pub receive_from_client : Session → Session
receive_from_client s = record s { client = receive s.now s.timeout s.client }

unfoldable pub send_to_server : ℕ → Session → Session
send_to_server bytes s = record s { client = send bytes s.now s.timeout s.client }

unfoldable pub receive_from_server : Session → Session
receive_from_server s = record s { server = receive s.now s.timeout s.server }

unfoldable pub send_to_client : ℕ → Session → Session
send_to_client bytes s = record s { server = send bytes s.now s.timeout s.server }

unfoldable pub stop : Session → Session
unfolding stop_watchdog
stop s = record s {
  is_running = false;
  client = record s.client { watchdog = stop_watchdog s.client.watchdog };
  server = record s.server { watchdog = stop_watchdog s.server.watchdog };
}

-- `watchdog1_.start (callback)` and `watchdog2_.start (callback)`, with the callback that stops the session.
unfoldable pub watch_client : Watchdog × Bool → Session → Session
watch_client (w, called) s =
    let s' = record s { client = record s.client { watchdog = w } } in
    if called then stop s' else s'

unfoldable pub watch_server : Watchdog × Bool → Session → Session
watch_server (w, called) s =
    let s' = record s { server = record s.server { watchdog = w } } in
    if called then stop s' else s'

unfoldable pub start_watchdogs : Session → Session
start_watchdogs s =
    let s' = watch_client (start_watchdog s.now s.client.watchdog) s in
    watch_server (start_watchdog s'.now s'.server.watchdog) s'

-- `handle_connect` in `start`: an error leaves the session with nothing pending.
unfoldable pub handle_connect : (error : Bool) → Session → Session
handle_connect error s =
    if error
    then record s { connecting = false }
    else start_watchdogs (
        receive_from_server
          (receive_from_client (record s { connecting = false; is_running = true })))

-- The lambdas of the four methods.
unfoldable pub handle_client_receive : (error : Bool) (bytes : ℕ) → Session → Session
handle_client_receive error bytes s = if error then stop s else send_to_server bytes s

unfoldable pub handle_server_write : (error : Bool) → Session → Session
handle_server_write error s = if error then stop s else receive_from_client s

unfoldable pub handle_server_receive : (error : Bool) (bytes : ℕ) → Session → Session
handle_server_receive error bytes s = if error then stop s else send_to_client bytes s

unfoldable pub handle_client_write : (error : Bool) → Session → Session
handle_client_write error s = if error then stop s else receive_from_server s

-- `make (client, timeout)` and `start (target)`: the connection is pending. The buffers hold what the arrays hold.
unfoldable pub start : (timeout now : ℕ) → List ℕ → List ℕ → Session
start timeout now client_buffer server_buffer =
    let side : List ℕ → Side = λ b. record {
      buffer = b;
      operation = no_operation;
      watchdog = record { deadline = 0; wait = no_wait };
      received = [];
      sent = [];
    } in
    record {
      connecting = true;
      is_running = false;
      timeout = timeout;
      client = side client_buffer;
      server = side server_buffer;
      now = now;
    }
