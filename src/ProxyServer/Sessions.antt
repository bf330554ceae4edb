-- ===== src/ProxyServer/Sessions.antt =====
-- asio/proxy/server.cc: a session under the completions of Boost.Asio, each after some time. An event
-- whose operation is not pending changes nothing but the clock.
use snippets_cc.Prelude.{
  ℕ, ◌+◌, true, false, List, [], ◌∷◌, ◌++◌, leb, if◌then◌else◌, length, take, drop,
}
use snippets_cc.Asio.{
  Operation, no_operation, receiving, writing, Wait, no_wait, armed, cancelled, Event,
  data_received, receive_failed, all_written, write_failed, wait_ended, wait_cancelled,
}
use snippets_cc.ProxyServer.{
  Watchdog, Side, Session, handle_connect, handle_client_receive, handle_server_write,
  handle_server_receive, handle_client_write, watch_client, watch_server, handle_wait,
}

-- The connection is made or fails; or an operation for one of the sides completes.
pub data Completion : Type 0 where
  connected : Completion
  connect_failed : Completion
  on_client : Event → Completion
  on_server : Event → Completion

-- What a completion of the operation does to its side, before the handler runs.
abbrev pub deliver : List ℕ → Side → Side
deliver bytes x = record x {
  operation = no_operation;
  buffer = bytes ++ drop (length bytes) x.buffer;
  received = x.received ++ bytes;
}

abbrev pub transmit : (count bytes : ℕ) → Side → Side
transmit count bytes x = record x {
  operation = no_operation;
  sent = x.sent ++ take count (take bytes x.buffer);
}

abbrev pub completed : Side → Side
completed x = record x { operation = no_operation }

abbrev pub unwatched : Watchdog → Watchdog
unwatched w = record w { wait = no_wait }

-- A completion for the client's side, by what is pending there.
unfoldable pub react_client : Event → Operation → Wait → Session → Session
react_client (data_received bytes) receiving w s =
    if leb (length bytes) (length s.client.buffer)
    then handle_client_receive false (length bytes) (record s { client = deliver bytes s.client })
    else s
react_client receive_failed receiving w s =
    handle_client_receive true 0 (record s { client = completed s.client })
react_client all_written (writing n) w s =
    handle_server_write false (record s { client = transmit n n s.client })
react_client (write_failed count) (writing n) w s =
    handle_server_write true (record s { client = transmit count n s.client })
react_client wait_ended o (armed expiry) s =
    if leb expiry s.now
    then watch_client (handle_wait false s.now (unwatched s.client.watchdog)) s
    else s
react_client wait_ended o cancelled s =
    watch_client (handle_wait false s.now (unwatched s.client.watchdog)) s
react_client wait_cancelled o cancelled s =
    watch_client (handle_wait true s.now (unwatched s.client.watchdog)) s
react_client _ _ _ s = s

unfoldable pub react_server : Event → Operation → Wait → Session → Session
react_server (data_received bytes) receiving w s =
    if leb (length bytes) (length s.server.buffer)
    then handle_server_receive false (length bytes) (record s { server = deliver bytes s.server })
    else s
react_server receive_failed receiving w s =
    handle_server_receive true 0 (record s { server = completed s.server })
react_server all_written (writing n) w s =
    handle_client_write false (record s { server = transmit n n s.server })
react_server (write_failed count) (writing n) w s =
    handle_client_write true (record s { server = transmit count n s.server })
react_server wait_ended o (armed expiry) s =
    if leb expiry s.now
    then watch_server (handle_wait false s.now (unwatched s.server.watchdog)) s
    else s
react_server wait_ended o cancelled s =
    watch_server (handle_wait false s.now (unwatched s.server.watchdog)) s
react_server wait_cancelled o cancelled s =
    watch_server (handle_wait true s.now (unwatched s.server.watchdog)) s
react_server _ _ _ s = s

unfoldable pub react : Completion → Session → Session
react connected s = if s.connecting then handle_connect false s else s
react connect_failed s = if s.connecting then handle_connect true s else s
react (on_client e) s = react_client e s.client.operation s.client.watchdog.wait s
react (on_server e) s = react_server e s.server.operation s.server.watchdog.wait s

unfoldable pub step : Completion → (elapsed : ℕ) → Session → Session
step c elapsed s = react c (record s { now = s.now + elapsed })

-- The completions, each after the time since the one before.
unfoldable pub run : List (Completion × ℕ) → Session → Session
run [] s = s
run ((c, elapsed) ∷ cs) s = run cs (step c elapsed s)
