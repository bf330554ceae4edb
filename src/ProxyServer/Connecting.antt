-- ===== src/ProxyServer/Connecting.antt =====
-- asio/proxy/server.cc: a session whose connection to the target is pending.
use snippets_cc.Prelude.{Bool, true, false, ◌≡◌, refl, inl, inr, leb, length, Bool-cases}
use snippets_cc.Asio.{
  Operation, no_operation, receiving, writing, Wait, no_wait, armed, cancelled, Event,
  data_received, receive_failed, all_written, write_failed, wait_ended, wait_cancelled,
}
use snippets_cc.ProxyServer.{
  Watchdog, Side, Session, stop, handle_client_receive, handle_server_write, watch_client,
  watch_server, receive_from_client, send_to_server,
}
use snippets_cc.ProxyServer.Sessions.{react_client}

-- Until the connection is made, nothing is pending and nothing has been passed on at a side.
abbrev pub IsIdle : Side → Type 0
IsIdle x = (x.operation ≡ no_operation) × (x.received ≡ x.sent)

abbrev pub IdleSides : (connecting : Bool) (client server : Side) → Type 0
IdleSides true client server = IsIdle client × IsIdle server
IdleSides false client server = Unit

abbrev pub AreIdle : Bool → Session → Type 0
AreIdle b s = IdleSides b s.client s.server

watch_client-AreIdle :
    (b : Bool) (r : Watchdog × Bool) (s : Session) → AreIdle b s → AreIdle b (watch_client r s)
unfolding watch_client stop
watch_client-AreIdle false (w, called) s h = tt
watch_client-AreIdle true (w, true) s h = h
watch_client-AreIdle true (w, false) s h = h

pub react_client-AreIdle :
    (e : Event) (w : Wait) (s : Session)
    → AreIdle true s
    → AreIdle true (react_client e no_operation w s)
unfolding react_client
react_client-AreIdle wait_ended (armed expiry) s h = elim (Bool-cases (leb expiry s.now)) [
  | inl due ↦ rw due (watch_client-AreIdle true _ s h)
  | inr early ↦ rw early h
]
react_client-AreIdle wait_ended cancelled s h = watch_client-AreIdle true _ s h
react_client-AreIdle wait_cancelled cancelled s h = watch_client-AreIdle true _ s h
react_client-AreIdle wait_ended no_wait s h = h
react_client-AreIdle wait_cancelled no_wait s h = h
react_client-AreIdle wait_cancelled (armed expiry) s h = h
react_client-AreIdle (data_received bytes) w s h = h
react_client-AreIdle receive_failed w s h = h
react_client-AreIdle all_written w s h = h
react_client-AreIdle (write_failed count) w s h = h

-- Only the completion of `async_connect` ends the connecting.
pub watch_client-connecting :
    (r : Watchdog × Bool) (s : Session) → (watch_client r s).connecting ≡ s.connecting
unfolding watch_client stop
watch_client-connecting (w, true) s = refl
watch_client-connecting (w, false) s = refl

pub watch_server-connecting :
    (r : Watchdog × Bool) (s : Session) → (watch_server r s).connecting ≡ s.connecting
unfolding watch_server stop
watch_server-connecting (w, true) s = refl
watch_server-connecting (w, false) s = refl

pub react_client-connecting :
    (e : Event) (o : Operation) (w : Wait) (s : Session)
    → (react_client e o w s).connecting ≡ s.connecting
unfolding react_client handle_client_receive handle_server_write receive_from_client send_to_server
    stop
react_client-connecting (data_received bytes) receiving w s =
    elim (Bool-cases (leb (length bytes) (length s.client.buffer))) [
      | inl fits ↦ rw fits refl
      | inr over ↦ rw over refl
    ]
react_client-connecting receive_failed receiving w s = refl
react_client-connecting all_written (writing n) w s = refl
react_client-connecting (write_failed count) (writing n) w s = refl
react_client-connecting wait_ended o (armed expiry) s = elim (Bool-cases (leb expiry s.now)) [
  | inl due ↦ rw due (watch_client-connecting _ s)
  | inr early ↦ rw early refl
]
react_client-connecting wait_ended o cancelled s = watch_client-connecting _ s
react_client-connecting wait_cancelled o cancelled s = watch_client-connecting _ s
react_client-connecting _ _ _ s = refl
