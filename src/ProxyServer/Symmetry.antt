-- ===== src/ProxyServer/Symmetry.antt =====
-- asio/proxy/server.cc: the methods for the server's side against those for the client's.
use snippets_cc.Prelude.{◌≡◌, refl, Bool, true, false, inl, inr, Bool-cases, leb, length}
use snippets_cc.Asio.{
  Operation, receiving, writing, Wait, armed, cancelled, Event, data_received, receive_failed,
  all_written, write_failed, wait_ended, wait_cancelled,
}
use snippets_cc.ProxyServer.{
  Watchdog, Session, stop, handle_client_receive, handle_server_write, handle_server_receive,
  handle_client_write, watch_client, watch_server, receive_from_client, receive_from_server,
  send_to_client, send_to_server,
}
use snippets_cc.ProxyServer.Sessions.{react_client, react_server}

-- The session with its sides exchanged.
unfoldable pub flip : Session → Session
flip s = record s { client = s.server; server = s.client }

pub watch_server-flip :
    (r : Watchdog × Bool) (s : Session) → watch_server r s ≡ flip (watch_client r (flip s))
unfolding watch_server watch_client stop flip
watch_server-flip (w, true) s = refl
watch_server-flip (w, false) s = refl

-- Whatever completes for the target server's side of the proxy, the session does what it would do for the
-- client's side with the two sides exchanged.
pub react_server-flip :
    (e : Event) (o : Operation) (w : Wait) (s : Session)
    → react_server e o w s ≡ flip (react_client e o w (flip s))
unfolding react_server react_client flip stop handle_client_receive handle_server_write
    handle_server_receive handle_client_write receive_from_client receive_from_server send_to_client
    send_to_server
react_server-flip (data_received bytes) receiving w s =
    elim (Bool-cases (leb (length bytes) (length s.server.buffer))) [
      | inl fits ↦ rw fits refl
      | inr over ↦ rw over refl
    ]
react_server-flip wait_ended o (armed expiry) s = elim (Bool-cases (leb expiry s.now)) [
  | inl due ↦ rw due (watch_server-flip _ s)
  | inr early ↦ rw early refl
]
react_server-flip wait_ended o cancelled s = watch_server-flip _ s
react_server-flip wait_cancelled o cancelled s = watch_server-flip _ s
react_server-flip receive_failed receiving w s = refl
react_server-flip all_written (writing n) w s = refl
react_server-flip (write_failed count) (writing n) w s = refl
react_server-flip _ _ _ s = refl
