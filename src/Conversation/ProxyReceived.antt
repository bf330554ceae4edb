-- ===== src/Conversation/ProxyReceived.antt =====
-- asio/proxy/server.cc: what a completion adds to the bytes that the two sides of a session have received.
use mathlib.Core.Path.{subst}
use snippets_cc.Prelude.{
  ℕ, ◌+◌, ◌≡◌, refl, sym, ◌∙◌, Bool, true, false, if◌then◌else◌, Option, none, inl, inr, List, leb,
  length, Bool-cases,
}
use snippets_cc.Asio.{
  Operation, receiving, writing, Wait, armed, cancelled, Event, data_received, receive_failed,
  all_written, write_failed, wait_ended, wait_cancelled,
}
use snippets_cc.ProxyServer.{
  Watchdog, Session, stop, handle_connect, handle_client_receive, handle_server_write, watch_client,
  watch_server, receive_from_client, receive_from_server, send_to_server, start_watchdog,
  start_watchdogs, receive, send,
}
use snippets_cc.ProxyServer.Symmetry.{flip, react_server-flip}
use snippets_cc.ProxyServer.Sessions.{
  Completion, connected, connect_failed, on_client, on_server, react_client, react_server, react,
  step,
}
use snippets_cc.Conversation.{Grows}
use snippets_cc.Conversation.Received.{arrives}

-- The bytes that a completion brings from the client, and from the target.
abbrev pub from_client : Completion → Option (List ℕ)
from_client (on_client e) = arrives e
from_client _ = none

abbrev pub from_target : Completion → Option (List ℕ)
from_target (on_server e) = arrives e
from_target _ = none

-- Both sides, after a completion.
abbrev pub GrowBoth : (client target : Option (List ℕ)) → (before after : Session) → Type 0
GrowBoth client target s t =
    Grows client s.client.received t.client.received
    × Grows target s.server.received t.server.received

-- The same bytes have been received.
abbrev SameReceived : (before after : Session) → Type 0
SameReceived s t = (t.client.received ≡ s.client.received) × (t.server.received ≡ s.server.received)

watch_client-SameReceived : (r : Watchdog × Bool) (s : Session) → SameReceived s (watch_client r s)
unfolding watch_client stop
watch_client-SameReceived (w, true) s = (refl, refl)
watch_client-SameReceived (w, false) s = (refl, refl)

watch_server-SameReceived : (r : Watchdog × Bool) (s : Session) → SameReceived s (watch_server r s)
unfolding watch_server stop
watch_server-SameReceived (w, true) s = (refl, refl)
watch_server-SameReceived (w, false) s = (refl, refl)

watch_client-GrowBoth :
    (r : Watchdog × Bool) (s : Session) → GrowBoth none none s (watch_client r s)
watch_client-GrowBoth r s = let (c, t) = watch_client-SameReceived r s in (inl c, inl t)

react_client-GrowBoth :
    (e : Event) (o : Operation) (w : Wait) (s : Session)
    → GrowBoth (arrives e) none s (react_client e o w s)
unfolding react_client handle_client_receive handle_server_write receive_from_client send_to_server
    receive send stop
react_client-GrowBoth (data_received bytes) receiving w s =
    elim (Bool-cases (leb (length bytes) (length s.client.buffer))) [
      | inl fits ↦ rw fits (inr (bytes, refl, refl), inl refl)
      | inr over ↦ rw over (inl refl, inl refl)
    ]
react_client-GrowBoth wait_ended o (armed expiry) s = elim (Bool-cases (leb expiry s.now)) [
  | inl due ↦ rw due (watch_client-GrowBoth _ s)
  | inr early ↦ rw early (inl refl, inl refl)
]
react_client-GrowBoth wait_ended o cancelled s = watch_client-GrowBoth _ s
react_client-GrowBoth wait_cancelled o cancelled s = watch_client-GrowBoth _ s
react_client-GrowBoth receive_failed receiving w s = (inl refl, inl refl)
react_client-GrowBoth all_written (writing n) w s = (inl refl, inl refl)
react_client-GrowBoth (write_failed count) (writing n) w s = (inl refl, inl refl)
react_client-GrowBoth _ _ _ s = (inl refl, inl refl)

react_server-GrowBoth :
    (e : Event) (o : Operation) (w : Wait) (s : Session)
    → GrowBoth none (arrives e) s (react_server e o w s)
unfolding flip
react_server-GrowBoth e o w s =
    let g = react_client-GrowBoth e o w (flip s) in
    subst (GrowBoth none (arrives e) s) (sym (react_server-flip e o w s)) (g.1, g.0)

handle_connect-GrowBoth :
    (error : Bool) (s : Session) → GrowBoth none none s (handle_connect error s)
unfolding handle_connect start_watchdogs receive_from_client receive_from_server receive
handle_connect-GrowBoth true s = (inl refl, inl refl)
handle_connect-GrowBoth false s =
    let begun =
      receive_from_server
        (receive_from_client (record s { connecting = false; is_running = true })) in
    let watched = watch_client (start_watchdog begun.now begun.client.watchdog) begun in
    let (c, t) = watch_client-SameReceived (start_watchdog begun.now begun.client.watchdog) begun in
    let (c', t') =
      watch_server-SameReceived (start_watchdog watched.now watched.server.watchdog) watched in
    (inl (c' ∙ c), inl (t' ∙ t))

connect-GrowBoth :
    (error b : Bool) (s : Session) → GrowBoth none none s (if b then handle_connect error s else s)
connect-GrowBoth error true s = handle_connect-GrowBoth error s
connect-GrowBoth error false s = (inl refl, inl refl)

react-GrowBoth :
    (c : Completion) (s : Session) → GrowBoth (from_client c) (from_target c) s (react c s)
unfolding react
react-GrowBoth connected s = connect-GrowBoth false s.connecting s
react-GrowBoth connect_failed s = connect-GrowBoth true s.connecting s
react-GrowBoth (on_client e) s = react_client-GrowBoth e s.client.operation s.client.watchdog.wait s
react-GrowBoth (on_server e) s = react_server-GrowBoth e s.server.operation s.server.watchdog.wait s

pub step-GrowBoth :
    (c : Completion) (elapsed : ℕ) (s : Session)
    → GrowBoth (from_client c) (from_target c) s (step c elapsed s)
unfolding step
step-GrowBoth c elapsed s = react-GrowBoth c (record s { now = s.now + elapsed })
