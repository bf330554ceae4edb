-- ===== src/ProxyServer/Forwarding.antt =====
-- asio/proxy/server.cc: the bytes received from each side against the bytes written to the other.
use snippets_cc.Prelude.{
  ℕ, Bool, true, false, ◌+◌, ◌≡◌, refl, sym, ap, ◌∙◌, inl, inr, List, [], ◌∷◌, ◌++◌, leb,
  if◌then◌else◌, length, take, drop, append-nil, append_assoc, Bool-cases, take_of_length-le,
  length-take-le, take-drop, take-append,
}
use mathlib.Core.Path.{subst}
use snippets_cc.Asio.{
  Operation, receiving, writing, Wait, armed, cancelled, Event, data_received, receive_failed,
  all_written, write_failed, wait_ended, wait_cancelled, Owes,
}
use snippets_cc.ProxyServer.{
  Watchdog, Side, Session, start, stop, handle_connect, handle_client_receive, handle_server_write,
  watch_client, watch_server, start_watchdog, start_watchdogs, receive, send, receive_from_client,
  receive_from_server, send_to_server,
}
use snippets_cc.ProxyServer.Symmetry.{flip, react_server-flip}
use snippets_cc.ProxyServer.Sessions.{
  Completion, connected, connect_failed, on_client, on_server, deliver, transmit, react_client,
  react_server, react, step, run,
}
use snippets_cc.ProxyServer.Connecting.{
  AreIdle, react_client-AreIdle, watch_client-connecting, watch_server-connecting,
  react_client-connecting,
}

-- The pending operation owes what the side has received and not passed on.
abbrev pub IsBalanced : Side → Type 0
IsBalanced x = Owes x.operation x.received x.sent x.buffer

-- Completions at one side.
deliver-send :
    (x : Side) (bytes : List ℕ) (now timeout : ℕ)
    → Owes receiving x.received x.sent x.buffer
    → IsBalanced (send (length bytes) now timeout (deliver bytes x))
unfolding send
deliver-send x bytes now timeout h =
    rw (take-append bytes (drop (length bytes) x.buffer)) (rw h refl)

transmit-all :
    (x : Side) (n : ℕ)
    → Owes (writing n) x.received x.sent x.buffer
    → x.received ≡ x.sent ++ take n (take n x.buffer)
transmit-all x n h =
    h ∙ sym (ap (x.sent ++◌) (take_of_length-le n (take n x.buffer) (length-take-le n x.buffer)))

transmit-some :
    (x : Side) (count n : ℕ)
    → Owes (writing n) x.received x.sent x.buffer
    → IsBalanced (transmit count n x)
transmit-some x count n h = (
  drop count (take n x.buffer),
  h ∙ ap (x.sent ++◌) (sym (take-drop count (take n x.buffer))) ∙ sym (append_assoc x.sent _ _),
)

-- Both sides are balanced.
abbrev pub AreBalanced : Session → Type 0
AreBalanced s = IsBalanced s.client × IsBalanced s.server

-- What concerns the watchdogs alone changes no operation.
stop-AreBalanced : (s : Session) → AreBalanced s → AreBalanced (stop s)
unfolding stop
stop-AreBalanced s h = h

watch_client-AreBalanced :
    (r : Watchdog × Bool) (s : Session) → AreBalanced s → AreBalanced (watch_client r s)
unfolding watch_client stop
watch_client-AreBalanced (w, true) s h = h
watch_client-AreBalanced (w, false) s h = h

watch_server-AreBalanced :
    (r : Watchdog × Bool) (s : Session) → AreBalanced s → AreBalanced (watch_server r s)
unfolding watch_server stop
watch_server-AreBalanced (w, true) s h = h
watch_server-AreBalanced (w, false) s h = h

react_client-AreBalanced :
    (e : Event) (o : Operation) (w : Wait) (s : Session)
    → s.client.operation ≡ o
    → Owes o s.client.received s.client.sent s.client.buffer × IsBalanced s.server
    → AreBalanced (react_client e o w s)
unfolding react_client handle_client_receive handle_server_write receive_from_client send_to_server
    receive stop
react_client-AreBalanced (data_received bytes) receiving w s e h =
    elim (Bool-cases (leb (length bytes) (length s.client.buffer))) [
      | inl fits ↦ rw fits (deliver-send s.client bytes _ _ (h.0), h.1)
      | inr over ↦ rw over (rw e (h.0), h.1)
    ]
react_client-AreBalanced receive_failed receiving w s e h =
    (([], h.0 ∙ sym (append-nil s.client.sent)), h.1)
react_client-AreBalanced all_written (writing n) w s e h = (transmit-all s.client n (h.0), h.1)
react_client-AreBalanced (write_failed count) (writing n) w s e h =
    (transmit-some s.client count n (h.0), h.1)
react_client-AreBalanced wait_ended o (armed expiry) s e h = elim (Bool-cases (leb expiry s.now)) [
  | inl due ↦ let b : AreBalanced s = (rw e (h.0), h.1) in rw due (watch_client-AreBalanced _ s b)
  | inr early ↦ rw early (rw e (h.0), h.1)
]
react_client-AreBalanced wait_ended o cancelled s e h =
    watch_client-AreBalanced _ s (rw e (h.0), h.1)
react_client-AreBalanced wait_cancelled o cancelled s e h =
    watch_client-AreBalanced _ s (rw e (h.0), h.1)
react_client-AreBalanced _ _ _ s e h = (rw e (h.0), h.1)

-- What holds of a session between two completions.
abbrev pub IsSound : Session → Type 0
IsSound s = AreBalanced s × AreIdle s.connecting s

-- A completion at the client's side, with what is pending there.
client-IsSound :
    (e : Event) (s : Session)
    → IsSound s
    → IsSound (react_client e s.client.operation s.client.watchdog.wait s)
client-IsSound e s (balanced, idle) =
    let o = s.client.operation in
    let w = s.client.watchdog.wait in
    (
      react_client-AreBalanced e o w s refl balanced,
      rw (react_client-connecting e o w s) (kept s.connecting idle),
    )
  where
    kept :
        (b : Bool)
        → AreIdle b s
        → AreIdle b (react_client e s.client.operation s.client.watchdog.wait s)
    kept false h = tt
    kept true h =
        subst (λ o. AreIdle true (react_client e o s.client.watchdog.wait s)) (sym (h.0.0))
          (react_client-AreIdle e s.client.watchdog.wait s h)

-- The other side, by symmetry.
flip-IsSound : (s : Session) → IsSound s → IsSound (flip s)
unfolding flip
flip-IsSound s (balanced, idle) = ((balanced.1, balanced.0), flipped s.connecting idle)
  where
    flipped :
        (b : Bool) → AreIdle b s → AreIdle b (record s { client = s.server; server = s.client })
    flipped true h = (h.1, h.0)
    flipped false h = tt

server-IsSound :
    (e : Event) (s : Session)
    → IsSound s
    → IsSound (react_server e s.server.operation s.server.watchdog.wait s)
unfolding flip
server-IsSound e s h =
    let t = flip s in
    let r = client-IsSound e t (flip-IsSound s h) in
    subst IsSound (sym (react_server-flip e s.server.operation s.server.watchdog.wait s))
      (flip-IsSound (react_client e s.server.operation s.server.watchdog.wait t) r)

handle_connect-IsSound :
    (error : Bool) (s : Session) → AreBalanced s → AreIdle true s → IsSound (handle_connect error s)
unfolding handle_connect start_watchdogs receive_from_client receive_from_server receive
handle_connect-IsSound true s balanced idle = (balanced, tt)
handle_connect-IsSound false s balanced idle =
    let begun : Session =
      receive_from_server
        (receive_from_client (record s { connecting = false; is_running = true })) in
    let b : AreBalanced begun = (idle.0.1, idle.1.1) in
    let watched = watch_client (start_watchdog begun.now begun.client.watchdog) begun in
    (
      watch_server-AreBalanced _ watched (watch_client-AreBalanced _ begun b),
      subst
          (λ b.
            AreIdle b (watch_server (start_watchdog watched.now watched.server.watchdog) watched))
          (sym (watch_server-connecting _ watched ∙ watch_client-connecting _ begun)) tt,
    )

connect_ended-IsSound :
    (error b : Bool) (s : Session)
    → IsSound s
    → AreIdle b s
    → IsSound (if b then handle_connect error s else s)
connect_ended-IsSound error true s h idle = handle_connect-IsSound error s (h.0) idle
connect_ended-IsSound error false s h idle = h

react-IsSound : (c : Completion) (s : Session) → IsSound s → IsSound (react c s)
unfolding react
react-IsSound (on_client e) s h = client-IsSound e s h
react-IsSound (on_server e) s h = server-IsSound e s h
react-IsSound connected s h = connect_ended-IsSound false s.connecting s h (h.1)
react-IsSound connect_failed s h = connect_ended-IsSound true s.connecting s h (h.1)

pub run-IsSound : (cs : List (Completion × ℕ)) (s : Session) → IsSound s → IsSound (run cs s)
unfolding run step
run-IsSound [] s h = h
run-IsSound ((c, elapsed) ∷ cs) s h =
    run-IsSound cs (step c elapsed s) (react-IsSound c (record s { now = s.now + elapsed }) h)

pub start-IsSound :
    (timeout now : ℕ) (client_buffer server_buffer : List ℕ)
    → IsSound (start timeout now client_buffer server_buffer)
unfolding start
start-IsSound timeout now client_buffer server_buffer =
    ((([], refl), ([], refl)), ((refl, refl), (refl, refl)))

-- Whatever completes and after whatever times, what the proxy has written to the target server is the first part of what
-- it has received from the client, and what it has written to the client the first part of what it has received from
-- the server: all of it while it waits for more, all but the bytes of the buffer that it is writing while it writes,
-- and some part after a failed operation.
pub run-AreBalanced :
    (timeout now : ℕ) (client_buffer server_buffer : List ℕ) (cs : List (Completion × ℕ))
    → AreBalanced (run cs (start timeout now client_buffer server_buffer))
run-AreBalanced timeout now client_buffer server_buffer cs =
    (run-IsSound cs (start timeout now client_buffer server_buffer)
      (start-IsSound timeout now client_buffer server_buffer)).0
