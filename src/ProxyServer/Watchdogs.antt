-- ===== src/ProxyServer/Watchdogs.antt =====
-- asio/proxy/server.cc: the timers and the deadlines of the two watchdogs of a session.
use mathlib.Core.Path.{subst}
use snippets_cc.Prelude.{
  ℕ, ◌+◌, ◌≤◌, ◌≡◌, refl, sym, Bool, true, false, inl, inr, List, [], ◌∷◌, leb, if◌then◌else◌,
  length, Bool-cases, arith,
}
use snippets_cc.Asio.{
  Operation, receiving, writing, Wait, armed, cancelled, Event, data_received, receive_failed,
  all_written, write_failed, wait_ended, wait_cancelled, Guards, Guards-later, Guards-cancelled,
}
use snippets_cc.ProxyServer.{
  Watchdog, Session, start, stop, handle_connect, handle_client_receive, handle_server_write,
  watch_client, watch_server, handle_wait, start_watchdog, start_watchdogs, delay, receive, send,
  receive_from_client, receive_from_server, send_to_server,
}
use snippets_cc.ProxyServer.Sessions.{
  Completion, connected, connect_failed, on_client, on_server, unwatched, react_client,
  react_server, react, step, run,
}
use snippets_cc.ProxyServer.Symmetry.{flip, react_server-flip, watch_server-flip}

-- While the session runs the timer is armed, for the deadline at the latest; the deadline is at most the timeout
-- away.
abbrev pub IsWatched : (is_running : Bool) (limit : ℕ) → Watchdog → Type 0
IsWatched is_running limit w = Guards is_running w.wait w.deadline × (w.deadline ≤ limit)

abbrev pub AreWatched : Session → Type 0
AreWatched s =
    IsWatched s.is_running (s.now + s.timeout) s.client.watchdog
    × IsWatched s.is_running (s.now + s.timeout) s.server.watchdog

Guards-armed : (o : Bool) (d : ℕ) → Guards o (armed d) d
Guards-armed true d = omega arith
Guards-armed false d = tt

-- A watchdog that is started arms its timer, or stops the session. The other watchdog stays as it is.
watch_client-IsWatched :
    (w : Watchdog) (s : Session)
    → w.deadline ≤ s.now + s.timeout
    → let s' = watch_client (start_watchdog s.now w) s in
      IsWatched s'.is_running (s'.now + s'.timeout) s'.client.watchdog
unfolding watch_client start_watchdog stop
watch_client-IsWatched w s le = elim (Bool-cases (leb w.deadline s.now)) [
  | inl late ↦ rw late (tt, le)
  | inr early ↦ rw early (Guards-armed s.is_running w.deadline, le)
]

watch_client-other :
    (w : Watchdog) (s : Session)
    → IsWatched s.is_running (s.now + s.timeout) s.server.watchdog
    → let s' = watch_client (start_watchdog s.now w) s in
      IsWatched s'.is_running (s'.now + s'.timeout) s'.server.watchdog
unfolding watch_client start_watchdog stop
watch_client-other w s h = elim (Bool-cases (leb w.deadline s.now)) [
  | inl late ↦ rw late (tt, h.1)
  | inr early ↦ rw early h
]

watch_client-bound :
    (w : Watchdog) (s : Session)
    → s.server.watchdog.deadline ≤ s.now + s.timeout
    → let s' = watch_client (start_watchdog s.now w) s in
      s'.server.watchdog.deadline ≤ s'.now + s'.timeout
unfolding watch_client start_watchdog stop
watch_client-bound w s h = elim (Bool-cases (leb w.deadline s.now)) [
  | inl late ↦ rw late h
  | inr early ↦ rw early h
]

watch_client-AreWatched :
    (w : Watchdog) (s : Session)
    → w.deadline ≤ s.now + s.timeout
    → IsWatched s.is_running (s.now + s.timeout) s.server.watchdog
    → AreWatched (watch_client (start_watchdog s.now w) s)
watch_client-AreWatched w s le h = (watch_client-IsWatched w s le, watch_client-other w s h)

-- A cancelled wait is that of a session that does not run.
wait_cancelled-AreWatched :
    (s : Session)
    → s.client.watchdog.wait ≡ cancelled
    → AreWatched s
    → AreWatched (watch_client (handle_wait true s.now (unwatched s.client.watchdog)) s)
unfolding watch_client handle_wait
wait_cancelled-AreWatched s eq h =
    ((Guards-cancelled s.is_running s.client.watchdog.deadline (rw eq at (h.0.0)), h.0.1), h.1)

react_client-AreWatched :
    (e : Event) (o : Operation) (w : Wait) (s : Session)
    → s.client.watchdog.wait ≡ w
    → AreWatched s
    → AreWatched (react_client e o w s)
unfolding react_client handle_client_receive handle_server_write receive_from_client send_to_server
    receive send delay stop handle_wait
react_client-AreWatched (data_received bytes) receiving w s eq h =
    elim (Bool-cases (leb (length bytes) (length s.client.buffer))) [
      | inl fits ↦
          rw fits (
            (Guards-later s.is_running s.client.watchdog.wait _ _ (h.0.1) (h.0.0), omega arith),
            h.1,
          )
      | inr over ↦ rw over h
    ]
react_client-AreWatched receive_failed receiving w s eq h = ((tt, h.0.1), (tt, h.1.1))
react_client-AreWatched all_written (writing n) w s eq h =
    ((Guards-later s.is_running s.client.watchdog.wait _ _ (h.0.1) (h.0.0), omega arith), h.1)
react_client-AreWatched (write_failed count) (writing n) w s eq h = ((tt, h.0.1), (tt, h.1.1))
react_client-AreWatched wait_ended o (armed expiry) s eq h = elim (Bool-cases (leb expiry s.now)) [
  | inl due ↦ rw due (watch_client-AreWatched _ s (h.0.1) (h.1))
  | inr early ↦ rw early h
]
react_client-AreWatched wait_ended o cancelled s eq h = watch_client-AreWatched _ s (h.0.1) (h.1)
react_client-AreWatched wait_cancelled o cancelled s eq h = wait_cancelled-AreWatched s eq h
react_client-AreWatched _ _ _ s eq h = h

flip-AreWatched : (s : Session) → AreWatched s → AreWatched (flip s)
unfolding flip
flip-AreWatched s h = (h.1, h.0)

watch_server-AreWatched :
    (w : Watchdog) (s : Session)
    → w.deadline ≤ s.now + s.timeout
    → IsWatched s.is_running (s.now + s.timeout) s.client.watchdog
    → AreWatched (watch_server (start_watchdog s.now w) s)
unfolding flip
watch_server-AreWatched w s le h =
    subst AreWatched (sym (watch_server-flip (start_watchdog s.now w) s)) (
      flip-AreWatched (watch_client (start_watchdog s.now w) (flip s))
        (watch_client-AreWatched w (flip s) le h))

handle_connect-AreWatched :
    (error : Bool) (s : Session) → AreWatched s → AreWatched (handle_connect error s)
unfolding handle_connect start_watchdogs receive_from_client receive_from_server receive delay
handle_connect-AreWatched true s h = h
handle_connect-AreWatched false s h =
    let begun : Session =
      receive_from_server
        (receive_from_client (record s { connecting = false; is_running = true })) in
    let watched = watch_client (start_watchdog begun.now begun.client.watchdog) begun in
    let client = watch_client-IsWatched begun.client.watchdog begun (omega arith) in
    let bound = watch_client-bound begun.client.watchdog begun (omega arith) in
    watch_server-AreWatched watched.server.watchdog watched bound client

react_server-AreWatched :
    (e : Event) (s : Session)
    → AreWatched s
    → AreWatched (react_server e s.server.operation s.server.watchdog.wait s)
unfolding flip
react_server-AreWatched e s h =
    let o = s.server.operation in
    let w = s.server.watchdog.wait in
    subst AreWatched (sym (react_server-flip e o w s)) (
      flip-AreWatched (react_client e o w (flip s))
        (react_client-AreWatched e o w (flip s) refl (flip-AreWatched s h)))

react-AreWatched : (c : Completion) (s : Session) → AreWatched s → AreWatched (react c s)
unfolding react
react-AreWatched (on_client e) s h =
    react_client-AreWatched e s.client.operation s.client.watchdog.wait s refl h
react-AreWatched (on_server e) s h = react_server-AreWatched e s h
react-AreWatched connected s h =
    elim s.connecting as (λ b. AreWatched (if b then handle_connect false s else s)) [
      | true ↦ handle_connect-AreWatched false s h
      | false ↦ h
    ]
react-AreWatched connect_failed s h =
    elim s.connecting as (λ b. AreWatched (if b then handle_connect true s else s)) [
      | true ↦ handle_connect-AreWatched true s h
      | false ↦ h
    ]

pub later-AreWatched :
    (s : Session) (elapsed : ℕ) → AreWatched s → AreWatched (record s { now = s.now + elapsed })
later-AreWatched s elapsed h = ((h.0.0, omega (arith, h.0.1)), (h.1.0, omega (arith, h.1.1)))

pub run_all-AreWatched :
    (cs : List (Completion × ℕ)) (s : Session) → AreWatched s → AreWatched (run cs s)
unfolding run step
run_all-AreWatched [] s h = h
run_all-AreWatched ((c, elapsed) ∷ cs) s h =
    run_all-AreWatched cs (step c elapsed s)
      (react-AreWatched c (record s { now = s.now + elapsed }) (later-AreWatched s elapsed h))

-- Whatever completes and after whatever times, as long as a session of the proxy runs, both its timers are armed, each
-- for its deadline at the latest, and both deadlines are at most the timeout away.
pub run-AreWatched :
    (timeout now : ℕ) (client_buffer server_buffer : List ℕ) (cs : List (Completion × ℕ))
    → AreWatched (run cs (start timeout now client_buffer server_buffer))
unfolding start
run-AreWatched timeout now client_buffer server_buffer cs =
    run_all-AreWatched cs (start timeout now client_buffer server_buffer)
      ((tt, omega arith), (tt, omega arith))
