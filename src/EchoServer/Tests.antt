-- ===== src/EchoServer/Tests.antt =====
-- A session that echoes two messages and times out, and the theorems at it.
use snippets_cc.Asio.Acceptor as Acceptor
use snippets_cc.EchoServer.Acceptor.{sessions, listen, IsServed, run-IsServed}
use snippets_cc.Prelude.{none, some, All, length, ℕ, ◌≡◌, refl, false, List, [], ◌∷◌, replicate}
use snippets_cc.EchoServer.{
  make, stop, start, start_watchdog, receive_with_watchdog, send_with_watchdog, handle_receive,
  handle_write, handle_wait,
}
use snippets_cc.EchoServer.Events.{
  Event, data_received, all_written, wait_ended, react, step, run, started,
}
use snippets_cc.EchoServer.Echo.{IsBalanced, received-sent}
use snippets_cc.EchoServer.Watchdog.{IsGuarded, started-IsGuarded}

abbrev events : List (Event × ℕ)
events =
    (data_received (7 ∷ 8 ∷ []), 1)
    ∷ (all_written, 1)
    ∷ (wait_ended, 3)
    ∷ (data_received (9 ∷ []), 1)
    ∷ (all_written, 1)
    ∷ (wait_ended, 9)
    ∷ []

abbrev buffer : List ℕ
buffer = replicate 4 0

events_lem :
    let s = run events (started 5 0 buffer) in (s.sent ≡ 7 ∷ 8 ∷ 9 ∷ []) × (s.is_open ≡ false)
unfolding run step react started make stop start start_watchdog receive_with_watchdog
    send_with_watchdog handle_receive handle_write handle_wait
events_lem = (refl, refl)

received-sent_example : IsBalanced (run events (started 5 0 buffer))
received-sent_example = received-sent 5 0 buffer events

started-IsGuarded_example : IsGuarded (run events (started 5 0 buffer))
started-IsGuarded_example = started-IsGuarded 5 0 buffer events

-- Two clients are accepted, a third one is not, and both sessions echo.
abbrev completions : List (Acceptor.Completion (List ℕ) Event × ℕ)
completions =
    (Acceptor.accept_ends (some buffer), 1)
    ∷ (Acceptor.accept_ends (some buffer), 1)
    ∷ (Acceptor.of_session 1 (data_received (7 ∷ [])), 1)
    ∷ (Acceptor.of_session 0 (data_received (8 ∷ [])), 1)
    ∷ (Acceptor.of_session 1 all_written, 1)
    ∷ (Acceptor.accept_ends none, 1)
    ∷ (Acceptor.accept_ends (some buffer), 1)
    ∷ []

run-IsServed_example :
    All IsServed (Acceptor.run (sessions 5) completions (listen 0)).sessions
    × (length (Acceptor.run (sessions 5) completions (listen 0)).sessions
        ≡ Acceptor.admitted completions)
run-IsServed_example = run-IsServed 5 0 completions

admitted_lem : Acceptor.admitted completions ≡ 2
unfolding Acceptor.admitted
admitted_lem = refl
