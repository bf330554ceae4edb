-- ===== src/CoroutineServer/Tests.antt =====
-- A session of coroutines that echoes a message and times out, and the theorems at it.
use snippets_cc.Prelude.{ℕ, ◌≡◌, refl, false, List, [], ◌∷◌, replicate, length-replicate}
use snippets_cc.Asio.{Event, data_received, all_written, wait_ended}
use snippets_cc.CoroutineServer.{
  max_receive, echo, echo_received, echo_written, watch, watch_waited, start_with_watchdog,
  start_watchdog, react, step, run,
}
use snippets_cc.CoroutineServer.Guard.{Progress, watch_begins, completes}
use snippets_cc.CoroutineServer.Agreement.{run-agrees}
use snippets_cc.EchoServer.Events as Handlers

abbrev events : List (Event × ℕ)
events = (data_received (7 ∷ 8 ∷ []), 1) ∷ (all_written, 1) ∷ (wait_ended, 3) ∷ (wait_ended, 9) ∷ []

abbrev buffer : List ℕ
buffer = replicate max_receive 0

events_lem :
    let s = run events (start_watchdog (start_with_watchdog 5 0)) in
    (s.sent ≡ 7 ∷ 8 ∷ []) × (s.is_open ≡ false)
unfolding run step react start_with_watchdog start_watchdog watch watch_waited echo echo_received
    echo_written
events_lem = (refl, refl)

run-agrees_example :
    let s = run events (start_watchdog (start_with_watchdog 5 0)) in
    let t = Handlers.run events (Handlers.started 5 0 buffer) in
    (s.received ≡ t.received) × (s.sent ≡ t.sent) × (s.operation ≡ t.operation) × (s.wait ≡ t.wait)
run-agrees_example = run-agrees 5 0 buffer events (length-replicate {A = ℕ} max_receive 0)

abbrev progress : List Progress
progress =
    completes (data_received (7 ∷ 8 ∷ [])) 1
    ∷ watch_begins
    ∷ completes all_written 1
    ∷ completes wait_ended 3
    ∷ []
