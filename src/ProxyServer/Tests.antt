-- ===== src/ProxyServer/Tests.antt =====
-- A session of the proxy that passes on a request and its answer and then times out, and the theorems at it.
use snippets_cc.Prelude.{ℕ, ◌≡◌, refl, false, List, [], ◌∷◌, replicate}
use snippets_cc.Asio.{data_received, all_written, wait_ended}
use snippets_cc.ProxyServer.{
  Session, start, stop, handle_connect, handle_client_receive, handle_server_write,
  handle_server_receive, handle_client_write, watch_client, watch_server, handle_wait,
  start_watchdog, start_watchdogs, receive, send, receive_from_client, receive_from_server,
  send_to_client, send_to_server,
}
use snippets_cc.ProxyServer.Sessions.{
  Completion, connected, on_client, on_server, react_client, react_server, react, step, run,
}
use snippets_cc.ProxyServer.Forwarding.{AreBalanced, run-AreBalanced}
use snippets_cc.ProxyServer.Watchdogs.{AreWatched, run-AreWatched}

abbrev completions : List (Completion × ℕ)
completions =
    (connected, 1)
    ∷ (on_client (data_received (1 ∷ 2 ∷ [])), 1)
    ∷ (on_client all_written, 1)
    ∷ (on_server (data_received (3 ∷ [])), 1)
    ∷ (on_server all_written, 1)
    ∷ (on_client wait_ended, 9)
    ∷ []

abbrev buffer : List ℕ
buffer = replicate 4 0

abbrev after : Session
after = run completions (start 5 0 buffer buffer)

after_lem :
    (after.client.sent ≡ 1 ∷ 2 ∷ []) × (after.server.sent ≡ 3 ∷ []) × (after.is_running ≡ false)
unfolding run step react react_client react_server start stop handle_connect handle_client_receive
    handle_server_write handle_server_receive handle_client_write watch_client watch_server
    handle_wait start_watchdog start_watchdogs receive send receive_from_client receive_from_server
    send_to_client send_to_server
after_lem = (refl, refl, refl)

run-AreBalanced_example : AreBalanced after
run-AreBalanced_example = run-AreBalanced 5 0 buffer buffer completions

run-AreWatched_example : AreWatched after
run-AreWatched_example = run-AreWatched 5 0 buffer buffer completions
