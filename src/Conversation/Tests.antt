-- ===== src/Conversation/Tests.antt =====
-- asio/echo/client.cc and asio/echo/server.cc: conversations of two rounds.
use snippets_cc.Prelude.{ℕ, refl, List, [], ◌∷◌, replicate}
use snippets_cc.EchoClient.{hello}
use snippets_cc.EchoClient
use snippets_cc.EchoServer.Events
use snippets_cc.EchoClient.Sessions.{success}
use snippets_cc.Asio
use snippets_cc.CoroutineServer
use snippets_cc.CoroutineServer.Guard
use snippets_cc.Conversation.Coroutines
use snippets_cc.Conversation
use snippets_cc.Conversation.Proxied
use snippets_cc.ProxyServer
use snippets_cc.ProxyServer.Sessions
use snippets_cc.EchoServer
use snippets_cc.Conversation.{
  System, Reach, here, then_step, client_step, server_step, client_turn, server_turn, start,
}
use snippets_cc.Conversation.Servers.{watched, Anytime, watched-ReadsHello}
use snippets_cc.EchoServer.{Session}
use snippets_cc.Conversation.Echoes.{ReadsHello}

-- The client has written half of the message when the server receives it, which is sent back before the rest.
abbrev half : List ℕ
half = 72 ∷ 101 ∷ 108 ∷ 108 ∷ 111 ∷ 32 ∷ []

abbrev rest : List ℕ
rest = 119 ∷ 111 ∷ 114 ∷ 108 ∷ 100 ∷ 33 ∷ []

abbrev fresh : Session
fresh = Events.started 5 0 (replicate 12 0)

abbrev in_halves : System Session
in_halves = client_turn (success hello) (
    server_turn watched Events.all_written 0 (
      server_turn watched (Events.data_received rest) 0 (
        client_turn (success []) (
          server_turn watched Events.all_written 0 (
            server_turn watched (Events.data_received half) 0
              (client_turn (success []) (start fresh)))))))

in_halves-Reach : Reach watched Anytime fresh in_halves
unfolding watched start client_turn server_turn Conversation.client_at EchoClient.make
    EchoServer.Events.started EchoServer.Events.step EchoServer.Events.react EchoServer.start
    EchoServer.make EchoServer.start_watchdog EchoServer.receive_with_watchdog
    EchoServer.send_with_watchdog EchoServer.handle_receive EchoServer.handle_write
    EchoClient.Sessions.react EchoClient.handle_connect EchoClient.start EchoClient.handle_write
in_halves-Reach =
    let r : Reach watched Anytime fresh (start fresh) = here in
    let connected = then_step r (client_step (success []) (λ e. cc)) in
    let half_came = then_step connected (server_step (Events.data_received half) 0 tt (rest, cc)) in
    let half_sent = then_step half_came (server_step Events.all_written 0 tt tt) in
    let wrote = then_step half_sent (client_step (success []) (λ e. cc)) in
    let rest_came = then_step wrote (server_step (Events.data_received rest) 0 tt ([], cc)) in
    let rest_sent = then_step rest_came (server_step Events.all_written 0 tt tt) in
    then_step rest_sent (client_step (success hello) (λ e. (cc, ([], cc))))

watched-ReadsHello_example : ReadsHello watched in_halves
watched-ReadsHello_example = watched-ReadsHello 5 0 (replicate 12 0) in_halves-Reach

-- The message goes through the proxy and back.
abbrev room : List ℕ
room = replicate 12 0

abbrev new_chain : Proxied.Chain Session
new_chain = Proxied.chain 5 0 room room room

abbrev proxy_turn :
    Sessions.Completion → System (Proxied.Chain Session) → System (Proxied.Chain Session)
proxy_turn c = server_turn (Proxied.proxied watched) (Proxied.at_proxy c) 0

abbrev target_turn : Events.Event → System (Proxied.Chain Session) → System (Proxied.Chain Session)
target_turn e = server_turn (Proxied.proxied watched) (Proxied.at_target e) 0

abbrev through_proxy : System (Proxied.Chain Session)
through_proxy = client_turn (success hello) (
    proxy_turn (Sessions.on_server (Events.data_received hello)) (
      target_turn Events.all_written (
        target_turn (Events.data_received hello) (
          proxy_turn (Sessions.on_client (Events.data_received hello)) (
            client_turn (success [])
              (client_turn (success []) (proxy_turn Sessions.connected (start new_chain))))))))

through_proxy-Reach :
    Reach (Proxied.proxied watched) (Proxied.ChainAllows watched Anytime) new_chain through_proxy
unfolding watched Proxied.proxied Proxied.chain_step Proxied.chain start client_turn server_turn
    Conversation.client_at EchoClient.make EchoServer.Events.started EchoServer.Events.step
    EchoServer.Events.react EchoServer.start EchoServer.make EchoServer.start_watchdog
    EchoServer.receive_with_watchdog EchoServer.send_with_watchdog EchoServer.handle_receive
    EchoServer.handle_write EchoClient.Sessions.react EchoClient.handle_connect EchoClient.start
    EchoClient.handle_write ProxyServer.start Sessions.step Sessions.react Sessions.react_client
    Sessions.react_server ProxyServer.handle_connect ProxyServer.start_watchdogs
    ProxyServer.watch_client ProxyServer.watch_server ProxyServer.start_watchdog
    ProxyServer.receive_from_client ProxyServer.receive_from_server ProxyServer.receive
    ProxyServer.send ProxyServer.delay ProxyServer.handle_client_receive ProxyServer.send_to_server
    ProxyServer.handle_server_receive ProxyServer.send_to_client
through_proxy-Reach =
    let r : Reach (Proxied.proxied watched) (Proxied.ChainAllows watched Anytime) new_chain
        (start new_chain) =
      here in
    let joined = then_step r (server_step (Proxied.at_proxy Sessions.connected) 0 tt tt) in
    let begun = then_step joined (client_step (success []) (λ e. cc)) in
    let wrote = then_step begun (client_step (success []) (λ e. cc)) in
    let came = then_step wrote (
      server_step (Proxied.at_proxy (Sessions.on_client (Events.data_received hello))) 0 tt
        ([], refl)) in
    let forth =
      then_step came
        (server_step (Proxied.at_target (Events.data_received hello)) 0 (tt, ([], refl)) tt) in
    let sent = then_step forth (server_step (Proxied.at_target Events.all_written) 0 (tt, tt) tt) in
    let back = then_step sent (
      server_step (Proxied.at_proxy (Sessions.on_server (Events.data_received hello))) 0 ([], refl)
        tt) in
    then_step back (client_step (success hello) (λ e. (refl, ([], refl))))

proxied-ReadsHello_example : ReadsHello (Proxied.proxied watched) through_proxy
proxied-ReadsHello_example = Proxied.proxied-ReadsHello 5 0 room room room through_proxy-Reach

-- The session of coroutines echoes the message.
abbrev co_turn : Asio.Event → System CoroutineServer.Session → System CoroutineServer.Session
co_turn e = server_turn Coroutines.coroutines (Guard.completes e 0) 0

abbrev by_coroutines : System CoroutineServer.Session
by_coroutines = client_turn (success hello) (
    co_turn Asio.all_written (
      co_turn (Asio.data_received hello) (
        client_turn (success []) (
          client_turn (success []) (
            server_turn Coroutines.coroutines Guard.watch_begins 1
              (start (CoroutineServer.start_with_watchdog 5 0)))))))

by_coroutines-Reach :
    Reach Coroutines.coroutines Coroutines.Anyhow
      (CoroutineServer.start_with_watchdog 5 0)
      by_coroutines
unfolding Coroutines.coroutines Guard.run_any CoroutineServer.start_with_watchdog
    CoroutineServer.echo CoroutineServer.start_watchdog CoroutineServer.watch CoroutineServer.step
    CoroutineServer.react CoroutineServer.echo_received CoroutineServer.echo_written start
    client_turn server_turn Conversation.client_at EchoClient.make EchoClient.Sessions.react
    EchoClient.handle_connect EchoClient.start EchoClient.handle_write
by_coroutines-Reach =
    let r : Reach Coroutines.coroutines Coroutines.Anyhow (CoroutineServer.start_with_watchdog 5 0)
        (start (CoroutineServer.start_with_watchdog 5 0)) =
      here in
    let watched = then_step r (server_step Guard.watch_begins 1 tt tt) in
    let begun = then_step watched (client_step (success []) (λ e. cc)) in
    let wrote = then_step begun (client_step (success []) (λ e. cc)) in
    let came =
      then_step wrote
        (server_step (Guard.completes (Asio.data_received hello) 0) 0 tt ([], refl)) in
    let sent = then_step came (server_step (Guard.completes Asio.all_written 0) 0 tt tt) in
    then_step sent (client_step (success hello) (λ e. (refl, ([], refl))))

coroutines-ReadsHello_example : ReadsHello Coroutines.coroutines by_coroutines
coroutines-ReadsHello_example = Coroutines.coroutines-ReadsHello 5 0 by_coroutines-Reach
