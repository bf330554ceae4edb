-- ===== src/Shutdown/Tests.antt =====
-- The main functions of asio/echo on small inputs.
use snippets_cc.Prelude.{
  ℕ, zero, suc, ◌≡◌, refl, true, false, some, List, [], ◌∷◌, ◌++◌, All, All-replicate, replicate,
  set, get_elem?, total, ◌≤◌, arith,
}
use snippets_cc.Shutdown.Rounds.{run, run_rounds, has}
use snippets_cc.Shutdown.Client
use snippets_cc.Shutdown.Server
use snippets_cc.Shutdown.Listening

-- A turn of each thread of a client with two contexts, with handlers to run as long as there can be.
abbrev client_round : List Client.Action
client_round =
    Client.main_turn
    ∷ Client.monitor_turn false false
    ∷ Client.worker_turn 0 Client.Turn.handlers
    ∷ Client.worker_turn 1 Client.Turn.handlers
    ∷ []

client_fair :
    (t : Client.Progress.Thread)
    → Client.Progress.IsThread 2 t
    → has Client.Returns.program t client_round ≡ true
unfolding has Client.Returns.program
client_fair Client.Progress.main_thread valid = refl
client_fair Client.Progress.monitor_thread valid = refl
client_fair (Client.Progress.echo_thread zero) valid = refl
client_fair (Client.Progress.echo_thread (suc zero)) valid = refl
client_fair (Client.Progress.echo_thread (suc (suc i))) valid = absurd (omega (arith, valid))

abbrev client_start : List Client.Action
client_start = client_round ++ client_round ++ client_round ++ Client.interrupt ∷ []

client_start_stopped : (run Client.Returns.program client_start (Client.start 2)).stop ≡ true
unfolding run Client.Returns.program Client.step Client.start
client_start_stopped = refl

main_returns_example : Client.Progress.IsOver (
    run_rounds Client.Returns.program
      (replicate 23 client_round)
      (run Client.Returns.program client_start (Client.start 2)))
main_returns_example =
    Client.Returns.main_returns 2 client_start (replicate 23 client_round) client_start_stopped
      (All-replicate
        (λ r.
          (t : Client.Progress.Thread)
          → Client.Progress.IsThread 2 t
          → has Client.Returns.program t r ≡ true)
        23 client_round client_fair)
      (omega arith)

-- A client that finds no connection left.
abbrev client_turns : List Client.Action
client_turns =
    Client.main_turn
    ∷ Client.main_turn
    ∷ Client.worker_turn 0 Client.Turn.handlers
    ∷ Client.worker_turn 0 Client.Turn.no_work
    ∷ Client.monitor_turn true true
    ∷ Client.monitor_turn true true
    ∷ Client.monitor_turn true true
    ∷ Client.monitor_turn true true
    ∷ Client.main_turn
    ∷ Client.main_turn
    ∷ Client.main_turn
    ∷ Client.main_turn
    ∷ Client.main_turn
    ∷ []

client_turns_returned :
    (run Client.Returns.program client_turns (Client.start 1)).main ≡ Client.returned
unfolding run Client.Returns.program Client.step Client.start
client_turns_returned = refl

-- A server with one thread beside `main`; an exception ends the thread, and a signal comes.
abbrev server_start : List Server.Action
server_start =
    Server.main_turn Server.Turn.handlers
    ∷ Server.main_turn Server.Turn.handlers
    ∷ Server.worker_turn 0 Server.Turn.exception
    ∷ Server.main_turn Server.Turn.signal
    ∷ []

abbrev server_round : List Server.Action
server_round =
    Server.main_turn Server.Turn.handlers ∷ Server.worker_turn 0 Server.Turn.handlers ∷ []

server_fair :
    (t : Server.Progress.Thread)
    → Server.Progress.IsThread 1 t
    → has Server.Returns.program t server_round ≡ true
unfolding has Server.Returns.program
server_fair Server.Progress.main_thread valid = refl
server_fair (Server.Progress.pool_thread zero) valid = refl
server_fair (Server.Progress.pool_thread (suc i)) valid = absurd (omega (arith, valid))

server_start_stopped : (run Server.Returns.program server_start (Server.start 1)).is_stopped ≡ true
unfolding run run_rounds Server.Returns.program Server.step Server.start Server.num_threads
server_start_stopped = refl

server_returns_example : Server.Returns.HasReturned (
    run_rounds Server.Returns.program
      (replicate 10 server_round)
      (run Server.Returns.program server_start (Server.start 1)))
server_returns_example =
    Server.Returns.server_returns 1 server_start (replicate 10 server_round)
      (tt, (tt, (tt, (tt, tt))))
      (All-replicate (All Server.Returns.IsCalm) 10 server_round (tt, (tt, tt)))
      server_start_stopped
      (All-replicate
        (λ r.
          (t : Server.Progress.Thread)
          → Server.Progress.IsThread 1 t
          → has Server.Returns.program t r ≡ true)
        10 server_round server_fair)
      (omega arith)

-- One processor, and so two threads beside `main`.
abbrev pool_start : List Server.Action
pool_start =
    Server.main_turn Server.Turn.handlers
    ∷ Server.main_turn Server.Turn.handlers
    ∷ Server.main_turn Server.Turn.handlers
    ∷ []

abbrev with_pool : Server.System
with_pool = Server.Exceptions.reached 1 pool_start

with_pool_running : with_pool.main ≡ Server.running
unfolding run run_rounds Server.Returns.program Server.step Server.start Server.num_threads
with_pool_running = refl

with_pool_not_stopped : with_pool.is_stopped ≡ false
unfolding run run_rounds Server.Returns.program Server.step Server.start Server.num_threads
with_pool_not_stopped = refl

exception_turns_example :
    ((Server.step (Server.main_turn Server.Turn.exception) with_pool).main ≡ Server.terminated)
    × ((i : ℕ)
        → get_elem? with_pool.threads i ≡ some Server.Worker.running
        → Server.step (Server.worker_turn i Server.Turn.exception) with_pool
          ≡ record with_pool { threads = set with_pool.threads i Server.Worker.finished })
exception_turns_example =
    Server.Exceptions.exception_turns 1 pool_start (omega arith) with_pool_running
      with_pool_not_stopped

-- A server with one thread and two ports, one of which fails an accept in the thread.
abbrev accepts : List Listening.Action
accepts =
    Listening.of_pool (Server.main_turn Server.Turn.handlers)
    ∷ Listening.of_pool (Server.main_turn Server.Turn.handlers)
    ∷ Listening.accept_ends false 0 Listening.main_thread
    ∷ Listening.accept_ends true 1 (Listening.pool_thread 0)
    ∷ Listening.accept_ends false 1 Listening.main_thread
    ∷ Listening.accept_ends false 0 Listening.main_thread
    ∷ []

abbrev with_port_closed : Listening.System
with_port_closed = Listening.run accepts (Listening.start 1 2)

two_accepted : with_port_closed.sessions ≡ 2
unfolding Listening.run Listening.step Listening.listen Listening.start Server.step Server.start
two_accepted = refl

with_port_closed_going : Server.Returns.is_going with_port_closed.pool.main ≡ true
unfolding Listening.run Listening.step Listening.listen Listening.start Server.step Server.start
with_port_closed_going = refl

closed-ended_example :
    total Listening.Costs.closed with_port_closed.listening
    ≤ total Listening.Costs.ended with_port_closed.pool.threads
closed-ended_example = Listening.Costs.closed-ended 1 2 accepts with_port_closed_going
