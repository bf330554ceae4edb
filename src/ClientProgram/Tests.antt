-- ===== src/ClientProgram/Tests.antt =====
-- asio/echo/co_client.cc on small inputs.
use snippets_cc.Prelude.{
  ℕ, zero, suc, ◌<◌, ◌≡◌, refl, true, List, [], ◌∷◌, ◌++◌, replicate, All-replicate, total,
  Bool-cases, inl, inr, ◌==◌, arith,
}
use snippets_cc.EchoClient.{make, hello}
use snippets_cc.EchoClient.Sessions.{failure, success}
use snippets_cc.EchoClient.Monitor.{conns}
use snippets_cc.EchoClient.Coroutine.{start as begin, send, recv, delay}
use snippets_cc.EchoClient.Coroutine.Resume.{resume, resume_at}
use snippets_cc.Shutdown.Client
use snippets_cc.Shutdown.Rounds.{run, run_rounds, has}
use snippets_cc.Shutdown.Client.Progress.{
  Thread, main_thread, monitor_thread, echo_thread, IsThread, IsOver,
}
use snippets_cc.ClientProgram.{
  Action, main_turn, monitor_turn, worker_turn, completes, nothing, all_ended, spawn, complete,
  work, works, no_work_left, action_of, step, start,
}
use snippets_cc.ClientProgram.Invariant.{AreCounted}
use snippets_cc.ClientProgram.Runs.{program}
use snippets_cc.ClientProgram.Quiet.{Quiet, none_left}
use snippets_cc.ClientProgram.CoClient.{co_client, after, co_client-AreCounted, co_client_returns}

-- For one connection every thread makes a session, which fails to connect.
abbrev fails : ℕ → List Action
fails zero = []
fails (suc i) = worker_turn i nothing ∷ worker_turn i (completes 0 failure) ∷ fails i

abbrev no_server : List Action
no_server = replicate 11 main_turn ++ fails 10

no_server_failed : (after 1 no_server).statistics.failed ≡ 10
unfolding run program step works work spawn complete action_of no_work_left all_ended start resume
    resume_at begin send recv delay Client.step Client.main_step Client.main_at Client.monitor_step
    Client.monitor_at Client.worker_step Client.worker_at Client.start conns make
no_server_failed = refl

-- One of them connects, and its message comes back.
abbrev one_echoes : List Action
one_echoes =
    replicate 11 main_turn
    ++ worker_turn 0 nothing
      ∷ worker_turn 0 (completes 0 (success []))
      ∷ worker_turn 0 (completes 0 (success []))
      ∷ worker_turn 0 (completes 0 (success hello))
      ∷ []

one_echoed : (after 1 one_echoes).statistics.echoes ≡ 1
unfolding run program step works work spawn complete action_of no_work_left all_ended start resume
    resume_at begin send recv delay Client.step Client.main_step Client.main_at Client.monitor_step
    Client.monitor_at Client.worker_step Client.worker_at Client.start conns make
one_echoed = refl

co_client-AreCounted_example :
    AreCounted (after 1 one_echoes).statistics (after 1 one_echoes).sessions
co_client-AreCounted_example = co_client-AreCounted 1 one_echoes (omega arith)

-- Nine of the ten sessions have not connected when `monitor` finds the one connection completed and none connected; one
-- of them connects before it stores `stop`.
abbrev stops_early : List Action
stops_early =
    replicate 11 main_turn
    ++ worker_turn 0 nothing
      ∷ worker_turn 0 (completes 0 failure)
      ∷ worker_turn 1 nothing
      ∷ monitor_turn
      ∷ monitor_turn
      ∷ monitor_turn
      ∷ worker_turn 1 (completes 0 (success []))
      ∷ monitor_turn
      ∷ []

stops_early_lem :
    ((after 1 stops_early).threads.stop ≡ true) × ((after 1 stops_early).statistics.connected ≡ 1)
unfolding run program step works work spawn complete action_of no_work_left all_ended start resume
    resume_at begin send recv delay Client.step Client.main_step Client.main_at Client.monitor_step
    Client.monitor_at Client.worker_step Client.worker_at Client.start conns make
stops_early_lem = (refl, refl)

-- Turns of the first `n` threads, and one round of the program.
abbrev turns : ℕ → List Action
turns zero = []
turns (suc n) = worker_turn n nothing ∷ turns n

abbrev round : List Action
round = main_turn ∷ monitor_turn ∷ turns 10

has-turns : (n i : ℕ) → i < n → has (co_client 1) (echo_thread i) (turns n) ≡ true
unfolding has program
has-turns zero i lt = absurd (omega (arith, lt))
has-turns (suc n) i lt = elim (Bool-cases (i == n)) [
  | inl last ↦ rw last refl
  | inr other ↦ rw other (has-turns n i (ground (arith, other, lt)))
]

round_fair : (t : Thread) → IsThread 10 t → has (co_client 1) t round ≡ true
unfolding has program
round_fair main_thread valid = refl
round_fair monitor_thread valid = refl
round_fair (echo_thread i) valid = has-turns 10 i valid

no_server-Quiet : Quiet 1 (after 1 no_server)
unfolding run program step works work spawn complete action_of no_work_left all_ended none_left
    start resume resume_at begin send recv delay Client.step Client.main_step Client.main_at
    Client.monitor_step Client.monitor_at Client.worker_step Client.worker_at Client.start conns
    make total
no_server-Quiet = record { made = refl; all_left = refl }

co_client_returns_example :
    IsOver (run_rounds (co_client 1) (replicate 72 round) (after 1 no_server)).threads
co_client_returns_example =
    co_client_returns 1 no_server (replicate 72 round) (omega arith) no_server-Quiet
      (All-replicate (λ r. (t : Thread) → IsThread 10 t → has (co_client 1) t r ≡ true) 72 round
        round_fair)
      (omega arith)
