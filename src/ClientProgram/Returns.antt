-- ===== src/ClientProgram/Returns.antt =====
-- asio/echo/co_client.cc and asio/echo/client.cc: once every session has ended, the program comes to its end by itself.
use snippets_cc.Prelude.{ℕ, ◌≤◌, ◌<◌, ◌≡◌, true, List, [], ◌∷◌, length, All, arith}
use snippets_cc.Shutdown.Client
use snippets_cc.Shutdown.Client.Steps.{step-Inv as threads-Inv}
use snippets_cc.Shutdown.Client.Progress.{Thread, IsThread, IsOver}
use snippets_cc.Shutdown.Client.Returns.{start-left}
use snippets_cc.Shutdown.Rounds.{run, run_rounds, has, rounds_end}
use snippets_cc.ClientProgram.{Reaction, SessionLaws, System, Action, action_of, step, start}
use snippets_cc.ClientProgram.Invariant.{Inv}
use snippets_cc.ClientProgram.Runs.{left, program, start-Inv, step-Inv, run-Inv}
use snippets_cc.ClientProgram.Quiet.{Quiet}
use snippets_cc.ClientProgram.Stops.{Stops, threads-Stops, unset-step}
use snippets_cc.ClientProgram.Progress.{Waits, quiet-laws}

module _ {react : Reaction} (laws : SessionLaws react) (connections : ℕ)
    (few : connections < 2147483638) where
  step-left :
      (a : Action) (s : System)
      → Inv connections s
      → Stops s.threads
      → Stops (step react connections a s).threads
        × (left (step react connections a s).threads ≤ left s.threads)
  unfolding step left
  step-left a s v h =
      let b = action_of connections a s in
      (
        threads-Stops b s.threads h,
        omega (arith, (threads-Inv b v.threads).1, unset-step b s.threads),
      )

  run-left :
      (acts : List Action) (s : System)
      → Inv connections s
      → Stops s.threads
      → Stops (run (program react connections) acts s).threads
        × (left (run (program react connections) acts s).threads ≤ left s.threads)
  unfolding run program
  run-left [] s v h = (h, omega arith)
  run-left (a ∷ acts) s v h =
      let (h', le) = step-left a s v h in
      let (h'', le') =
        run-left acts (step react connections a s) (step-Inv laws connections few a s v) h' in
      (h'', omega (arith, le, le'))

  start-left_all : left start.threads ≡ 71
  unfolding left start Client.start
  start-left_all = omega (arith, start-left 10)

  -- For fewer than 2 ^ 31 - 10 connections, after any turns of the threads that have had every thread make its sessions and every
  -- session end, as when the server does not run or goes away: if every thread keeps getting turns, then, with no SIGINT and
  -- whatever the turns meet, `monitor` sets `stop` and `main` returns within 71 rounds, with each context stopped and each
  -- thread at its end.
  pub returns_by_itself :
      (before : List Action) (rounds : List (List Action))
      → Quiet connections (run (program react connections) before start)
      → All (λ r. (t : Thread) → IsThread 10 t → has (program react connections) t r ≡ true) rounds
      → 71 < length rounds
      → IsOver
          (run_rounds
            (program react connections)
            rounds
            (run (program react connections) before start)).threads
  unfolding program Waits start Client.start
  returns_by_itself before rounds quiet fair enough =
      let (h, le) = run-left before start (start-Inv connections) (λ f. cc) in
      rounds_end (program react connections) (quiet-laws laws few) rounds
        (run (program react connections) before start)
        (run-Inv laws connections few before start (start-Inv connections), quiet, h) fair
        (omega (arith, le, start-left_all, enough))
