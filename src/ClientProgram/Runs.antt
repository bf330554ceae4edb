-- ===== src/ClientProgram/Runs.antt =====
-- asio/echo/co_client.cc and asio/echo/client.cc: every run of the program.
use snippets_cc.Prelude.{
  ℕ, zero, suc, ◌+◌, ◌*◌, ◌<◌, ◌≡◌, refl, sym, ◌∙◌, Bool, true, false, List, [], ◌∷◌, length,
  replicate, length-replicate, total, if◌then◌else◌, ◌==◌, arith,
}
use snippets_cc.EchoClient.{Pending, Session}
use snippets_cc.EchoClient.Monitor.{conns}
use snippets_cc.EchoClient.Counters.{is_completed, is_connected, is_ended}
use snippets_cc.Shutdown.Client
use snippets_cc.Shutdown.Client.{Worker}
use snippets_cc.Shutdown.Rounds.{Program, run}
use snippets_cc.Shutdown.Client.Places.{left as threads_left}
use snippets_cc.Shutdown.Client.Progress.{Thread, main_thread, monitor_thread, echo_thread}
use snippets_cc.Shutdown.Client.Progress as Progress
use snippets_cc.Shutdown.Client.Steps.{step-Inv as threads-Inv}
use snippets_cc.Shutdown.Client.Returns.{start-Inv as threads_start-Inv}
use snippets_cc.ClientProgram.{
  Reaction, SessionLaws, System, Action, interrupt, main_turn, monitor_turn, worker_turn, action_of,
  step, start,
}
use snippets_cc.ClientProgram.Invariant.{all_with, unmade_sessions, AreCounted, Inv}
use snippets_cc.ClientProgram.Counters.{works-AreCounted}
use snippets_cc.ClientProgram.Sizes.{step-sessions}

-- The threads that take the turns.
abbrev pub is_of : Thread → Action → Bool
is_of main_thread main_turn = true
is_of monitor_thread monitor_turn = true
is_of (echo_thread i) (worker_turn j m) = i == j
is_of _ _ = false

-- What the threads have left to do, and whether `stop` is still to be set.
unfoldable pub left : Client.System → ℕ
left s = threads_left s + (if s.stop then 0 else 1)

unfoldable pub program : Reaction → (connections : ℕ) → Program System Action Thread
unfolding left
program react connections = record {
  step = step react connections;
  left = λ s. left s.threads;
  is_of = is_of;
}

-- An action of a thread is one of it to the threads.
pub action_of-is_of :
    (connections : ℕ) (t : Thread) (a : Action) (s : System)
    → is_of t a ≡ true
    → Progress.is_of t (action_of connections a s) ≡ true
unfolding action_of
action_of-is_of connections main_thread main_turn s h = refl
action_of-is_of connections monitor_thread monitor_turn s h = refl
action_of-is_of connections (echo_thread i) (worker_turn j m) s h = h
action_of-is_of connections main_thread interrupt s h = cc
action_of-is_of connections main_thread monitor_turn s h = cc
action_of-is_of connections main_thread (worker_turn j m) s h = cc
action_of-is_of connections monitor_thread interrupt s h = cc
action_of-is_of connections monitor_thread main_turn s h = cc
action_of-is_of connections monitor_thread (worker_turn j m) s h = cc
action_of-is_of connections (echo_thread i) interrupt s h = cc
action_of-is_of connections (echo_thread i) main_turn s h = cc
action_of-is_of connections (echo_thread i) monitor_turn s h = cc

none_with : (w : Pending → ℕ) (n : ℕ) → all_with w (replicate n []) ≡ 0
unfolding total
none_with w zero = refl
none_with w (suc n) = omega (arith, none_with w n)

no_sessions : (n : ℕ) → total (length {A = Session}) (replicate n []) ≡ 0
unfolding total
no_sessions zero = refl
no_sessions (suc n) = omega (arith, no_sessions n)

unmade_all :
    (k n : ℕ)
    → unmade_sessions k (replicate n (record { worker = Worker.unmade; is_stopped = false }))
      ≡ n * k
unfolding total
unmade_all k zero = omega arith
unmade_all k (suc n) = omega (arith, unmade_all k n)

pub start-Inv : (connections : ℕ) → Inv connections start
unfolding start Client.start
start-Inv connections = record {
  threads = threads_start-Inv 10;
  contexts = length-replicate {A = List Session} 10 [];
  counted = record {
    completed = sym (none_with is_completed 10);
    connected = sym (none_with is_connected 10);
    failed = sym (none_with is_ended 10);
  };
  enough = omega (arith, no_sessions 10, unmade_all (conns connections) 10);
}

module _ {react : Reaction} (laws : SessionLaws react) (connections : ℕ)
    (few : connections < 2147483638) where
  pub step-Inv :
      (a : Action) (s : System) → Inv connections s → Inv connections (step react connections a s)
  unfolding step
  step-Inv a s v =
      let (same, le) = step-sessions react connections a s v.threads in
      record {
        threads = (threads-Inv (action_of connections a s) v.threads).0;
        contexts = same ∙ v.contexts;
        counted = works-AreCounted connections few laws a s v;
        enough = omega (arith, le, v.enough);
      }

  pub run-Inv :
      (acts : List Action) (s : System)
      → Inv connections s
      → Inv connections (run (program react connections) acts s)
  unfolding run program
  run-Inv [] s v = v
  run-Inv (a ∷ acts) s v = run-Inv acts (step react connections a s) (step-Inv a s v)

  -- For fewer than 2 ^ 31 - 10 connections, in every run of the program, whatever the threads meet: `completed`, `connected` and `failed`
  -- are the numbers of the sessions, of all contexts, whose connection has been made or has failed, that have one, and
  -- that have ended.
  pub run-AreCounted :
      (acts : List Action)
      → AreCounted
          (run (program react connections) acts start).statistics
          (run (program react connections) acts start).sessions
  run-AreCounted acts = (run-Inv acts start (start-Inv connections)).counted
