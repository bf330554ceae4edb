-- ===== src/ClientProgram/Invariant.antt =====
-- asio/echo/co_client.cc and asio/echo/client.cc: the counters and the sessions, while the threads are at their places.
use snippets_cc.Prelude.{ℕ, ◌+◌, ◌*◌, ◌≤◌, ◌≡◌, List, length, total}
use snippets_cc.EchoClient.{Statistics, Pending, Session}
use snippets_cc.EchoClient.Monitor.{conns}
use snippets_cc.EchoClient.Counters.{is_completed, is_connected, is_ended, sessions_with}
use snippets_cc.Shutdown.Client.{Worker, Echo}
use snippets_cc.Shutdown.Client.Places
use snippets_cc.ClientProgram.{System}

-- The sessions of all contexts that count.
abbrev pub all_with : (Pending → ℕ) → List (List Session) → ℕ
all_with w = total (sessions_with w)

-- The sessions that a thread is yet to make.
abbrev pub unspawned : (conns : ℕ) → Worker → ℕ
unspawned conns Worker.unmade = conns
unspawned conns Worker.starting = conns
unspawned conns Worker.running = 0
unspawned conns Worker.finished = 0

abbrev pub unmade_sessions : (conns : ℕ) → List Echo → ℕ
unmade_sessions conns = total (λ e. unspawned conns e.worker)

pub record AreCounted (st : Statistics) (sss : List (List Session)) : Type 0 where
  pub completed : st.completed ≡ all_with is_completed sss
  pub connected : st.connected ≡ all_with is_connected sss
  pub failed : st.failed ≡ all_with is_ended sss

pub record Inv (connections : ℕ) (s : System) : Type 0 where
  pub threads : Places.Inv 10 s.threads
  pub contexts : length s.sessions ≡ 10
  pub counted : AreCounted s.statistics s.sessions
  pub enough :
      total length s.sessions + unmade_sessions (conns connections) s.threads.echo
      ≤ 10 * conns connections
