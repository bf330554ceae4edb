-- ===== src/Shutdown/Listening.antt =====
-- asio/echo/co_server.cc: class server, whose coroutine `listen` accepts connections on one port each, run by the threads
-- of `main`. `async_accept` throws on failure; the exception ends the coroutine, and `handle_spawn` throws it again out of
-- `io_context.run ()` of the thread that runs the coroutine.
pub mod Costs
use snippets_cc.Prelude.{
  ℕ, ◌+◌, Bool, true, false, not, ◌&&◌, if◌then◌else◌, Option, some, List, [], ◌∷◌, get_elem?, set,
  replicate,
}
use snippets_cc.Shutdown.Server
use snippets_cc.Shutdown.Server.{Worker, Main, running, Turn}

-- The threads, whether each coroutine `listen` goes on, and the number of sessions that have been started.
pub record System : Type 0 where
  pub pool : Server.System
  pub listening : List Bool
  pub sessions : ℕ

-- The thread that runs a coroutine.
pub data Runner : Type 0 where
  main_thread : Runner
  pool_thread : ℕ → Runner

abbrev pub turn_of : Runner → Turn → Server.Action
turn_of main_thread t = Server.main_turn t
turn_of (pool_thread i) t = Server.worker_turn i t

abbrev pub is_main_running : Main → Bool
is_main_running running = true
is_main_running _ = false

abbrev pub is_worker_running : Option Worker → Bool
is_worker_running (some Worker.running) = true
is_worker_running _ = false

-- The thread is in `io_context.run ()`, which has not been stopped.
abbrev pub runs : Runner → Server.System → Bool
runs main_thread s = is_main_running s.main && not s.is_stopped
runs (pool_thread i) s = is_worker_running (get_elem? s.threads i) && not s.is_stopped

abbrev pub is_listening : Option Bool → Bool
is_listening (some true) = true
is_listening _ = false

pub data Action : Type 0 where
  accept_ends : (error : Bool) (port : ℕ) → Runner → Action
  of_pool : Server.Action → Action

-- `listen` after `async_accept`: with a connection, the session is made and started, and the loop goes on.
unfoldable pub listen : (error : Bool) (port : ℕ) → Runner → System → System
listen false port r s = record s { sessions = s.sessions + 1 }
listen true port r s = record s {
  listening = set s.listening port false;
  pool = Server.step (turn_of r Turn.exception) s.pool;
}

unfoldable pub step : Action → System → System
unfolding listen
step (accept_ends error port r) s =
    if runs r s.pool && is_listening (get_elem? s.listening port) then listen error port r s else s
step (of_pool a) s = record s { pool = Server.step a s.pool }

unfoldable pub run : List Action → System → System
run [] s = s
run (a ∷ acts) s = run acts (step a s)

-- `main` with `n` threads beside it and a server for each port.
unfoldable pub start : (n ports : ℕ) → System
start n ports = record { pool = Server.start n; listening = replicate ports true; sessions = 0 }
