-- ===== src/Shutdown/Client.antt =====
-- asio/echo/client.cc: the threads of `main`, which asio/echo/co_client.cc has too: ten threads that run a context
-- each, `monitor`, and `main` itself, which polls `stop` and then stops the contexts and joins the threads.
pub mod Places
pub mod MainSteps
pub mod Steps
pub mod Progress
pub mod Returns
use snippets_cc.Prelude.{
  ℕ, suc, ◌+◌, Bool, true, false, ◌&&◌, not, Option, none, some, List, [], ◌∷◌, replicate,
  get_elem?, set, if◌then◌else◌, ◌==◌,
}
use snippets_cc.Shutdown.Rounds.{Program}

-- A thread of `echo_thrds`: not made, making its sessions, in `io.run ()`, or at its end.
pub data Worker : Type 0 where
  unmade starting running finished : Worker

-- A context with the thread that runs it.
pub record Echo : Type 0 where
  pub worker : Worker
  pub is_stopped : Bool

-- `monitor`: not made, in the first loop, before its test of `stop`, in the second loop, between its load of `connected` that
-- was 0 and its store of `stop`, or at its end.
pub data Monitor : Type 0 where
  unmade establishing established reporting stopping finished : Monitor

-- `main`: making thread `i`, polling `stop`, stopping context `i`, joining thread `i` or, after the last one,
-- `monitor_thrd`; or at its end.
pub data Main : Type 0 where
  making : ℕ → Main
  polling : Main
  stopping : ℕ → Main
  joining : ℕ → Main
  returned : Main

pub record System : Type 0 where
  pub stop : Bool
  pub echo : List Echo
  pub monitor : Monitor
  pub main : Main

-- What a turn of a worker meets: handlers to run, no work left, or an exception, which the thread catches.
pub data Turn : Type 0 where
  handlers no_work exception : Turn

pub data Action : Type 0 where
  -- the handler of SIGINT
  interrupt : Action
  main_turn : Action
  -- with what its loads find: `completed` has reached `connections`, and `connected` is 0
  monitor_turn : (all_completed none_connected : Bool) → Action
  worker_turn : ℕ → Turn → Action

-- `io.stop ()`
abbrev pub stop_context : Echo → Echo
stop_context e = record e { is_stopped = true }

-- `echo_thrds.emplace_back (...)`
abbrev pub make_thread : Echo → Echo
make_thread e = record e { worker = Worker.starting }

-- The first function has its sessions started, with no return before the end. `io.run ()` returns when the context is
-- stopped, even if it was stopped before the call, or when no work is left.
unfoldable pub worker_at : Worker → (is_stopped : Bool) → Turn → Worker
worker_at Worker.unmade is_stopped t = Worker.unmade
worker_at Worker.starting is_stopped Turn.exception = Worker.finished
worker_at Worker.starting is_stopped _ = Worker.running
worker_at Worker.running is_stopped Turn.handlers =
    if is_stopped then Worker.finished else Worker.running
worker_at Worker.running is_stopped _ = Worker.finished
worker_at Worker.finished is_stopped t = Worker.finished

unfoldable pub worker_step : Turn → Echo → Echo
unfolding worker_at
worker_step t e = record e { worker = worker_at e.worker e.is_stopped t }

unfoldable pub monitor_at : Monitor → (all_completed none_connected : Bool) → System → System
monitor_at Monitor.unmade all_completed none_connected s = s
monitor_at Monitor.establishing all_completed none_connected s =
    if not s.stop && not all_completed then s else record s { monitor = Monitor.established }
monitor_at Monitor.established all_completed none_connected s = record s {
  monitor = if s.stop then Monitor.finished else Monitor.reporting;
}
monitor_at Monitor.reporting all_completed none_connected s =
    if s.stop
    then record s { monitor = Monitor.finished }
    else (if none_connected then record s { monitor = Monitor.stopping } else s)
monitor_at Monitor.stopping all_completed none_connected s = record s {
  monitor = Monitor.finished;
  stop = true;
}
monitor_at Monitor.finished all_completed none_connected s = s

unfoldable pub monitor_step : (all_completed none_connected : Bool) → System → System
unfolding monitor_at
monitor_step all_completed none_connected s = monitor_at s.monitor all_completed none_connected s

abbrev pub monitor_is_finished : Monitor → Bool
monitor_is_finished Monitor.finished = true
monitor_is_finished _ = false

abbrev pub is_finished : Worker → Bool
is_finished Worker.finished = true
is_finished _ = false

-- `thrd.join ()` and `monitor_thrd.join ()` block until the thread is at its end.
unfoldable pub main_at : Main → System → System
main_at (making i) s = elim (get_elem? s.echo i) [
  | none ↦ record s { main = polling; monitor = Monitor.establishing }
  | some e ↦ record s { main = making (suc i); echo = set s.echo i (make_thread e) }
]
main_at polling s = if s.stop then record s { main = stopping 0 } else s
main_at (stopping i) s = elim (get_elem? s.echo i) [
  | none ↦ record s { main = joining 0 }
  | some e ↦ record s { main = stopping (suc i); echo = set s.echo i (stop_context e) }
]
main_at (joining i) s = elim (get_elem? s.echo i) [
  | none ↦ if monitor_is_finished s.monitor then record s { main = returned } else s
  | some e ↦ if is_finished e.worker then record s { main = joining (suc i) } else s
]
main_at returned s = s

unfoldable pub main_step : System → System
unfolding main_at
main_step s = main_at s.main s

unfoldable pub step : Action → System → System
unfolding main_step monitor_step worker_step
step interrupt s = record s { stop = true }
step main_turn s = main_step s
step (monitor_turn all_completed none_connected) s = monitor_step all_completed none_connected s
step (worker_turn i t) s = elim (get_elem? s.echo i) [
  | none ↦ s
  | some e ↦ record s { echo = set s.echo i (worker_step t e) }
]

-- `ctxs (n)`, before the first thread is made.
unfoldable pub start : ℕ → System
start n = record {
  stop = false;
  echo = replicate n (record { worker = Worker.unmade; is_stopped = false });
  monitor = Monitor.unmade;
  main = making 0;
}
