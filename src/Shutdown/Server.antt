-- ===== src/Shutdown/Server.antt =====
-- asio/echo/server.cc and asio/echo/co_server.cc: the threads of `main`, which run one io_context together with `main`
-- itself until a handler stops it.
pub mod Places
pub mod Steps
pub mod Progress
pub mod Returns
pub mod Exceptions
use snippets_cc.Prelude.{
  ℕ, suc, ◌*◌, ◌%◌, ◌^◌, Bool, true, false, ◌||◌, Option, none, some, List, [], ◌∷◌, replicate,
  get_elem?, set, if◌then◌else◌, ◌==◌,
}

-- A thread of `threads`: not made, in `io_context.run ()`, or at its end.
pub data Worker : Type 0 where
  unmade running finished : Worker

-- `main`: making thread `i`, in `io_context.run ()`, joining thread `i`; at its end, by its last line or by its handler
-- of exceptions; or ended by `std::terminate`.
pub data Main : Type 0 where
  making : ℕ → Main
  running : Main
  joining : ℕ → Main
  returned : Main
  caught : Main
  terminated : Main

-- `is_stopped` of the io_context, with the threads that run it.
pub record System : Type 0 where
  pub is_stopped : Bool
  pub threads : List Worker
  pub main : Main

-- What a turn meets: handlers to run, the handler of SIGINT and SIGTERM, or an exception, of a handler or of the making
-- of a thread.
pub data Turn : Type 0 where
  handlers signal exception : Turn

pub data Action : Type 0 where
  main_turn : Turn → Action
  worker_turn : ℕ → Turn → Action

-- `num_threads`, where `std::thread::hardware_concurrency ()` has returned `concurrency`
unfoldable pub num_threads : (concurrency : ℕ) → ℕ
num_threads concurrency = if concurrency == 0 then 10 else concurrency * 2 % 2 ^ 32

-- `joinable ()`, while `main` has joined no thread.
abbrev pub is_joinable : Worker → Bool
is_joinable Worker.unmade = false
is_joinable _ = true

unfoldable pub any_joinable : List Worker → Bool
any_joinable [] = false
any_joinable (w ∷ ws) = is_joinable w || any_joinable ws

-- An exception leaves the block of `main`, which destroys `threads`: the destructor of a joinable `std::thread` calls
-- `std::terminate`.
unfoldable pub unwind : System → System
unfolding any_joinable
unwind s = record s { main = if any_joinable s.threads then terminated else caught }

-- A turn in `io_context.run ()`, which returns once the io_context is stopped. A thread catches the exceptions of the
-- handlers that it runs, and ends.
unfoldable pub worker_at : Worker → (is_stopped : Bool) → Turn → Worker
worker_at Worker.running is_stopped Turn.exception = Worker.finished
worker_at Worker.running is_stopped _ = if is_stopped then Worker.finished else Worker.running
worker_at w is_stopped t = w

-- `io_context.stop ()` of the handler of signals, if this is the handler that runs.
abbrev pub stopped_by : Turn → Bool → Bool
stopped_by Turn.signal is_stopped = true
stopped_by _ is_stopped = is_stopped

abbrev pub is_running : Worker → Bool
is_running Worker.running = true
is_running _ = false

abbrev pub is_finished : Worker → Bool
is_finished Worker.finished = true
is_finished _ = false

unfoldable pub main_at : Main → Turn → System → System
unfolding unwind
main_at (making i) Turn.exception s = unwind s
main_at (making i) _ s = elim (get_elem? s.threads i) [
  | none ↦ record s { main = running }
  | some w ↦ record s { main = making (suc i); threads = set s.threads i Worker.running }
]
main_at running Turn.handlers s = if s.is_stopped then record s { main = joining 0 } else s
main_at running Turn.signal s =
    if s.is_stopped then record s { main = joining 0 } else record s { is_stopped = true }
main_at running Turn.exception s = if s.is_stopped then record s { main = joining 0 } else unwind s
main_at (joining i) t s = elim (get_elem? s.threads i) [
  | none ↦ record s { main = returned }
  | some w ↦ if is_finished w then record s { main = joining (suc i) } else s
]
main_at returned t s = s
main_at caught t s = s
main_at terminated t s = s

unfoldable pub step : Action → System → System
unfolding main_at worker_at
step (main_turn t) s = main_at s.main t s
step (worker_turn i t) s = elim (get_elem? s.threads i) [
  | none ↦ s
  | some w ↦ record s {
    threads = set s.threads i (worker_at w s.is_stopped t);
    is_stopped = if is_running w then stopped_by t s.is_stopped else s.is_stopped;
  }
]

-- `main` when its `num_threads` is `n`, before it makes the first thread.
unfoldable pub start : ℕ → System
start n = record { is_stopped = false; threads = replicate n Worker.unmade; main = making 0 }
