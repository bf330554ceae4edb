-- ===== src/Shutdown/Server/Exceptions.antt =====
-- asio/echo/server.cc and asio/echo/co_server.cc: exceptions that handlers throw.
use mathlib.Core.Path.{subst}
use snippets_cc.Prelude.{ℕ, ◌^◌, ◌<◌, ◌≡◌, refl, ap, ◌∙◌, false, some, List, get_elem?, set, arith}
use snippets_cc.Shutdown.Rounds.{run}
use snippets_cc.Shutdown.Server.{
  Worker, running, terminated, System, Turn, Action, main_turn, worker_turn, worker_at, unwind,
  main_at, step, start, num_threads,
}
use snippets_cc.Shutdown.Server.Places.{Placed, Inv, any_joinable-true}
use snippets_cc.Shutdown.Server.Returns.{program, start-Inv, run-Inv}

num_threads-pos : (concurrency : ℕ) → concurrency < 2 ^ 31 → 0 < num_threads concurrency
unfolding num_threads
num_threads-pos concurrency few = ground arith

exception-terminated :
    {n : ℕ} (s : System)
    → Inv n s
    → 0 < n
    → s.main ≡ running
    → s.is_stopped ≡ false
    → (main_at running Turn.exception s).main ≡ terminated
unfolding main_at unwind
exception-terminated s v lt p off =
    let joinable = any_joinable-true s.threads (omega (arith, v.count, lt)) (
      subst (λ m. (j : ℕ) (w : Worker) → get_elem? s.threads j ≡ some w → Placed m j w) p
        v.threads) in
    ground (arith, joinable)

-- `main` on a machine that reports its number of processors, after these turns.
abbrev pub reached : (concurrency : ℕ) → List Action → System
reached concurrency acts = run program acts (start (num_threads concurrency))

-- If fewer than 2 ^ 31 processors are reported, then in any state that `main` reaches in which it is in `io_context.run ()`, not
-- stopped: an exception of a handler that `main` runs ends the process by `std::terminate`, since its threads are
-- joinable; an exception of a handler that another thread runs ends that thread and changes nothing else.
pub exception_turns :
    (concurrency : ℕ) (acts : List Action)
    → concurrency < 2 ^ 31
    → (reached concurrency acts).main ≡ running
    → (reached concurrency acts).is_stopped ≡ false
    → ((step (main_turn Turn.exception) (reached concurrency acts)).main ≡ terminated)
      × ((i : ℕ)
          → get_elem? (reached concurrency acts).threads i ≡ some Worker.running
          → step (worker_turn i Turn.exception) (reached concurrency acts)
            ≡ record (reached concurrency acts) {
              threads = set (reached concurrency acts).threads i Worker.finished;
            })
unfolding step worker_at
exception_turns concurrency acts few p off =
    let n = num_threads concurrency in
    let (v, _) = run-Inv acts (start n) (start-Inv n) in
    (
      ap (λ m. (main_at m Turn.exception (reached concurrency acts)).main) p
          ∙ exception-terminated (reached concurrency acts) v (num_threads-pos concurrency few) p
              off,
      λ i at_i. rw (at_i, step) refl,
    )
