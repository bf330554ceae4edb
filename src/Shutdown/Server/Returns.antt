-- ===== src/Shutdown/Server/Returns.antt =====
-- asio/echo/server.cc and asio/echo/co_server.cc: `main` returns.
use mathlib.Core.Path.{subst}
use mathlib.Core.Option.{some-injective}
use snippets_cc.Prelude.{
  ℕ, zero, suc, ◌+◌, ◌*◌, ◌≤◌, ◌<◌, ◌≡◌, refl, sym, ap, ◌∙◌, Bool, true, false, some, List, [], ◌∷◌,
  All, length, get_elem?, replicate, total, length-replicate, none≢some, arith,
}
use snippets_cc.Shutdown.Rounds.{Program, run, run_rounds, has, Laws, rounds_end, rounds-keep}
use snippets_cc.Shutdown.Server.{
  Worker, Main, making, running, joining, returned, caught, terminated, System, Turn, Action,
  main_turn, worker_turn, is_joinable, is_finished, main_at, step, start,
}
use snippets_cc.Shutdown.Server.Places.{Placed, Beside, Inv, worker_left, left}
use snippets_cc.Shutdown.Server.Progress.{Thread, is_of, IsThread, is_over, goes_on}
use snippets_cc.Shutdown.Server.Steps.{step-Fine}

unfoldable pub program : Program System Action Thread
program = record { step = step; left = left; is_of = is_of }

-- No exception ends `main`.
abbrev pub is_going : Main → Bool
is_going caught = false
is_going terminated = false
is_going _ = true

-- No turn of `main` meets an exception.
abbrev pub IsCalm : Action → Type 0
IsCalm (main_turn Turn.exception) = ⊥
IsCalm _ = Unit {0}

-- `main` has returned from its last line, with the io_context stopped and each thread at its end.
pub record HasReturned (s : System) : Type 0 where
  pub main : s.main ≡ returned
  pub stopped : s.is_stopped ≡ true
  pub threads : (j : ℕ) (w : Worker) → get_elem? s.threads j ≡ some w → is_finished w ≡ true

pub start-Inv : (n : ℕ) → Inv n (start n)
unfolding start
start-Inv n = record {
  count = length-replicate n Worker.unmade;
  threads = λ j w h. (λ lt. absurd (omega (arith, lt)), λ le. unmade n j w h);
  beside = tt;
}
  where
    unmade :
        (n j : ℕ) (w : Worker)
        → get_elem? (replicate n Worker.unmade) j ≡ some w
        → is_joinable w ≡ false
    unmade zero j w h = absurd (none≢some h)
    unmade (suc n) zero w h = ap is_joinable (sym (some-injective _ _ h))
    unmade (suc n) (suc j) w h = unmade n j w h

start-left : (n : ℕ) → left (start n) ≡ 4 * n + 5
unfolding start left total
start-left n = omega (arith, length-replicate n Worker.unmade, fresh_left n)
  where
    fresh_left : (n : ℕ) → total worker_left (replicate n Worker.unmade) ≡ 2 * n
    fresh_left zero = omega arith
    fresh_left (suc n) = omega (arith, fresh_left n)

pub run-Inv :
    {n : ℕ} (acts : List Action) (s : System)
    → Inv n s
    → Inv n (run program acts s) × (left (run program acts s) ≤ left s)
unfolding run program
run-Inv [] s v = (v, omega arith)
run-Inv (a ∷ acts) s v =
    let f = step-Fine a v in
    let (w, less) = run-Inv acts (step a s) f.inv in (w, omega (arith, f.le, less))

pub worker_turn-main : (i : ℕ) (t : Turn) (s : System) → (step (worker_turn i t) s).main ≡ s.main
unfolding step
worker_turn-main i t s = ground arith

step-is_over : (a : Action) (s : System) → is_over s.main ≡ true → is_over (step a s).main ≡ true
unfolding step
step-is_over (main_turn t) s over = go s.main over
  where
    go : (m : Main) → is_over m ≡ true → is_over (main_at m t s).main ≡ true
    go (making i) h = cc
    go running h = cc
    go (joining i) h = cc
    go returned h = over
    go caught h = over
    go terminated h = over
step-is_over (worker_turn i t) s over = ap is_over (worker_turn-main i t s) ∙ over

main_at-is_going :
    (m : Main) (t : Turn) (s : System)
    → IsCalm (main_turn t)
    → is_going s.main ≡ true
    → is_going (main_at m t s).main ≡ true
unfolding main_at
main_at-is_going (making i) Turn.handlers s calm going = ground arith
main_at-is_going (making i) Turn.signal s calm going = ground arith
main_at-is_going (making i) Turn.exception s calm going = absurd calm
main_at-is_going running Turn.handlers s calm going = ground arith
main_at-is_going running Turn.signal s calm going = ground arith
main_at-is_going running Turn.exception s calm going = absurd calm
main_at-is_going (joining i) t s calm going = ground arith
main_at-is_going returned t s calm going = going
main_at-is_going caught t s calm going = going
main_at-is_going terminated t s calm going = going

-- A turn that meets no exception in `main` ends it by none.
step-is_going :
    (a : Action) (s : System) → IsCalm a → is_going s.main ≡ true → is_going (step a s).main ≡ true
unfolding step
step-is_going (main_turn t) s calm going = main_at-is_going s.main t s calm going
step-is_going (worker_turn i t) s calm going = ap is_going (worker_turn-main i t s) ∙ going

run-is_going :
    (acts : List Action) (s : System)
    → All IsCalm acts
    → is_going s.main ≡ true
    → is_going (run program acts s).main ≡ true
unfolding run program
run-is_going [] s calm going = going
run-is_going (a ∷ acts) s calm going =
    run-is_going acts (step a s) calm.1 (step-is_going a s calm.0 going)

rounds-is_going :
    (rounds : List (List Action)) (s : System)
    → All (All IsCalm) rounds
    → is_going s.main ≡ true
    → is_going (run_rounds program rounds s).main ≡ true
unfolding run_rounds
rounds-is_going [] s calm going = going
rounds-is_going (r ∷ rounds) s calm going =
    rounds-is_going rounds (run program r s) calm.1 (run-is_going r s calm.0 going)

laws :
    (n : ℕ)
    → Laws program (λ s. Inv n s × (s.is_stopped ≡ true)) (λ s. is_over s.main ≡ true) (IsThread n)
unfolding program
laws n = record {
  keeps = λ a s v. let f = step-Fine a v.0 in (f.inv, f.stop v.1);
  moves = λ a s v. (step-Fine a v.0).nearer v.1;
  goes_on = λ s v. goes_on v.0 v.1;
  stays_done = λ a s v over. step-is_over a s over;
}

over-returned : (m : Main) → is_over m ≡ true → is_going m ≡ true → m ≡ returned
over-returned (making i) over going = cc
over-returned running over going = cc
over-returned (joining i) over going = cc
over-returned returned over going = refl
over-returned caught over going = cc
over-returned terminated over going = cc

Inv-HasReturned : {n : ℕ} {s : System} → Inv n s → s.main ≡ returned → HasReturned s
Inv-HasReturned {n} {s} v p = record {
  main = p;
  stopped = subst (λ m. Beside m s.is_stopped) p v.beside;
  threads =
      subst (λ m. (j : ℕ) (w : Worker) → get_elem? s.threads j ≡ some w → Placed m j w) p v.threads;
}

-- `main` with `n` threads beside it, once the handler of signals has stopped the io_context, and whatever has happened before:
-- if no turn of `main` itself meets an exception, and every thread keeps getting turns, then `main` returns within
-- 4 n + 5 rounds, with each thread at its end; exceptions of the other threads do not matter.
pub server_returns :
    (n : ℕ) (before : List Action) (rounds : List (List Action))
    → All IsCalm before
    → All (All IsCalm) rounds
    → (run program before (start n)).is_stopped ≡ true
    → All (λ r. (t : Thread) → IsThread n t → has program t r ≡ true) rounds
    → 4 * n + 5 < length rounds
    → HasReturned (run_rounds program rounds (run program before (start n)))
unfolding start program
server_returns n before rounds calm calm_rounds on fair enough =
    let (v, le) = run-Inv before (start n) (start-Inv n) in
    let s = run program before (start n) in
    let over =
      rounds_end program (laws n) rounds s (v, on) fair (omega (arith, le, start-left n, enough)) in
    let going = rounds-is_going rounds s calm_rounds (run-is_going before (start n) calm refl) in
    Inv-HasReturned (rounds-keep program (laws n) rounds s (v, on)).0 (over-returned _ over going)
