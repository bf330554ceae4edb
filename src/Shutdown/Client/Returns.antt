-- ===== src/Shutdown/Client/Returns.antt =====
-- asio/echo/client.cc: `main` returns.
use mathlib.Core.Path.{subst}
use snippets_cc.Prelude.{
  ℕ, zero, suc, ◌+◌, ◌*◌, ◌≤◌, ◌<◌, ◌≡◌, refl, sym, ap, ◌∙◌, Bool, true, false, some, List, [], ◌∷◌,
  length, get_elem?, total, replicate, length-replicate, All, none≢some, arith,
}
use mathlib.Core.Option.{some-injective}
use snippets_cc.Shutdown.Rounds.{Program, run, run_rounds, has, Laws, rounds_end}
use snippets_cc.Shutdown.Client.{
  Worker, Echo, Monitor, Main, making, polling, stopping, joining, returned, System, Action,
  interrupt, main_turn, monitor_turn, worker_turn, monitor_at, monitor_step, main_at, main_step,
  step, start,
}
use snippets_cc.Shutdown.Client.Places.{is_made, Beside, Inv, worker_left, left}
use snippets_cc.Shutdown.Client.Steps.{step-Inv}
use snippets_cc.Shutdown.Client.Progress.{Thread, is_of, IsThread, IsOver, Inv-IsOver, goes_on}

unfoldable pub program : Program System Action Thread
program = record { step = step; left = left; is_of = is_of }

pub start-Inv : (n : ℕ) → Inv n (start n)
unfolding start
start-Inv n = record {
  count = length-replicate n (record { worker = Worker.unmade; is_stopped = false });
  threads = λ j e h. (λ lt. absurd (omega (arith, lt)), λ le. unmade n j e h);
  beside = refl;
}
  where
    unmade :
        (n j : ℕ) (e : Echo)
        → get_elem? (replicate n (record { worker = Worker.unmade; is_stopped = false })) j ≡ some e
        → is_made e.worker ≡ false
    unmade zero j e h = absurd (none≢some h)
    unmade (suc n) zero e h = ap (λ x. is_made x.worker) (sym (some-injective _ _ h))
    unmade (suc n) (suc j) e h = unmade n j e h

pub start-left : (n : ℕ) → left (start n) ≡ 6 * n + 10
unfolding start left total
start-left n =
    let fresh : Echo = record { worker = Worker.unmade; is_stopped = false } in
    omega (arith, length-replicate n fresh, fresh_left n)
  where
    fresh_left :
        (n : ℕ)
        → total
            (λ (e : Echo). worker_left e.worker)
            (replicate n (record { worker = Worker.unmade; is_stopped = false }))
          ≡ 3 * n
    fresh_left zero = omega arith
    fresh_left (suc n) = omega (arith, fresh_left n)

pub run-Inv :
    {n : ℕ} (acts : List Action) (s : System)
    → Inv n s
    → Inv n (run program acts s) × (left (run program acts s) ≤ left s)
unfolding run program
run-Inv [] s v = (v, omega arith)
run-Inv (a ∷ acts) s v =
    let (v', le, _) = step-Inv a v in
    let (w, less) = run-Inv acts (step a s) v' in (w, omega (arith, le, less))

-- `stop` stays set, and `main` stays at its end.
pub main_at-stop : (m : Main) (s : System) → (main_at m s).stop ≡ s.stop
unfolding main_at
main_at-stop (making i) s = ground arith
main_at-stop polling s = ground arith
main_at-stop (stopping i) s = ground arith
main_at-stop (joining i) s = ground arith
main_at-stop returned s = refl

monitor_at-stop :
    (m : Monitor) (b c : Bool) (s : System) → s.stop ≡ true → (monitor_at m b c s).stop ≡ true
unfolding monitor_at
monitor_at-stop Monitor.unmade b c s on = on
monitor_at-stop Monitor.establishing b c s on = ground arith
monitor_at-stop Monitor.established b c s on = on
monitor_at-stop Monitor.reporting b c s on = ground arith
monitor_at-stop Monitor.stopping b c s on = refl
monitor_at-stop Monitor.finished b c s on = on

pub step-stop : (a : Action) (s : System) → s.stop ≡ true → (step a s).stop ≡ true
unfolding step main_step monitor_step
step-stop interrupt s on = refl
step-stop main_turn s on = main_at-stop s.main s ∙ on
step-stop (monitor_turn b c) s on = monitor_at-stop s.monitor b c s on
step-stop (worker_turn i t) s on = ground arith

monitor_at-main : (m : Monitor) (b c : Bool) (s : System) → (monitor_at m b c s).main ≡ s.main
unfolding monitor_at
monitor_at-main Monitor.unmade b c s = refl
monitor_at-main Monitor.establishing b c s = ground arith
monitor_at-main Monitor.established b c s = refl
monitor_at-main Monitor.reporting b c s = ground arith
monitor_at-main Monitor.stopping b c s = refl
monitor_at-main Monitor.finished b c s = refl

pub step-returned : (a : Action) (s : System) → s.main ≡ returned → (step a s).main ≡ returned
unfolding step main_step monitor_step main_at
step-returned interrupt s p = p
step-returned main_turn s p = ap (λ m. (main_at m s).main) p ∙ p
step-returned (monitor_turn b c) s p = monitor_at-main s.monitor b c s ∙ p
step-returned (worker_turn i t) s p = ground arith

laws : (n : ℕ) → Laws program (λ s. Inv n s × (s.stop ≡ true)) IsOver (IsThread n)
unfolding program
laws n = record {
  keeps = λ a s v. ((step-Inv a v.0).0, step-stop a s v.1);
  moves = λ a s v. (step-Inv a v.0).2 v.1;
  goes_on = λ s v. goes_on v.0 v.1;
  stays_done = λ a s v over. Inv-IsOver (step-Inv a v.0).0 (step-returned a s over.main);
}

-- From the start of `main` with `n` contexts (the program has ten), once `stop` is set, by SIGINT or by `monitor`, and
-- whatever has happened before: if every thread keeps getting turns, then, whatever the turns meet, `main` returns
-- within 6 n + 10 rounds, with each context stopped and each thread at its end.
pub main_returns :
    (n : ℕ) (before : List Action) (rounds : List (List Action))
    → (run program before (start n)).stop ≡ true
    → All (λ r. (t : Thread) → IsThread n t → has program t r ≡ true) rounds
    → 6 * n + 10 < length rounds
    → IsOver (run_rounds program rounds (run program before (start n)))
unfolding program
main_returns n before rounds on fair enough =
    let (v, le) = run-Inv before (start n) (start-Inv n) in
    rounds_end program (laws n) rounds (run program before (start n)) (v, on) fair
      (omega (arith, le, start-left n, enough))

-- Whatever the order of the turns, and fair or not, `main` has not returned before `stop` is set, each context is stopped and
-- each thread has come to its end: no `std::thread` is destroyed joinable and no context while a thread runs it.
pub returned-IsOver :
    (n : ℕ) (acts : List Action)
    → (run program acts (start n)).main ≡ returned
    → IsOver (run program acts (start n)) × ((run program acts (start n)).stop ≡ true)
returned-IsOver n acts p =
    let (v, _) = run-Inv acts (start n) (start-Inv n) in
    let s = run program acts (start n) in
    (Inv-IsOver v p, (subst (λ m. Beside m s.monitor s.stop) p v.beside).1)
