-- ===== src/Timers/Tests.antt =====
-- Runs of the two timers, and the theorem at one of them.
use snippets_cc.Prelude.{◌<◌, ◌≡◌, ◌⊎◌, refl, false, some, List, [], ◌∷◌, length}
use snippets_cc.Timers.Strand.{
  Timer, timer1, timer2, Printer, make, print1, print2, fire, run, numbers, upto,
}
use snippets_cc.Timers.Termination.{run-ends}

abbrev calls : List Timer
calls =
    timer1 ∷ timer1 ∷ timer2 ∷ timer2 ∷ timer1 ∷ timer2 ∷ timer1 ∷ timer2 ∷ timer1 ∷ timer2 ∷ timer1
    ∷ timer2 ∷ []

-- What is left after the calls.
abbrev after : Printer
after =
    let first = print2 (print1 (print2 (print2 (print1 (print1 (make 0)))))) in
    record (print2 (print1 (print2 (print1 first)))) { waits1 = false; waits2 = false }

run_lem : run calls (make 0) ≡ some after
unfolding run make fire print1 print2
run_lem = refl

run-ends_example :
    ((length calls < 12) × ((t : Timer) × (q : Printer) × (fire t after ≡ some q)))
    ⊎ ((length calls ≡ 12) × (after.count ≡ 10) × (numbers after.output ≡ upto 10))
run-ends_example = run-ends 0 calls after run_lem
