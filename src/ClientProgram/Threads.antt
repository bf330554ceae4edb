-- ===== src/ClientProgram/Threads.antt =====
-- asio/echo/co_client.cc and asio/echo/client.cc: what the whole program is to its threads, a program of Shutdown.Client.
use snippets_cc.Prelude.{
  ℕ, suc, ◌<◌, ◌≡◌, refl, sym, ap, ◌∙◌, true, Bool-cases, inl, inr, List, [], ◌∷◌, length, All,
  arith,
}
use mathlib.Core.Path.{subst}
use snippets_cc.Shutdown.Client
use snippets_cc.Shutdown.Client.Progress.{Thread, IsThread, IsOver}
use snippets_cc.Shutdown.Client.Progress as Progress
use snippets_cc.Shutdown.Client.Returns.{main_returns}
use snippets_cc.Shutdown.Client.Returns as Threads
use snippets_cc.Shutdown.Rounds.{run, run_rounds, has}
use snippets_cc.ClientProgram.{Reaction, System, Action, action_of, step, start}
use snippets_cc.ClientProgram.Runs.{is_of, program, action_of-is_of}

module _ (react : Reaction) (connections : ℕ) where
  -- What the actions of a run are to the threads.
  actions_of : List Action → System → List Client.Action
  actions_of [] s = []
  actions_of (a ∷ acts) s = action_of connections a s ∷ actions_of acts (step react connections a s)

  rounds_of : List (List Action) → System → List (List Client.Action)
  unfolding actions_of
  rounds_of [] s = []
  rounds_of (r ∷ rounds) s = actions_of r s ∷ rounds_of rounds (run (program react connections) r s)

  run-threads :
      (acts : List Action) (s : System)
      → (run (program react connections) acts s).threads
        ≡ run Threads.program (actions_of acts s) s.threads
  unfolding run program Threads.program actions_of step
  run-threads [] s = refl
  run-threads (a ∷ acts) s = run-threads acts (step react connections a s)

  run_rounds-threads :
      (rounds : List (List Action)) (s : System)
      → (run_rounds (program react connections) rounds s).threads
        ≡ run_rounds Threads.program (rounds_of rounds s) s.threads
  unfolding run_rounds rounds_of
  run_rounds-threads [] s = refl
  run_rounds-threads (r ∷ rounds) s =
      run_rounds-threads rounds (run (program react connections) r s)
      ∙ ap (run_rounds Threads.program (rounds_of rounds (run (program react connections) r s)))
          (run-threads r s)

  length-rounds_of :
      (rounds : List (List Action)) (s : System) → length (rounds_of rounds s) ≡ length rounds
  unfolding rounds_of
  length-rounds_of [] s = refl
  length-rounds_of (r ∷ rounds) s =
      ap suc (length-rounds_of rounds (run (program react connections) r s))

  has-actions_of :
      (t : Thread) (r : List Action) (s : System)
      → has (program react connections) t r ≡ true
      → has Threads.program t (actions_of r s) ≡ true
  unfolding has program Threads.program actions_of
  has-actions_of t [] s h = h
  has-actions_of t (a ∷ r) s h = elim (Bool-cases (is_of t a)) [
    | inl mine ↦ rw (action_of-is_of connections t a s mine, has) refl
    | inr other ↦
        let rest = has-actions_of t r (step react connections a s) (rw other at h) in
        elim (Bool-cases (Progress.is_of t (action_of connections a s))) [
          | inl also ↦ rw (also, has) refl
          | inr neither ↦ rw (neither, has) rest
        ]
  ]

  fair_rounds_of :
      (rounds : List (List Action)) (s : System)
      → All (λ r. (t : Thread) → IsThread 10 t → has (program react connections) t r ≡ true) rounds
      → All
          (λ r. (t : Thread) → IsThread 10 t → has Threads.program t r ≡ true)
          (rounds_of rounds s)
  unfolding rounds_of
  fair_rounds_of [] s h = tt
  fair_rounds_of (r ∷ rounds) s h = (
    λ t valid. has-actions_of t r s (h.0 t valid),
    fair_rounds_of rounds (run (program react connections) r s) h.1,
  )

  -- Once `stop` is set, and whatever the sessions do: if every thread keeps getting turns, `main` returns within 70 rounds,
  -- with each context stopped and each thread at its end.
  pub returns_when_stopped :
      (before : List Action) (rounds : List (List Action))
      → (run (program react connections) before start).threads.stop ≡ true
      → All (λ r. (t : Thread) → IsThread 10 t → has (program react connections) t r ≡ true) rounds
      → 70 < length rounds
      → IsOver
          (run_rounds
            (program react connections)
            rounds
            (run (program react connections) before start)).threads
  unfolding start
  returns_when_stopped before rounds on fair enough =
      let s = run (program react connections) before start in
      let at_start = run-threads before start in
      let over =
        main_returns 10 (actions_of before start) (rounds_of rounds s)
          (ap (λ t. t.stop) (sym at_start) ∙ on) (fair_rounds_of rounds s fair)
          (omega (arith, length-rounds_of rounds s, enough)) in
      subst IsOver
        (sym (
          run_rounds-threads rounds s
          ∙ ap (run_rounds Threads.program (rounds_of rounds s)) at_start))
        over
