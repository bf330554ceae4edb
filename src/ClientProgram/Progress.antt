-- ===== src/ClientProgram/Progress.antt =====
-- asio/echo/co_client.cc and asio/echo/client.cc: once every session has ended, some thread can go on until all is over.
use mathlib.Core.Path.{subst}
use snippets_cc.Prelude.{
  ℕ, ◌<◌, ◌≡◌, ◌≢◌, ◌⊎◌, refl, sym, ap, ◌∙◌, true, false, Bool-cases, inl, inr, arith,
}
use snippets_cc.Shutdown.Client
use snippets_cc.Shutdown.Client.{
  Main, making, polling, stopping, joining, returned, monitor_is_finished,
}
use snippets_cc.Shutdown.Client.Places.{monitor_is_made, Beside}
use snippets_cc.Shutdown.Client.Steps.{step-Inv as threads-Inv}
use snippets_cc.Shutdown.Client.Progress.{
  Thread, main_thread, monitor_thread, IsThread, IsOver, Inv-IsOver, goes_on,
}
use snippets_cc.Shutdown.Client.Returns.{step-returned}
use snippets_cc.Shutdown.Rounds.{Laws}
use snippets_cc.ClientProgram.{
  Reaction, SessionLaws, System, Action, interrupt, main_turn, monitor_turn, worker_turn, action_of,
  step,
}
use snippets_cc.ClientProgram.Invariant.{Inv}
use snippets_cc.ClientProgram.Runs.{is_of, action_of-is_of, left, program, step-Inv}
use snippets_cc.ClientProgram.Quiet.{Quiet, works_nothing, loads_completed, loads_none_connected}
use snippets_cc.ClientProgram.Stops.{Stops, threads-Stops, unset-step, threads_move, monitor_at-ne}

module _ {react : Reaction} (laws : SessionLaws react) {connections : ℕ}
    (few : connections < 2147483638) where
  -- Where the program is from then on.
  unfoldable pub Waits : System → Type 0
  Waits s = Inv connections s × Quiet connections s × Stops s.threads

  quiet-step :
      (a : Action) (s : System)
      → Waits s
      → step react connections a s
        ≡ record s { threads = Client.step (action_of connections a s) s.threads }
  unfolding step Waits
  quiet-step a s (v, q, h) =
      ap {A = System} {B = System}
        (λ t. record t { threads = Client.step (action_of connections a s) s.threads })
        (works_nothing v q laws a)

  Waits-step : (a : Action) (s : System) → Waits s → Waits (step react connections a s)
  unfolding Waits
  Waits-step a s (v, q, h) = (
    step-Inv laws connections few a s v,
    subst (Quiet connections) (sym (quiet-step a s (v, q, h)))
        (record { made = q.made; all_left = q.all_left }),
    subst (λ t. Stops t.threads) (sym (quiet-step a s (v, q, h)))
        (threads-Stops (action_of connections a s) s.threads h),
  )

  Waits-move :
      (a : Action) (s : System)
      → Waits s
      → (step react connections a s ≡ s)
        ⊎ (left (step react connections a s).threads < left s.threads)
  unfolding Waits step
  Waits-move a s (v, q, h) = elim (threads_move (action_of connections a s) v.threads) [
    | inl same ↦ inl (quiet-step a s (v, q, h) ∙ ap (λ t. record s { threads = t }) same)
    | inr less ↦ inr less
  ]

  -- All is over, or some thread's next turn leaves less to do.
  CanGoOn : System → Type 0
  CanGoOn s =
      IsOver s.threads
      ⊎ ((t : Thread) × IsThread 10 t
          × ((a : Action)
              → is_of t a ≡ true
              → left (step react connections a s).threads < left s.threads))

  stopped-CanGoOn : (s : System) → Waits s → s.threads.stop ≡ true → CanGoOn s
  unfolding Waits CanGoOn step left
  stopped-CanGoOn s (v, q, h) on = elim (goes_on v.threads on) [
    | inl over ↦ inl over
    | inr (t, valid, go) ↦ inr (
      t,
      valid,
      λ a mine. omega (
        arith,
        go (action_of connections a s) (action_of-is_of connections t a s mine),
        unset-step (action_of connections a s) s.threads,
      ),
    )
  ]

  module _ (s : System) (w : Waits s) where
    moves_on :
        (t : Thread)
        → IsThread 10 t
        → ((a : Action)
            → is_of t a ≡ true
            → Client.step (action_of connections a s) s.threads ≡ s.threads
            → ⊥)
        → CanGoOn s
    unfolding CanGoOn step Waits
    moves_on t valid ne = inr (
      t,
      valid,
      λ a mine. elim (threads_move (action_of connections a s) w.0.threads) [
        | inl same ↦ absurd (ne a mine same)
        | inr less ↦ less
      ],
    )

    main_moves : (m : Main) → s.threads.main ≡ m → m ≢ (Client.main_at m s.threads).main → CanGoOn s
    unfolding Client.step Client.main_step action_of
    main_moves m p ne = moves_on main_thread tt go
      where
        go :
            (a : Action)
            → is_of main_thread a ≡ true
            → Client.step (action_of connections a s) s.threads ≡ s.threads
            → ⊥
        go interrupt mine same = cc
        go main_turn mine same =
            ne (sym p ∙ ap (λ t. t.main) (sym same) ∙ ap (λ k. (Client.main_at k s.threads).main) p)
        go monitor_turn mine same = cc
        go (worker_turn i t) mine same = cc

    monitor_moves : s.threads.stop ≡ false → monitor_is_made s.threads.monitor ≡ true → CanGoOn s
    unfolding Client.step Client.monitor_step action_of Waits
    monitor_moves off made = moves_on monitor_thread tt go
      where
        loads : action_of connections monitor_turn s ≡ Client.monitor_turn true true
        loads = rw (loads_completed w.0 w.1 few, loads_none_connected w.0 w.1, action_of) refl

        unfinished : monitor_is_finished s.threads.monitor ≡ false
        unfinished = elim (Bool-cases (monitor_is_finished s.threads.monitor)) [
          | inl over ↦ absurd (let on = w.2 over in cc)
          | inr still ↦ still
        ]

        go :
            (a : Action)
            → is_of monitor_thread a ≡ true
            → Client.step (action_of connections a s) s.threads ≡ s.threads
            → ⊥
        go interrupt mine same = cc
        go main_turn mine same = cc
        go monitor_turn mine same =
            monitor_at-ne s.threads.monitor s.threads off made unfinished
              (ap (λ t. t.monitor) (ap (λ a. Client.step a s.threads) (sym loads) ∙ same))
        go (worker_turn i t) mine same = cc

    running-CanGoOn : s.threads.stop ≡ false → CanGoOn s
    unfolding Waits Client.main_at
    running-CanGoOn off = go s.threads.main refl
      where
        beside : (m : Main) → s.threads.main ≡ m → Beside m s.threads.monitor s.threads.stop
        beside m p = subst (λ m. Beside m s.threads.monitor s.threads.stop) p w.0.threads.beside

        go : (m : Main) → s.threads.main ≡ m → CanGoOn s
        go (making i) p = main_moves (making i) p (ground arith)
        go polling p = monitor_moves off (beside polling p)
        go (stopping i) p = absurd (let on = (beside (stopping i) p).1 in cc)
        go (joining i) p = absurd (let on = (beside (joining i) p).1 in cc)
        go returned p = absurd (let on = (beside returned p).1 in cc)

  pub quiet-laws : Laws (program react connections) Waits (λ s. IsOver s.threads) (IsThread 10)
  unfolding program Waits CanGoOn step
  quiet-laws = record {
    keeps = Waits-step;
    moves = Waits-move;
    goes_on = λ s w. elim (Bool-cases s.threads.stop) [
      | inl on ↦ stopped-CanGoOn s w on
      | inr off ↦ running-CanGoOn s w off
    ];
    stays_done = λ a s w over.
        Inv-IsOver (threads-Inv (action_of connections a s) w.0.threads).0
          (step-returned (action_of connections a s) s.threads over.main);
  }
