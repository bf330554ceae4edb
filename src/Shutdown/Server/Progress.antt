-- ===== src/Shutdown/Server/Progress.antt =====
-- asio/echo/server.cc: once the io_context is stopped, some thread can go on until `main` is over.
use mathlib.Core.Path.{subst}
use mathlib.Core.Option.{some-injective}
use snippets_cc.Prelude.{
  ℕ, ◌<◌, ◌≡◌, ◌≢◌, ◌⊎◌, refl, sym, ap, ◌∙◌, Bool, true, false, inl, inr, Option-cases, Bool-cases,
  some, get_elem?, get_elem?-some, get_elem?-set_self, ◌==◌, ==_iff, arith,
}
use snippets_cc.Shutdown.Server.{
  Worker, Main, making, running, joining, returned, caught, terminated, System, Turn, Action,
  main_turn, worker_turn, is_joinable, worker_at, is_finished, unwind, main_at, step,
}
use snippets_cc.Shutdown.Server.Places.{Placed, Inv, worker_left, left, worker_at-ends}
use snippets_cc.Shutdown.Server.Steps.{step-Fine}

-- The threads of the program.
pub data Thread : Type 0 where
  main_thread : Thread
  pool_thread : ℕ → Thread

abbrev pub is_of : Thread → Action → Bool
is_of main_thread (main_turn t) = true
is_of (pool_thread i) (worker_turn j t) = i == j
is_of _ _ = false

abbrev pub IsThread : ℕ → Thread → Type 0
IsThread n main_thread = Unit {0}
IsThread n (pool_thread i) = i < n

-- `main` has come to an end.
abbrev pub is_over : Main → Bool
is_over (making i) = false
is_over running = false
is_over (joining i) = false
is_over _ = true

-- With the io_context stopped, either `main` is over, or some thread's next turn leaves less to do.
abbrev pub CanGoOn : ℕ → System → Type 0
CanGoOn n s =
    (is_over s.main ≡ true)
    ⊎ ((t : Thread) × IsThread n t × ((a : Action) → is_of t a ≡ true → left (step a s) < left s))

module _ {n : ℕ} {s : System} (v : Inv n s) (on : s.is_stopped ≡ true) where
  main_moves : (m : Main) → s.main ≡ m → ((t : Turn) → (main_at m t s).main ≢ m) → CanGoOn n s
  unfolding step
  main_moves m p ne = inr (main_thread, tt, go)
    where
      go : (a : Action) → is_of main_thread a ≡ true → left (step a s) < left s
      go (main_turn t) mine = elim ((step-Fine (main_turn t) v).nearer on) [
        | inl same ↦
            absurd (ne t (ap (λ k. (main_at k t s).main) (sym p) ∙ ap (λ u. u.main) same ∙ p))
        | inr less ↦ less
      ]
      go (worker_turn i t) mine = cc

  worker_moves :
      (i : ℕ) (w : Worker)
      → get_elem? s.threads i ≡ some w
      → is_joinable w ≡ true
      → is_finished w ≡ false
      → CanGoOn n s
  unfolding step
  worker_moves i w at_i made unfinished =
      inr (pool_thread i, omega (arith, get_elem?-some s.threads i w at_i, v.count), go)
    where
      go : (a : Action) → is_of (pool_thread i) a ≡ true → left (step a s) < left s
      go (main_turn t) mine = cc
      go (worker_turn j t) mine =
          let at_j : get_elem? s.threads j ≡ some w =
            ap (get_elem? s.threads) (sym ((==_iff i j).0 mine)) ∙ at_i in
          elim ((step-Fine (worker_turn j t) v).nearer on) [
            | inl same ↦
                let same' = (rw (at_j, step) at same) in
                let now : some (worker_at w s.is_stopped t) ≡ some w =
                  sym (
                    get_elem?-set_self s.threads j (worker_at w s.is_stopped t)
                      (get_elem?-some s.threads j w at_j))
                  ∙ ap (λ u. get_elem? u.threads j) same'
                  ∙ at_j in
                let stuck : worker_at w true t ≡ w =
                  ap (λ b. worker_at w b t) (sym on) ∙ some-injective _ _ now in
                absurd (omega (arith, worker_at-ends w t made unfinished, ap worker_left stuck))
            | inr less ↦ less
          ]

  joining-CanGoOn : (i : ℕ) → s.main ≡ joining i → CanGoOn n s
  unfolding main_at
  joining-CanGoOn i p =
      let placed =
        subst (λ m. (j : ℕ) (w : Worker) → get_elem? s.threads j ≡ some w → Placed m j w) p
          v.threads in
      elim (Option-cases (get_elem? s.threads i)) [
        | inl no_i ↦ main_moves (joining i) p (λ t. ground (arith, no_i))
        | inr (w, at_i) ↦ elim (Bool-cases (is_finished w)) [
          | inl over ↦ main_moves (joining i) p (λ t. ground (arith, at_i, over))
          | inr unfinished ↦ worker_moves i w at_i (placed i w at_i).0 unfinished
        ]
      ]

  making_moves : (i : ℕ) (t : Turn) → (main_at (making i) t s).main ≢ making i
  unfolding main_at unwind
  making_moves i Turn.handlers = ground arith
  making_moves i Turn.signal = ground arith
  making_moves i Turn.exception = ground arith

  running_moves : (t : Turn) → (main_at running t s).main ≢ running
  unfolding main_at
  running_moves Turn.handlers = ground arith
  running_moves Turn.signal = ground arith
  running_moves Turn.exception = ground arith

  pub goes_on : CanGoOn n s
  goes_on = go s.main refl
    where
      go : (m : Main) → s.main ≡ m → CanGoOn n s
      go (making i) p = main_moves (making i) p (making_moves i)
      go running p = main_moves running p running_moves
      go (joining i) p = joining-CanGoOn i p
      go returned p = inl (ap is_over p)
      go caught p = inl (ap is_over p)
      go terminated p = inl (ap is_over p)
