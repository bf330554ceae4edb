-- ===== src/Shutdown/Client/Progress.antt =====
-- asio/echo/client.cc: once `stop` is set, some thread can go on until all is over.
use mathlib.Core.Path.{subst}
use snippets_cc.Prelude.{
  get_elem?-some, ℕ, ◌<◌, ◌≡◌, ◌≢◌, get_elem?-set_self, ◌⊎◌, refl, sym, ap, ◌∙◌, Bool, true, false,
  Bool-cases, Option-cases, some, inl, inr, get_elem?, ◌==◌, ==_iff, arith,
}
use mathlib.Core.Option.{some-injective}
use snippets_cc.Shutdown.Client.{
  Worker, Echo, Monitor, Main, making, polling, stopping, joining, returned, System, Turn, Action,
  interrupt, main_turn, monitor_turn, worker_turn, worker_at, worker_step, monitor_at, monitor_step,
  is_finished, monitor_is_finished, main_at, main_step, step,
}
use snippets_cc.Shutdown.Client.Places.{is_made, monitor_is_made, Placed, Beside, Inv, left}
use snippets_cc.Shutdown.Client.Steps.{step-Inv}

-- The threads of the program.
pub data Thread : Type 0 where
  main_thread monitor_thread : Thread
  echo_thread : ℕ → Thread

abbrev pub is_of : Thread → Action → Bool
is_of main_thread main_turn = true
is_of monitor_thread (monitor_turn all_completed none_connected) = true
is_of (echo_thread i) (worker_turn j t) = i == j
is_of _ _ = false

abbrev pub IsThread : ℕ → Thread → Type 0
IsThread n (echo_thread i) = i < n
IsThread n _ = Unit

-- The end: `main` has returned, each context is stopped, and each thread has come to its end.
pub record IsOver (s : System) : Type 0 where
  pub main : s.main ≡ returned
  pub monitor : monitor_is_finished s.monitor ≡ true
  pub threads :
      (j : ℕ) (e : Echo)
      → get_elem? s.echo j ≡ some e
      → (e.is_stopped ≡ true) × (is_finished e.worker ≡ true)

pub Inv-IsOver : {n : ℕ} {s : System} → Inv n s → s.main ≡ returned → IsOver s
Inv-IsOver {n} {s} v p =
    let beside = subst (λ m. Beside m s.monitor s.stop) p v.beside in
    record {
      main = p;
      monitor = beside.0;
      threads =
          subst (λ m. (j : ℕ) (e : Echo) → get_elem? s.echo j ≡ some e → Placed m j e) p v.threads;
    }

-- With `stop` set, `monitor` does not stay where it is, nor does a worker whose context is stopped.
monitor_at-ne :
    (m : Monitor) (b c : Bool) (s : System)
    → s.stop ≡ true
    → monitor_is_made m ≡ true
    → monitor_is_finished m ≡ false
    → (monitor_at m b c s).monitor ≢ m
unfolding monitor_at
monitor_at-ne Monitor.unmade b c s on made unfinished same = cc
monitor_at-ne Monitor.establishing b c s on made unfinished same = ground arith
monitor_at-ne Monitor.established b c s on made unfinished same = ground arith
monitor_at-ne Monitor.reporting b c s on made unfinished same = ground arith
monitor_at-ne Monitor.stopping b c s on made unfinished same = ground arith
monitor_at-ne Monitor.finished b c s on made unfinished same = cc

worker_at-ne :
    (w : Worker) (is_stopped : Bool) (t : Turn)
    → is_stopped ≡ true
    → is_made w ≡ true
    → is_finished w ≡ false
    → worker_at w is_stopped t ≢ w
unfolding worker_at
worker_at-ne Worker.unmade is_stopped t on made unfinished same = cc
worker_at-ne Worker.starting is_stopped Turn.handlers on made unfinished same = cc
worker_at-ne Worker.starting is_stopped Turn.no_work on made unfinished same = cc
worker_at-ne Worker.starting is_stopped Turn.exception on made unfinished same = cc
worker_at-ne Worker.running is_stopped Turn.handlers on made unfinished same = ground arith
worker_at-ne Worker.running is_stopped Turn.no_work on made unfinished same = cc
worker_at-ne Worker.running is_stopped Turn.exception on made unfinished same = cc
worker_at-ne Worker.finished is_stopped t on made unfinished same = cc

-- With `stop` set, either all is over, or some thread's next turn leaves less to do.
abbrev pub CanGoOn : ℕ → System → Type 0
CanGoOn n s =
    IsOver s
    ⊎ ((t : Thread) × IsThread n t × ((a : Action) → is_of t a ≡ true → left (step a s) < left s))

module _ {n : ℕ} {s : System} (v : Inv n s) (on : s.stop ≡ true) where
  -- A turn of a thread that does not leave the state as it is.
  moves_on :
      (t : Thread)
      → IsThread n t
      → ((a : Action) → is_of t a ≡ true → step a s ≡ s → ⊥)
      → CanGoOn n s
  moves_on t valid ne = inr (
    t,
    valid,
    λ a mine. elim ((step-Inv a v).2 on) [ inl same ↦ absurd (ne a mine same) | inr less ↦ less ],
  )

  main_moves : (m : Main) → s.main ≡ m → m ≢ (main_at m s).main → CanGoOn n s
  unfolding step main_step
  main_moves m p ne = moves_on main_thread tt go
    where
      go : (a : Action) → is_of main_thread a ≡ true → step a s ≡ s → ⊥
      go interrupt mine same = cc
      go main_turn mine same =
          ne (sym p ∙ ap (λ t. t.main) (sym same) ∙ ap (λ k. (main_at k s).main) p)
      go (monitor_turn b c) mine same = cc
      go (worker_turn i t) mine same = cc

  monitor_moves :
      monitor_is_made s.monitor ≡ true → monitor_is_finished s.monitor ≡ false → CanGoOn n s
  unfolding step monitor_step
  monitor_moves made unfinished = moves_on monitor_thread tt go
    where
      go : (a : Action) → is_of monitor_thread a ≡ true → step a s ≡ s → ⊥
      go interrupt mine same = cc
      go main_turn mine same = cc
      go (monitor_turn b c) mine same =
          monitor_at-ne s.monitor b c s on made unfinished (ap (λ t. t.monitor) same)
      go (worker_turn i t) mine same = cc

  worker_moves :
      (i : ℕ) (e : Echo)
      → get_elem? s.echo i ≡ some e
      → is_made e.worker ≡ true
      → e.is_stopped ≡ true
      → is_finished e.worker ≡ false
      → CanGoOn n s
  unfolding step worker_step
  worker_moves i e at_i made stopped unfinished =
      moves_on (echo_thread i) (omega (arith, get_elem?-some s.echo i e at_i, v.count)) go
    where
      go : (a : Action) → is_of (echo_thread i) a ≡ true → step a s ≡ s → ⊥
      go interrupt mine same = cc
      go main_turn mine same = cc
      go (monitor_turn b c) mine same = cc
      go (worker_turn j t) mine same =
          let at_j : get_elem? s.echo j ≡ some e =
            ap (get_elem? s.echo) (sym ((==_iff i j).0 mine)) ∙ at_i in
          let same' = (rw (at_j, step) at same) in
          let now : some (worker_step t e) ≡ some e =
            sym (get_elem?-set_self s.echo j (worker_step t e) (get_elem?-some s.echo j e at_j))
            ∙ ap (λ u. get_elem? u.echo j) same'
            ∙ at_j in
          worker_at-ne e.worker e.is_stopped t stopped made unfinished
            (ap (λ x. x.worker) (some-injective _ _ now))

  joining-CanGoOn : (i : ℕ) → s.main ≡ joining i → CanGoOn n s
  unfolding main_at
  joining-CanGoOn i p =
      let beside = subst (λ m. Beside m s.monitor s.stop) p v.beside in
      let placed =
        subst (λ m. (j : ℕ) (e : Echo) → get_elem? s.echo j ≡ some e → Placed m j e) p v.threads in
      elim (Option-cases (get_elem? s.echo i)) [
        | inl no_i ↦ elim (Bool-cases (monitor_is_finished s.monitor)) [
          | inl over ↦ main_moves (joining i) p (ground (arith, no_i, over))
          | inr unfinished ↦ monitor_moves beside.0 unfinished
        ]
        | inr (e, at_i) ↦ elim (Bool-cases (is_finished e.worker)) [
          | inl over ↦ main_moves (joining i) p (ground (arith, at_i, over))
          | inr unfinished ↦
              worker_moves i e at_i (placed i e at_i).0 (placed i e at_i).1 unfinished
        ]
      ]

  pub goes_on : CanGoOn n s
  unfolding main_at
  goes_on = go s.main refl
    where
      go : (m : Main) → s.main ≡ m → CanGoOn n s
      go (making i) p = main_moves (making i) p (ground arith)
      go polling p = main_moves polling p (ground arith)
      go (stopping i) p = main_moves (stopping i) p (ground arith)
      go (joining i) p = joining-CanGoOn i p
      go returned p = inl (Inv-IsOver v p)
