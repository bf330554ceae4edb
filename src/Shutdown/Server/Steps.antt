-- ===== src/Shutdown/Server/Steps.antt =====
-- asio/echo/server.cc and asio/echo/co_server.cc: each turn of a thread keeps the threads at their places.
use mathlib.Core.Path.{subst}
use mathlib.Core.Option.{some-injective}
use snippets_cc.Prelude.{
  ℕ, suc, ◌+◌, ◌≤◌, ◌<◌, ◌≡◌, ◌⊎◌, refl, sym, ap, ◌∙◌, Bool, true, false, if◌then◌else◌, inl, inr,
  Option-cases, Bool-cases, none, some, length, get_elem?, set, total, total-set, length-set,
  get_elem?-some, get_elem?-none, set-pointwise, set-same, ◌==◌, ==_iff, arith,
}
use snippets_cc.Shutdown.Server.{
  Worker, Main, making, running, joining, returned, caught, terminated, System, Turn, Action,
  main_turn, worker_turn, any_joinable, worker_at, is_running, is_finished, stopped_by, unwind,
  main_at, step,
}
use snippets_cc.Shutdown.Server.Places.{
  Placed, Beside, Inv, worker_left, main_left, left, worker_at-kept, worker_at-Placed,
  any_joinable-false,
}

-- A state after `s` that keeps the invariant and the stop, and has no more left to do; with the io_context stopped, it is
-- `s` or has less left to do.
pub record Fine (n : ℕ) (s t : System) : Type 0 where
  pub inv : Inv n t
  pub le : left t ≤ left s
  pub nearer : s.is_stopped ≡ true → (t ≡ s) ⊎ (left t < left s)
  pub stop : s.is_stopped ≡ true → t.is_stopped ≡ true

module _ {n : ℕ} {s : System} (v : Inv n s) where
  stays : Fine n s s
  stays = record { inv = v; le = omega arith; nearer = λ h. inl refl; stop = λ h. h }

  ahead : {t : System} → Inv n t → t.is_stopped ≡ s.is_stopped → left t < left s → Fine n s t
  ahead w same lt = record { inv = w; le = omega arith; nearer = λ h. inr lt; stop = λ h. same ∙ h }

  if-Fine :
      (b : Bool) (t u : System)
      → (b ≡ true → Fine n s t)
      → (b ≡ false → Fine n s u)
      → Fine n s (if b then t else u)
  if-Fine true t u f g = f refl
  if-Fine false t u f g = g refl

  left_at : (m : Main) → s.main ≡ m → left s ≡ main_left n m + total worker_left s.threads
  unfolding left
  left_at m p = rw (p, v.count) refl

  threads_at :
      (m : Main) → s.main ≡ m → (j : ℕ) (w : Worker) → get_elem? s.threads j ≡ some w → Placed m j w
  threads_at m p =
      subst (λ k. (j : ℕ) (w : Worker) → get_elem? s.threads j ≡ some w → Placed k j w) p v.threads

  Beside-at : (m : Main) → s.main ≡ m → Beside m s.is_stopped
  Beside-at m p = subst (λ k. Beside k s.is_stopped) p v.beside

  -- `main` goes on.
  main-Fine :
      (m m' : Main)
      → s.main ≡ m
      → ((j : ℕ) (w : Worker) → get_elem? s.threads j ≡ some w → Placed m' j w)
      → Beside m' s.is_stopped
      → main_left n m' < main_left n m
      → Fine n s (record s { main = m' })
  unfolding left
  main-Fine m m' p threads beside lt =
      ahead (record { count = v.count; threads = threads; beside = beside }) refl
        (omega (arith, ap (λ k. main_left k m') v.count, left_at m p, lt))

  inside_lt :
      (i j : ℕ) (w : Worker) → get_elem? s.threads i ≡ none → get_elem? s.threads j ≡ some w → j < i
  inside_lt i j w no_i at_j =
      omega (arith, get_elem?-none s.threads i no_i, get_elem?-some s.threads j w at_j)

  -- An exception in `main`.
  unwind-Fine : (m : Main) → s.main ≡ m → 0 < main_left n m → Fine n s (unwind s)
  unfolding unwind left
  unwind-Fine m p lt = elim (Bool-cases (any_joinable s.threads)) [
    | inl some_left ↦ rw some_left (main-Fine m terminated p (λ j w h. tt) tt lt)
    | inr none_left ↦
        rw none_left (main-Fine m caught p (any_joinable-false s.threads none_left) tt lt)
  ]

  -- `main` makes thread `i`, or has made all.
  make-Fine :
      (i : ℕ)
      → s.main ≡ making i
      → Fine n s (elim (get_elem? s.threads i) [
        | none ↦ record s { main = running }
        | some w ↦ record s { main = making (suc i); threads = set s.threads i Worker.running }
      ])
  unfolding left
  make-Fine i p = elim (Option-cases (get_elem? s.threads i)) [
    | inl no_i ↦ rw no_i (
        main-Fine (making i) running p
          (λ j w at_j. (threads_at (making i) p j w at_j).0 (inside_lt i j w no_i at_j)) tt
          (omega arith))
    | inr (x, at_i) ↦
        let inside = get_elem?-some s.threads i x at_i in
        let unmade = (threads_at (making i) p i x at_i).1 (omega arith) in
        rw at_i (
          ahead
            (record {
              count = length-set s.threads i Worker.running ∙ v.count;
              threads =
                  set-pointwise (Placed (making i)) (Placed (making (suc i))) s.threads i
                    Worker.running inside (threads_at (making i) p)
                    (λ h. refl, λ h. absurd (omega (arith, h)))
                    (λ j w ne h. (λ lt. h.0 (ground (arith, lt)), λ le. h.1 (omega (arith, le))));
              beside = tt;
            })
            refl
            (ground (
              arith,
              v.count,
              inside,
              length-set s.threads i Worker.running,
              unmade,
              left_at (making i) p,
              total-set worker_left s.threads i x Worker.running at_i,
            )))
  ]

  -- `io_context.run ()` of `main` returns.
  return-Fine : s.main ≡ running → s.is_stopped ≡ true → Fine n s (record s { main = joining 0 })
  return-Fine p on =
      main-Fine running (joining 0) p
        (λ j w at_j. (threads_at running p j w at_j, λ lt. absurd (omega (arith, lt)))) on
        (omega arith)

  Beside-stop : (m : Main) (is_stopped : Bool) → Beside m is_stopped → Beside m true
  Beside-stop (making i) is_stopped h = tt
  Beside-stop running is_stopped h = tt
  Beside-stop (joining i) is_stopped h = refl
  Beside-stop returned is_stopped h = refl
  Beside-stop caught is_stopped h = tt
  Beside-stop terminated is_stopped h = tt

  signal-Fine : s.is_stopped ≡ false → Fine n s (record s { is_stopped = true })
  unfolding left
  signal-Fine off = record {
    inv = record {
      count = v.count;
      threads = v.threads;
      beside = Beside-stop s.main s.is_stopped v.beside;
    };
    le = omega arith;
    nearer = λ on. cc;
    stop = λ on. refl;
  }

  join-Fine :
      (i : ℕ)
      → s.main ≡ joining i
      → Fine n s (elim (get_elem? s.threads i) [
        | none ↦ record s { main = returned }
        | some w ↦ if is_finished w then record s { main = joining (suc i) } else s
      ])
  join-Fine i p = elim (Option-cases (get_elem? s.threads i)) [
    | inl no_i ↦ rw no_i (
        main-Fine (joining i) returned p
          (λ j w at_j. (threads_at (joining i) p j w at_j).1 (inside_lt i j w no_i at_j))
          (Beside-at (joining i) p) (omega arith))
    | inr (x, at_i) ↦ rw at_i (
        if-Fine (is_finished x) (record s { main = joining (suc i) }) s
          (λ over.
            main-Fine (joining i) (joining (suc i)) p (joined i x p at_i over)
              (Beside-at (joining i) p)
              (let inside = get_elem?-some s.threads i x at_i in omega (arith, inside, v.count)))
          (λ on. stays))
  ]
    where
      joined :
          (i : ℕ) (x : Worker)
          → s.main ≡ joining i
          → get_elem? s.threads i ≡ some x
          → is_finished x ≡ true
          → (j : ℕ) (w : Worker) → get_elem? s.threads j ≡ some w
          → Placed (joining (suc i)) j w
      joined i x p at_i over j w at_j =
          let h = threads_at (joining i) p j w at_j in
          (
            h.0,
            λ lt. elim (Bool-cases (i == j)) [
              | inl same ↦
                  let xw : x ≡ w =
                    some-injective _ _
                      (sym at_i ∙ ap (get_elem? s.threads) ((==_iff i j).0 same) ∙ at_j) in
                  subst (λ y. is_finished y ≡ true) xw over
              | inr other ↦ h.1 (ground (arith, other, lt))
            ],
          )

  main_at-Fine : (m : Main) (t : Turn) → s.main ≡ m → Fine n s (main_at m t s)
  unfolding main_at
  main_at-Fine (making i) Turn.handlers p = make-Fine i p
  main_at-Fine (making i) Turn.signal p = make-Fine i p
  main_at-Fine (making i) Turn.exception p = unwind-Fine (making i) p (omega arith)
  main_at-Fine running Turn.handlers p =
      if-Fine s.is_stopped (record s { main = joining 0 }) s (return-Fine p) (λ off. stays)
  main_at-Fine running Turn.signal p =
      if-Fine s.is_stopped (record s { main = joining 0 }) (record s { is_stopped = true })
        (return-Fine p) signal-Fine
  main_at-Fine running Turn.exception p =
      if-Fine s.is_stopped (record s { main = joining 0 }) (unwind s) (return-Fine p)
        (λ off. unwind-Fine running p (omega arith))
  main_at-Fine (joining i) t p = join-Fine i p
  main_at-Fine returned t p = stays
  main_at-Fine caught t p = stays
  main_at-Fine terminated t p = stays

  stop_kept :
      (w : Worker) (t : Turn) (b : Bool)
      → b ≡ true
      → (if is_running w then stopped_by t b else b) ≡ true
  stop_kept w t b on = ground arith

  Beside-turn :
      (m : Main) (w : Worker) (t : Turn) (b : Bool)
      → Beside m b
      → Beside m (if is_running w then stopped_by t b else b)
  Beside-turn m Worker.unmade t b h = h
  Beside-turn m Worker.running Turn.handlers b h = h
  Beside-turn m Worker.running Turn.signal b h = Beside-stop m b h
  Beside-turn m Worker.running Turn.exception b h = h
  Beside-turn m Worker.finished t b h = h

  worker_turn-Fine :
      (i : ℕ) (w : Worker) (t : Turn)
      → get_elem? s.threads i ≡ some w
      → Fine n s (record s {
        threads = set s.threads i (worker_at w s.is_stopped t);
        is_stopped = if is_running w then stopped_by t s.is_stopped else s.is_stopped;
      })
  unfolding left
  worker_turn-Fine i w t at_i = record {
    inv = record {
      count = length-set s.threads i w' ∙ v.count;
      threads =
          set-pointwise (Placed s.main) (Placed s.main) s.threads i w'
            (get_elem?-some s.threads i w at_i) v.threads
            (worker_at-Placed s.main i w s.is_stopped t (v.threads i w at_i)) (λ j x ne h. h);
      beside = Beside-turn s.main w t s.is_stopped v.beside;
    };
    le = elim (worker_at-kept w s.is_stopped t).2 [
      | inl same ↦ omega (arith, counted, total_w, ap worker_left same)
      | inr less ↦ omega (arith, counted, total_w, less)
    ];
    nearer = λ on. elim (worker_at-kept w s.is_stopped t).2 [
      | inl same ↦
          let threads = set-same s.threads i w' (at_i ∙ ap some (sym same)) in
          let stop = stop_kept w t s.is_stopped on ∙ sym on in
          inl (λ k. record s { threads = threads k; is_stopped = stop k })
      | inr less ↦ inr (omega (arith, counted, total_w, less))
    ];
    stop = stop_kept w t s.is_stopped;
  }
    where
      w' : Worker
      w' = worker_at w s.is_stopped t

      counted : main_left (length (set s.threads i w')) s.main ≡ main_left (length s.threads) s.main
      counted = ap (λ k. main_left k s.main) (length-set s.threads i w')

      total_w :
          total worker_left (set s.threads i w') + worker_left w
          ≡ total worker_left s.threads + worker_left w'
      total_w = total-set worker_left s.threads i w w' at_i

pub step-Fine : {n : ℕ} {s : System} (a : Action) → Inv n s → Fine n s (step a s)
unfolding step
step-Fine {n} {s} (main_turn t) v = main_at-Fine v s.main t refl
step-Fine {n} {s} (worker_turn i t) v = elim (Option-cases (get_elem? s.threads i)) [
  | inl no_i ↦ rw (no_i, step) (stays v)
  | inr (w, at_i) ↦ rw (at_i, step) (worker_turn-Fine v i w t at_i)
]
