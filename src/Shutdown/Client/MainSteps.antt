-- ===== src/Shutdown/Client/MainSteps.antt =====
-- asio/echo/client.cc: each turn of `main` keeps the threads at their places.
use mathlib.Core.Path.{subst}
use snippets_cc.Prelude.{
  set-pointwise, get_elem?-none, get_elem?-some, ℕ, suc, ◌+◌, ◌≤◌, ◌<◌, ◌≡◌, ◌≢◌, refl, sym, ap,
  ◌∙◌, Bool, true, false, Bool-cases, Option-cases, none, some, if◌then◌else◌, inl, inr, get_elem?,
  set, total, total-set, length-set, ◌==◌, ==_iff, arith,
}
use mathlib.Core.Option.{some-injective}
use snippets_cc.Shutdown.Client.{
  Echo, Main, making, polling, stopping, joining, returned, System, stop_context, make_thread,
  is_finished, monitor_is_finished, main_at,
}
use snippets_cc.Shutdown.Client.Places.{
  Placed, Beside, Inv, worker_left, monitor_left, main_left, left, Nearer,
}

module _ {n : ℕ} {s : System} (v : Inv n s) where
  -- A state that keeps the invariant, and is the same or nearer to the end.
  abbrev pub Fine : System → Type 0
  Fine t = Inv n t × Nearer s t

  pub stays : Fine s
  stays = (v, inl refl)

  pub if-Fine :
      (b : Bool) (t u : System)
      → (b ≡ true → Fine t)
      → (b ≡ false → Fine u)
      → Fine (if b then t else u)
  if-Fine true t u f g = f refl
  if-Fine false t u f g = g refl

  left_at :
      (m : Main)
      → s.main ≡ m
      → left s ≡ main_left n m + total (λ e. worker_left e.worker) s.echo + monitor_left s.monitor
  unfolding left
  left_at m p = rw (p, v.count) refl

  threads_at :
      (m : Main) → s.main ≡ m → (j : ℕ) (e : Echo) → get_elem? s.echo j ≡ some e → Placed m j e
  threads_at m p =
      subst (λ k. (j : ℕ) (e : Echo) → get_elem? s.echo j ≡ some e → Placed k j e) p v.threads

  Beside-at : (m : Main) → s.main ≡ m → Beside m s.monitor s.stop
  Beside-at m p = subst (λ k. Beside k s.monitor s.stop) p v.beside

  -- `main` writes the context of thread `i`, or its thread, and goes on.
  write-Fine :
      (m m' : Main) (i : ℕ) (a b : Echo)
      → s.main ≡ m
      → get_elem? s.echo i ≡ some a
      → Placed m' i b
      → ((j : ℕ) (e : Echo) → i ≢ j → Placed m j e → Placed m' j e)
      → Beside m' s.monitor s.stop
      → worker_left b.worker ≤ worker_left a.worker
      → (i < n → main_left n m' < main_left n m)
      → Fine (record s { main = m'; echo = set s.echo i b })
  unfolding left
  write-Fine m m' i a b p at_i placed others beside le lt =
      let inside = get_elem?-some s.echo i a at_i in
      let shorter = lt (omega (arith, inside, v.count)) in
      (
        record {
          count = length-set s.echo i b ∙ v.count;
          threads =
              set-pointwise (Placed m) (Placed m') s.echo i b inside (threads_at m p) placed others;
          beside = beside;
        },
        inr (
            omega (
              arith,
              ap (λ k. main_left k m') (length-set s.echo i b ∙ v.count),
              left_at m p,
              total-set (λ e. worker_left e.worker) s.echo i a b at_i,
              le,
              shorter,
            )),
      )

  -- `main` goes on and writes no list.
  main-Fine :
      (m m' : Main)
      → s.main ≡ m
      → ((j : ℕ) (e : Echo) → get_elem? s.echo j ≡ some e → Placed m' j e)
      → Beside m' s.monitor s.stop
      → main_left n m' < main_left n m
      → Fine (record s { main = m' })
  unfolding left
  main-Fine m m' p threads beside lt = (
    record { count = v.count; threads = threads; beside = beside },
    inr (omega (arith, ap (λ k. main_left k m') v.count, left_at m p, lt)),
  )

  outside-lt :
      (i : ℕ) → get_elem? s.echo i ≡ none → (j : ℕ) (e : Echo) → get_elem? s.echo j ≡ some e → j < i
  outside-lt i no_i j e at_j =
      omega (arith, get_elem?-none s.echo i no_i, get_elem?-some s.echo j e at_j)

  pub making-Fine : (i : ℕ) → s.main ≡ making i → Fine (main_at (making i) s)
  unfolding main_at left
  making-Fine i p = elim (Option-cases (get_elem? s.echo i)) [
    | inl no_i ↦
        rw (no_i, main_at)
          (
            record {
              count = v.count;
              threads =
                  λ j e at_j. (threads_at (making i) p j e at_j).0 (outside-lt i no_i j e at_j);
              beside = refl;
            },
            inr (ground (arith, v.count, left_at (making i) p, Beside-at (making i) p)),
          )
    | inr (x, at_i) ↦
        let unmade = (threads_at (making i) p i x at_i).1 (omega arith) in
        rw (at_i, main_at)
          (write-Fine (making i) (making (suc i)) i x (make_thread x) p at_i
            (λ h. refl, λ h. absurd (omega (arith, h)))
            (λ j e ne h. (λ lt. h.0 (ground (arith, lt)), λ le. h.1 (omega (arith, le))))
            (Beside-at (making i) p) (ground (arith, unmade)) (λ lt. omega (arith, lt)))
  ]

  pub polling-Fine : s.main ≡ polling → Fine (main_at polling s)
  unfolding main_at
  polling-Fine p =
      if-Fine s.stop (record s { main = stopping 0 }) s
        (λ on.
          main-Fine polling (stopping 0) p
            (λ j e at_j. (threads_at polling p j e at_j, λ h. absurd (omega (arith, h))))
            (Beside-at polling p, on) (omega arith))
        (λ off. stays)

  pub stopping-Fine : (i : ℕ) → s.main ≡ stopping i → Fine (main_at (stopping i) s)
  unfolding main_at
  stopping-Fine i p = elim (Option-cases (get_elem? s.echo i)) [
    | inl no_i ↦
        rw (no_i, main_at)
          (main-Fine (stopping i) (joining 0) p
            (λ j e at_j.
              let h = threads_at (stopping i) p j e at_j in
              (h.0, h.1 (outside-lt i no_i j e at_j), λ lt. absurd (omega (arith, lt))))
            (Beside-at (stopping i) p) (omega arith))
    | inr (x, at_i) ↦
        rw (at_i, main_at)
          (write-Fine (stopping i) (stopping (suc i)) i x (stop_context x) p at_i
            ((threads_at (stopping i) p i x at_i).0, λ h. refl)
            (λ j e ne h. (h.0, λ lt. h.1 (ground (arith, lt)))) (Beside-at (stopping i) p)
            (omega arith) (λ lt. omega (arith, lt)))
  ]

  pub joining-Fine : (i : ℕ) → s.main ≡ joining i → Fine (main_at (joining i) s)
  unfolding main_at
  joining-Fine i p = elim (Option-cases (get_elem? s.echo i)) [
    | inl no_i ↦
        rw (no_i, main_at)
          (if-Fine (monitor_is_finished s.monitor) (record s { main = returned }) s
            (λ over.
              main-Fine (joining i) returned p
                (λ j e at_j.
                  let h = threads_at (joining i) p j e at_j in
                  (h.1, h.2 (outside-lt i no_i j e at_j)))
                (over, (Beside-at (joining i) p).1) (omega arith))
            (λ on. stays))
    | inr (x, at_i) ↦
        rw (at_i, main_at)
          (if-Fine (is_finished x.worker) (record s { main = joining (suc i) }) s
            (λ over.
              main-Fine (joining i) (joining (suc i)) p
                (λ j e at_j.
                  let h = threads_at (joining i) p j e at_j in
                  (
                    h.0,
                    h.1,
                    λ lt. elim (Bool-cases (i == j)) [
                      | inl same ↦
                          let ex : x ≡ e =
                            some-injective _ _
                              (sym at_i ∙ ap (get_elem? s.echo) ((==_iff i j).0 same) ∙ at_j) in
                          subst (λ y. is_finished y.worker ≡ true) ex over
                      | inr other ↦ h.2 (ground (arith, other, lt))
                    ],
                  ))
                (Beside-at (joining i) p)
                (let inside = get_elem?-some s.echo i x at_i in omega (arith, inside, v.count)))
            (λ on. stays))
  ]
