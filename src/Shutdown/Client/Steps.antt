-- ===== src/Shutdown/Client/Steps.antt =====
-- asio/echo/client.cc: each turn of a thread keeps the threads at their places.
use snippets_cc.Prelude.{
  set-same, set-pointwise, get_elem?-some, ℕ, ◌≤◌, ◌<◌, ◌≡◌, ◌⊎◌, refl, sym, ap, ◌∙◌, Bool, true,
  not, ◌&&◌, Option-cases, some, if◌then◌else◌, inl, inr, get_elem?, set, total-set, length-set,
  arith,
}
use snippets_cc.Shutdown.Client.{
  Echo, Monitor, Main, making, polling, stopping, joining, returned, System, Turn, Action,
  interrupt, main_turn, monitor_turn, worker_turn, worker_step, monitor_at, monitor_step,
  monitor_is_finished, main_at, main_step, step,
}
use snippets_cc.Shutdown.Client.Places.{
  monitor_is_made, Placed, Beside, Inv, worker_left, monitor_left, main_left, left, Nearer,
  worker_at-kept, worker_step-Placed,
}
use snippets_cc.Shutdown.Client.MainSteps.{
  Fine, stays, if-Fine, making-Fine, polling-Fine, stopping-Fine, joining-Fine,
}

module _ {n : ℕ} {s : System} (v : Inv n s) where
  main_step-Fine : Fine v (main_step s)
  unfolding main_step main_at
  main_step-Fine = go s.main refl
    where
      go : (m : Main) → s.main ≡ m → Fine v (main_at m s)
      go (making i) p = making-Fine v i p
      go polling p = polling-Fine v p
      go (stopping i) p = stopping-Fine v i p
      go (joining i) p = joining-Fine v i p
      go returned p = stays v

  -- `monitor` goes on, and may set `stop`.
  monitor-Fine :
      (m : Monitor) (stop : Bool)
      → monitor_is_made m ≡ monitor_is_made s.monitor
      → (monitor_is_finished s.monitor ≡ true → monitor_is_finished m ≡ true)
      → (s.stop ≡ true → stop ≡ true)
      → monitor_left m < monitor_left s.monitor
      → Fine v (record s { monitor = m; stop = stop })
  unfolding left
  monitor-Fine m stop made ends on lt = (
    record { count = v.count; threads = v.threads; beside = go s.main v.beside },
    inr (omega (arith, lt)),
  )
    where
      go : (k : Main) → Beside k s.monitor s.stop → Beside k m stop
      go (making i) h = made ∙ h
      go polling h = made ∙ h
      go (stopping i) h = (made ∙ h.0, on h.1)
      go (joining i) h = (made ∙ h.0, on h.1)
      go returned h = (ends h.0, on h.1)

  monitor_step-Fine :
      (all_completed none_connected : Bool) → Fine v (monitor_step all_completed none_connected s)
  unfolding monitor_step monitor_at
  monitor_step-Fine all_completed none_connected = go s.monitor refl
    where
      go : (m : Monitor) → s.monitor ≡ m → Fine v (monitor_at m all_completed none_connected s)
      go Monitor.unmade p = stays v
      go Monitor.establishing p =
          if-Fine v (not s.stop && not all_completed) s (record s { monitor = Monitor.established })
            (λ h. stays v)
            (λ h.
              monitor-Fine Monitor.established s.stop (cc) (λ f. cc) (λ on. on) (ground (arith, p)))
      go Monitor.established p =
          monitor-Fine (if s.stop then Monitor.finished else Monitor.reporting) s.stop
            (ground (arith, p)) (λ f. cc) (λ on. on) (ground (arith, p))
      go Monitor.reporting p =
          if-Fine v s.stop (record s { monitor = Monitor.finished })
            (if none_connected then record s { monitor = Monitor.stopping } else s)
            (λ h.
              monitor-Fine Monitor.finished s.stop (cc) (λ f. refl) (λ on. on) (ground (arith, p)))
            (λ h.
              if-Fine v none_connected (record s { monitor = Monitor.stopping }) s
                (λ k.
                  monitor-Fine Monitor.stopping s.stop (cc) (λ f. cc) (λ on. on)
                    (ground (arith, p)))
                (λ k. stays v))
      go Monitor.stopping p =
          monitor-Fine Monitor.finished true (cc) (λ f. refl) (λ on. refl) (ground (arith, p))
      go Monitor.finished p = stays v

  worker_turn-Fine :
      (i : ℕ) (e : Echo) (t : Turn)
      → get_elem? s.echo i ≡ some e
      → Fine v (record s { echo = set s.echo i (worker_step t e) })
  unfolding left worker_step
  worker_turn-Fine i e t at_i = (
    record {
      count = length-set s.echo i (worker_step t e) ∙ v.count;
      threads =
          set-pointwise (Placed s.main) (Placed s.main) s.echo i (worker_step t e)
            (get_elem?-some s.echo i e at_i) v.threads
            (worker_step-Placed s.main i e t (v.threads i e at_i)) (λ j x ne h. h);
      beside = v.beside;
    },
    elim (worker_at-kept e.worker e.is_stopped t).2 [
      | inl same ↦ inl (
          ap (λ es. record s { echo = es })
            (set-same s.echo i (worker_step t e)
              (at_i ∙ ap (λ w. some (record e { worker = w })) (sym same))))
      | inr less ↦ inr (
          omega (
            arith,
            ap (λ k. main_left k s.main) (length-set s.echo i (worker_step t e)),
            total-set (λ e. worker_left e.worker) s.echo i e (worker_step t e) at_i,
            less,
          ))
    ],
  )

Nearer-le : {s t : System} → Nearer s t → left t ≤ left s
Nearer-le (inl same) = rw same (omega arith)
Nearer-le (inr less) = omega arith

-- SIGINT leaves as much to do as there was.
interrupt-Inv : {n : ℕ} {s : System} → Inv n s → Inv n (record s { stop = true })
interrupt-Inv {n} {s} v = record {
  count = v.count;
  threads = v.threads;
  beside = go s.main v.beside;
}
  where
    go : (k : Main) → Beside k s.monitor s.stop → Beside k s.monitor true
    go (making i) h = h
    go polling h = h
    go (stopping i) h = (h.0, refl)
    go (joining i) h = (h.0, refl)
    go returned h = (h.0, refl)

-- Every action keeps the invariant and leaves at most as much to do; and once `stop` is set, an action changes nothing
-- or leaves less to do.
pub step-Inv :
    {n : ℕ} {s : System} (a : Action)
    → Inv n s
    → Inv n (step a s) × (left (step a s) ≤ left s) × (s.stop ≡ true → Nearer s (step a s))
unfolding step left
step-Inv {n} {s} interrupt v =
    (interrupt-Inv v, omega arith, λ on. inl (ap (λ b. record s { stop = b }) (sym on)))
step-Inv main_turn v = let f = main_step-Fine v in (f.0, Nearer-le f.1, λ on. f.1)
step-Inv (monitor_turn all_completed none_connected) v =
    let f = monitor_step-Fine v all_completed none_connected in (f.0, Nearer-le f.1, λ on. f.1)
step-Inv {n} {s} (worker_turn i t) v = elim (Option-cases (get_elem? s.echo i)) [
  | inl no_i ↦ rw (no_i, step) (v, omega arith, λ on. inl refl)
  | inr (e, at_i) ↦
      rw (at_i, step) (let f = worker_turn-Fine v i e t at_i in (f.0, Nearer-le f.1, λ on. f.1))
]

-- Every other action changes nothing or leaves less to do, whether `stop` is set or not.
pub step-Nearer :
    {n : ℕ} {s : System} (a : Action) → Inv n s → (a ≡ interrupt) ⊎ Nearer s (step a s)
unfolding step
step-Nearer interrupt v = inl refl
step-Nearer main_turn v = inr (main_step-Fine v).1
step-Nearer (monitor_turn all_completed none_connected) v =
    inr (monitor_step-Fine v all_completed none_connected).1
step-Nearer {n} {s} (worker_turn i t) v = elim (Option-cases (get_elem? s.echo i)) [
  | inl no_i ↦ rw (no_i, step) (inr (inl refl))
  | inr (e, at_i) ↦ rw (at_i, step) (inr (worker_turn-Fine v i e t at_i).1)
]
