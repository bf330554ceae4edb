-- ===== src/Shutdown/Client/Places.antt =====
-- asio/echo/client.cc: where the threads are when `main` is at each of its places, and what is left to do.
use snippets_cc.Prelude.{
  ℕ, ◌+◌, ◌-◌, ◌≤◌, ◌<◌, ◌≡◌, ◌⊎◌, refl, ◌∙◌, Bool, true, false, some, inl, inr, length, get_elem?,
  total, arith,
}
use snippets_cc.Shutdown.Client.{
  Worker, Echo, Monitor, Main, making, polling, stopping, joining, returned, System, Turn,
  worker_at, worker_step, is_finished, monitor_is_finished,
}

abbrev pub is_made : Worker → Bool
is_made Worker.unmade = false
is_made _ = true

abbrev pub monitor_is_made : Monitor → Bool
monitor_is_made Monitor.unmade = false
monitor_is_made _ = true

-- Thread `j` and its context, when `main` is at the place.
abbrev pub Placed : Main → ℕ → Echo → Type 0
Placed (making i) j e = (j < i → is_made e.worker ≡ true) × (i ≤ j → is_made e.worker ≡ false)
Placed polling j e = is_made e.worker ≡ true
Placed (stopping i) j e = (is_made e.worker ≡ true) × (j < i → e.is_stopped ≡ true)
Placed (joining i) j e =
    (is_made e.worker ≡ true) × (e.is_stopped ≡ true) × (j < i → is_finished e.worker ≡ true)
Placed returned j e = (e.is_stopped ≡ true) × (is_finished e.worker ≡ true)

-- `monitor` and `stop`.
abbrev pub Beside : Main → Monitor → Bool → Type 0
Beside (making i) m stop = monitor_is_made m ≡ false
Beside polling m stop = monitor_is_made m ≡ true
Beside (stopping i) m stop = (monitor_is_made m ≡ true) × (stop ≡ true)
Beside (joining i) m stop = (monitor_is_made m ≡ true) × (stop ≡ true)
Beside returned m stop = (monitor_is_finished m ≡ true) × (stop ≡ true)

pub record Inv (n : ℕ) (s : System) : Type 0 where
  pub count : length s.echo ≡ n
  pub threads : (j : ℕ) (e : Echo) → get_elem? s.echo j ≡ some e → Placed s.main j e
  pub beside : Beside s.main s.monitor s.stop

abbrev pub worker_left : Worker → ℕ
worker_left Worker.unmade = 3
worker_left Worker.starting = 2
worker_left Worker.running = 1
worker_left Worker.finished = 0

abbrev pub monitor_left : Monitor → ℕ
monitor_left Monitor.unmade = 5
monitor_left Monitor.establishing = 4
monitor_left Monitor.established = 3
monitor_left Monitor.reporting = 2
monitor_left Monitor.stopping = 1
monitor_left Monitor.finished = 0

abbrev pub main_left : ℕ → Main → ℕ
main_left n (making i) = (n - i) + n + n + 5
main_left n polling = n + n + 4
main_left n (stopping i) = (n - i) + n + 3
main_left n (joining i) = (n - i) + 1
main_left n returned = 0

-- What is left to do in the ends of the threads, at most.
unfoldable pub left : System → ℕ
left s =
    main_left (length s.echo) s.main
    + total (λ e. worker_left e.worker) s.echo
    + monitor_left s.monitor

-- The state changes not at all, or less is left to do.
abbrev pub Nearer : System → System → Type 0
Nearer s t = (t ≡ s) ⊎ (left t < left s)

-- What a turn of a worker does to it, at its place and with its context as they are.
pub worker_at-kept :
    (w : Worker) (is_stopped : Bool) (t : Turn)
    → (is_made (worker_at w is_stopped t) ≡ is_made w)
      × (is_finished w ≡ true → is_finished (worker_at w is_stopped t) ≡ true)
      × ((worker_at w is_stopped t ≡ w) ⊎ (worker_left (worker_at w is_stopped t) < worker_left w))
unfolding worker_at
worker_at-kept Worker.unmade is_stopped t = (refl, λ h. cc, inl refl)
worker_at-kept Worker.starting is_stopped Turn.handlers = (refl, λ h. cc, inr (omega arith))
worker_at-kept Worker.starting is_stopped Turn.no_work = (refl, λ h. cc, inr (omega arith))
worker_at-kept Worker.starting is_stopped Turn.exception = (refl, λ h. cc, inr (omega arith))
worker_at-kept Worker.running true Turn.handlers = (refl, λ h. cc, inr (omega arith))
worker_at-kept Worker.running false Turn.handlers = (refl, λ h. cc, inl refl)
worker_at-kept Worker.running is_stopped Turn.no_work = (refl, λ h. cc, inr (omega arith))
worker_at-kept Worker.running is_stopped Turn.exception = (refl, λ h. cc, inr (omega arith))
worker_at-kept Worker.finished is_stopped t = (refl, λ h. refl, inl refl)

pub worker_step-Placed :
    (m : Main) (j : ℕ) (e : Echo) (t : Turn) → Placed m j e → Placed m j (worker_step t e)
unfolding worker_step
worker_step-Placed m j e t h =
    let (made, ends, _) = worker_at-kept e.worker e.is_stopped t in
    elim m as (λ m. Placed m j e → Placed m j (worker_step t e)) [
      | making i ↦ λ h. (λ p. made ∙ h.0 p, λ p. made ∙ h.1 p)
      | polling ↦ λ h. made ∙ h
      | stopping i ↦ λ h. (made ∙ h.0, h.1)
      | joining i ↦ λ h. (made ∙ h.0, h.1, λ p. ends (h.2 p))
      | returned ↦ λ h. (h.0, ends h.1)
    ]
      h
