-- ===== src/Shutdown/Server/Places.antt =====
-- asio/echo/server.cc and asio/echo/co_server.cc: where the threads are when `main` is at each of its places, and what
-- is left to do.
use snippets_cc.Prelude.{
  ℕ, suc, ◌+◌, ◌-◌, ◌≤◌, ◌<◌, ◌≡◌, ◌⊎◌, refl, ◌∙◌, Bool, true, false, some, inl, inr, List, [], ◌∷◌,
  length, get_elem?, zero, total, none≢some, arith,
}
use snippets_cc.Shutdown.Server.{
  Worker, Main, making, running, joining, returned, caught, terminated, System, Turn, is_joinable,
  any_joinable, worker_at, is_finished,
}

-- Thread `j`, when `main` is at the place.
abbrev pub Placed : Main → ℕ → Worker → Type 0
Placed (making i) j w = (j < i → is_joinable w ≡ true) × (i ≤ j → is_joinable w ≡ false)
Placed running j w = is_joinable w ≡ true
Placed (joining i) j w = (is_joinable w ≡ true) × (j < i → is_finished w ≡ true)
Placed returned j w = is_finished w ≡ true
Placed caught j w = is_joinable w ≡ false
Placed terminated j w = Unit {0}

abbrev pub Beside : Main → Bool → Type 0
Beside (joining i) is_stopped = is_stopped ≡ true
Beside returned is_stopped = is_stopped ≡ true
Beside _ is_stopped = Unit {0}

pub record Inv (n : ℕ) (s : System) : Type 0 where
  pub count : length s.threads ≡ n
  pub threads : (j : ℕ) (w : Worker) → get_elem? s.threads j ≡ some w → Placed s.main j w
  pub beside : Beside s.main s.is_stopped

abbrev pub worker_left : Worker → ℕ
worker_left Worker.unmade = 2
worker_left Worker.running = 1
worker_left Worker.finished = 0

abbrev pub main_left : ℕ → Main → ℕ
main_left n (making i) = (n - i) + n + 5
main_left n running = n + 4
main_left n (joining i) = (n - i) + 1
main_left n _ = 0

-- What is left to do in the ends of the threads, at most.
unfoldable pub left : System → ℕ
left s = main_left (length s.threads) s.main + total worker_left s.threads

-- What a turn of a worker does to it.
pub worker_at-kept :
    (w : Worker) (is_stopped : Bool) (t : Turn)
    → (is_joinable (worker_at w is_stopped t) ≡ is_joinable w)
      × (is_finished w ≡ true → is_finished (worker_at w is_stopped t) ≡ true)
      × ((worker_at w is_stopped t ≡ w) ⊎ (worker_left (worker_at w is_stopped t) < worker_left w))
unfolding worker_at
worker_at-kept Worker.unmade is_stopped t = (refl, λ h. cc, inl refl)
worker_at-kept Worker.running true Turn.handlers = (refl, λ h. cc, inr (omega arith))
worker_at-kept Worker.running false Turn.handlers = (refl, λ h. cc, inl refl)
worker_at-kept Worker.running true Turn.signal = (refl, λ h. cc, inr (omega arith))
worker_at-kept Worker.running false Turn.signal = (refl, λ h. cc, inl refl)
worker_at-kept Worker.running is_stopped Turn.exception = (refl, λ h. cc, inr (omega arith))
worker_at-kept Worker.finished is_stopped t = (refl, λ h. refl, inl refl)

pub worker_at-Placed :
    (m : Main) (j : ℕ) (w : Worker) (is_stopped : Bool) (t : Turn)
    → Placed m j w
    → Placed m j (worker_at w is_stopped t)
worker_at-Placed m j w is_stopped t h =
    let (made, ends, _) = worker_at-kept w is_stopped t in
    elim m as (λ m. Placed m j w → Placed m j (worker_at w is_stopped t)) [
      | making i ↦ λ h. (λ p. made ∙ h.0 p, λ p. made ∙ h.1 p)
      | running ↦ λ h. made ∙ h
      | joining i ↦ λ h. (made ∙ h.0, λ p. ends (h.1 p))
      | returned ↦ λ h. ends h
      | caught ↦ λ h. made ∙ h
      | terminated ↦ λ h. tt
    ]
      h

-- With the io_context stopped, a thread that runs it ends.
pub worker_at-ends :
    (w : Worker) (t : Turn)
    → is_joinable w ≡ true
    → is_finished w ≡ false
    → worker_left (worker_at w true t) < worker_left w
unfolding worker_at
worker_at-ends Worker.unmade t made unfinished = cc
worker_at-ends Worker.running Turn.handlers made unfinished = omega arith
worker_at-ends Worker.running Turn.signal made unfinished = omega arith
worker_at-ends Worker.running Turn.exception made unfinished = omega arith
worker_at-ends Worker.finished t made unfinished = cc

pub any_joinable-false :
    (ws : List Worker)
    → any_joinable ws ≡ false
    → (j : ℕ) (w : Worker) → get_elem? ws j ≡ some w
    → is_joinable w ≡ false
unfolding any_joinable
any_joinable-false [] e j w h = absurd (none≢some h)
any_joinable-false (x ∷ ws) e zero w h = ground arith
any_joinable-false (x ∷ ws) e (suc j) w h = any_joinable-false ws (ground arith) j w h

pub any_joinable-true :
    (ws : List Worker)
    → 0 < length ws
    → ((j : ℕ) (w : Worker) → get_elem? ws j ≡ some w → is_joinable w ≡ true)
    → any_joinable ws ≡ true
unfolding any_joinable
any_joinable-true [] lt h = absurd (omega arith)
any_joinable-true (x ∷ ws) lt h = ground (arith, h 0 x refl)
