-- ===== src/Shutdown/Listening/Costs.antt =====
-- asio/echo/co_server.cc: what a failed accept costs.
use mathlib.Core.Path.{subst}
use snippets_cc.Prelude.{
  ℕ, zero, suc, ◌≤◌, ◌≡◌, ◌⊎◌, refl, ap, ◌∙◌, Bool, true, false, not, ◌&&◌, inl, inr, Option-cases,
  Bool-cases, Option, none, some, List, [], ◌∷◌, get_elem?, set, replicate, total, total-set, arith,
}
use snippets_cc.Shutdown.Server
use snippets_cc.Shutdown.Server.{
  Worker, Main, making, running, joining, returned, caught, terminated, Turn, is_joinable, main_at,
  worker_at, unwind,
}
use snippets_cc.Shutdown.Server.Places.{Inv, Placed}
use snippets_cc.Shutdown.Server.Steps.{step-Fine}
use snippets_cc.Shutdown.Server.Returns.{is_going, start-Inv, worker_turn-main}
use snippets_cc.Shutdown.Listening.{
  System, Runner, main_thread, pool_thread, turn_of, is_main_running, is_worker_running, runs,
  is_listening, Action, accept_ends, of_pool, listen, step, run, start,
}

-- The ports on which no coroutine listens any more, and the threads that have ended.
abbrev pub closed : Bool → ℕ
closed true = 0
closed false = 1

abbrev pub ended : Worker → ℕ
ended Worker.finished = 1
ended _ = 0

-- A port is lost with a thread, or `main` has been ended by an exception.
abbrev pub Costs : System → Type 0
Costs s = (total closed s.listening ≤ total ended s.pool.threads) ⊎ (is_going s.pool.main ≡ false)

worker_at-ended : (w : Worker) (b : Bool) (t : Turn) → ended w ≤ ended (worker_at w b t)
unfolding worker_at
worker_at-ended Worker.unmade b t = omega arith
worker_at-ended Worker.running b t = omega arith
worker_at-ended Worker.finished b t = omega arith

unmade-ended : (w : Worker) → is_joinable w ≡ false → ended w ≡ 0
unmade-ended Worker.unmade h = refl
unmade-ended Worker.running h = cc
unmade-ended Worker.finished h = cc

abbrev pub ends : Server.System → ℕ
ends s = total ended s.threads

module _ {n : ℕ} {s : Server.System} (v : Inv n s) where
  make-ended :
      (i : ℕ)
      → s.main ≡ making i
      → ends s
        ≤ ends (elim (get_elem? s.threads i) [
          | none ↦ record s { main = running }
          | some w ↦ record s { main = making (suc i); threads = set s.threads i Worker.running }
        ])
  make-ended i p = elim (Option-cases (get_elem? s.threads i)) [
    | inl no_i ↦ rw no_i (omega arith)
    | inr (x, at_i) ↦
        let placed =
          subst (λ k. (j : ℕ) (w : Worker) → get_elem? s.threads j ≡ some w → Placed k j w) p
            v.threads in
        let unmade = unmade-ended x ((placed i x at_i).1 (omega arith)) in
        rw at_i (omega (arith, unmade, total-set ended s.threads i x Worker.running at_i))
  ]

  -- No turn takes back the end of a thread.
  main_at-ended :
      (m : Main) (t : Turn)
      → s.main ≡ m
      → total ended s.threads ≤ total ended (main_at m t s).threads
  unfolding main_at unwind
  main_at-ended (making i) Turn.handlers p = make-ended i p
  main_at-ended (making i) Turn.signal p = make-ended i p
  main_at-ended (making i) Turn.exception p = omega arith
  main_at-ended running Turn.handlers p = ground arith
  main_at-ended running Turn.signal p = ground arith
  main_at-ended running Turn.exception p = ground arith
  main_at-ended (joining i) t p = ground arith
  main_at-ended returned t p = omega arith
  main_at-ended caught t p = omega arith
  main_at-ended terminated t p = omega arith

  step-ended : (a : Server.Action) → total ended s.threads ≤ total ended (Server.step a s).threads
  unfolding Server.step
  step-ended (Server.main_turn t) = main_at-ended s.main t refl
  step-ended (Server.worker_turn i t) = elim (Option-cases (get_elem? s.threads i)) [
    | inl no_i ↦ rw (no_i, Server.step) (omega arith)
    | inr (w, at_i) ↦
        rw (at_i, Server.step)
          (omega (
            arith,
            worker_at-ended w s.is_stopped t,
            total-set ended s.threads i w (worker_at w s.is_stopped t) at_i,
          ))
  ]

main_at-over :
    (m : Main) (t : Turn) (s : Server.System)
    → s.main ≡ m
    → is_going m ≡ false
    → is_going (main_at m t s).main ≡ false
unfolding main_at
main_at-over (making i) t s p over = cc
main_at-over running t s p over = cc
main_at-over (joining i) t s p over = cc
main_at-over returned t s p over = cc
main_at-over caught t s p over = ap is_going p
main_at-over terminated t s p over = ap is_going p

step-over :
    (a : Server.Action) (s : Server.System)
    → is_going s.main ≡ false
    → is_going (Server.step a s).main ≡ false
unfolding Server.step
step-over (Server.main_turn t) s over = main_at-over s.main t s refl over
step-over (Server.worker_turn i t) s over = ap is_going (worker_turn-main i t s) ∙ over

main-ends :
    (m : Main) (s : Server.System)
    → is_main_running m && not s.is_stopped ≡ true
    → is_going (main_at m Turn.exception s).main ≡ false
unfolding main_at unwind
main-ends (making i) s on = cc
main-ends running s on = ground arith
main-ends (joining i) s on = cc
main-ends returned s on = cc
main-ends caught s on = cc
main-ends terminated s on = cc

worker-ends :
    (w : Worker) (b : Bool)
    → is_worker_running (some w) && not b ≡ true
    → suc (ended w) ≤ ended (worker_at w b Turn.exception)
unfolding worker_at
worker-ends Worker.unmade b on = cc
worker-ends Worker.running b on = omega arith
worker-ends Worker.finished b on = cc

-- An exception in `io_context.run ()` ends the thread, or `main`.
exception-ends :
    (r : Runner) (s : Server.System)
    → runs r s ≡ true
    → (suc (ends s) ≤ ends (Server.step (turn_of r Turn.exception) s))
      ⊎ (is_going (Server.step (turn_of r Turn.exception) s).main ≡ false)
unfolding Server.step
exception-ends main_thread s on = inr (main-ends s.main s on)
exception-ends (pool_thread i) s on = elim (Option-cases (get_elem? s.threads i)) [
  | inl no_i ↦ let none_on = (rw no_i at on) in cc
  | inr (w, at_i) ↦
      let some_on = (rw at_i at on) in
      rw (at_i, Server.step)
        (inl (
          omega (
            arith,
            worker-ends w s.is_stopped some_on,
            total-set ended s.threads i w (worker_at w s.is_stopped Turn.exception) at_i,
          )))
]

is_listening-true : (o : Option Bool) → is_listening o ≡ true → o ≡ some true
is_listening-true none h = cc
is_listening-true (some true) h = refl
is_listening-true (some false) h = cc

Kept : ℕ → System → Type 0
Kept n s = Inv n s.pool × Costs s

listen-Kept :
    (n : ℕ) (error : Bool) (port : ℕ) (r : Runner) (s : System)
    → runs r s.pool ≡ true
    → get_elem? s.listening port ≡ some true
    → Kept n s
    → Kept n (listen error port r s)
unfolding listen Kept
listen-Kept n false port r s on at_port (v, costs) = (v, costs)
listen-Kept n true port r s on at_port (v, costs) = (
  (step-Fine (turn_of r Turn.exception) v).inv,
  elim costs [
    | inl le ↦ elim (exception-ends r s.pool on) [
      | inl more ↦
          inl (omega (arith, le, more, total-set closed s.listening port true false at_port))
      | inr over ↦ inr over
    ]
    | inr over ↦ inr (step-over (turn_of r Turn.exception) s.pool over)
  ],
)

step-Kept : (n : ℕ) (a : Action) (s : System) → Kept n s → Kept n (step a s)
unfolding step Kept
step-Kept n (of_pool a) s (v, costs) = (
  (step-Fine a v).inv,
  elim costs [
    | inl le ↦ inl (omega (arith, le, step-ended v a))
    | inr over ↦ inr (step-over a s.pool over)
  ],
)
step-Kept n (accept_ends error port r) s h = elim (Bool-cases (runs r s.pool)) [
  | inl on ↦ elim (Bool-cases (is_listening (get_elem? s.listening port))) [
    | inl going ↦
        rw (on, going)
          (listen-Kept n error port r s on (is_listening-true (get_elem? s.listening port) going) h)
    | inr closed_already ↦ rw (on, closed_already) h
  ]
  | inr off ↦ rw off h
]

run-Kept : (n : ℕ) (acts : List Action) (s : System) → Kept n s → Kept n (run acts s)
unfolding run
run-Kept n [] s h = h
run-Kept n (a ∷ acts) s h = run-Kept n acts (step a s) (step-Kept n a s h)

none_closed : (ports : ℕ) → total closed (replicate ports true) ≡ 0
unfolding total
none_closed zero = refl
none_closed (suc ports) = omega (arith, none_closed ports)

start-Kept : (n ports : ℕ) → Kept n (start n ports)
unfolding start Kept
start-Kept n ports = (start-Inv n, inl (omega (arith, none_closed ports)))

-- After any turns of the threads of `main`, in which any accepts may fail: as long as no exception has ended `main`, at
-- least as many of the threads beside it have ended as there are ports on which the server listens no more.
pub closed-ended :
    (n ports : ℕ) (acts : List Action)
    → is_going (run acts (start n ports)).pool.main ≡ true
    → total closed (run acts (start n ports)).listening
      ≤ total ended (run acts (start n ports)).pool.threads
unfolding Kept
closed-ended n ports acts going = elim (run-Kept n acts (start n ports) (start-Kept n ports)).1 [
  | inl le ↦ le
  | inr over ↦ cc
]
