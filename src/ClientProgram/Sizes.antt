-- ===== src/ClientProgram/Sizes.antt =====
-- asio/echo/co_client.cc and asio/echo/client.cc: how many sessions the threads make.
use mathlib.Core.Path.{subst}
use snippets_cc.Prelude.{
  ℕ, ◌+◌, ◌≤◌, ◌≡◌, refl, ap, Bool, true, false, not, Option-cases, some, inl, inr, ◌++◌, length,
  get_elem?, set, replicate, length-set, length-append, length-replicate, total, total-set, ◌==◌,
  arith,
}
use snippets_cc.EchoClient.{make}
use snippets_cc.EchoClient.Sessions.{Completion}
use snippets_cc.EchoClient.Monitor.{conns, int_less}
use snippets_cc.Shutdown.Client
use snippets_cc.Shutdown.Client.{
  Worker, Echo, Main, making, polling, stopping, joining, returned, stop_context, worker_at,
  worker_step, make_thread,
}
use snippets_cc.Shutdown.Client.Places
use snippets_cc.ClientProgram.{
  Reaction, Meeting, completes, nothing, throws, System, Action, interrupt, main_turn, monitor_turn,
  worker_turn, spawn, complete, work, works, turn_of, no_work_left, action_of, step,
}
use snippets_cc.ClientProgram.Invariant.{unspawned, unmade_sessions}

abbrev pub sessions_of : System → ℕ
sessions_of s = total length s.sessions

complete-sessions :
    (react : Reaction) (i j : ℕ) (c : Completion) (s : System)
    → (length (complete react i j c s).sessions ≡ length s.sessions)
      × (sessions_of (complete react i j c s) ≡ sessions_of s)
unfolding complete
complete-sessions react i j c s = elim (Option-cases (get_elem? s.sessions i)) [
  | inl no_i ↦ rw (no_i, complete) (refl, refl)
  | inr (ss, at_i) ↦ elim (Option-cases (get_elem? ss j)) [
    | inl no_j ↦ rw (at_i, no_j, complete) (refl, refl)
    | inr (x, at_j) ↦
        let ss' = set ss j (react c x s.statistics).0 in
        rw (at_i, at_j, complete)
          (
            length-set s.sessions i ss',
            omega (
              arith,
              total-set length s.sessions i ss ss' at_i,
              length-set ss j (react c x s.statistics).0,
            ),
          )
  ]
]

spawn-sessions :
    (connections i : ℕ) (s : System)
    → (length (spawn connections i s).sessions ≡ length s.sessions)
      × (sessions_of (spawn connections i s) ≤ sessions_of s + conns connections)
unfolding spawn
spawn-sessions connections i s = elim (Option-cases (get_elem? s.sessions i)) [
  | inl no_i ↦ rw (no_i, spawn) (refl, omega arith)
  | inr (ss, at_i) ↦
      let ss' = ss ++ replicate (conns connections) make in
      rw (at_i, spawn)
        (
          length-set s.sessions i ss',
          omega (
            arith,
            total-set length s.sessions i ss ss' at_i,
            length-append ss (replicate (conns connections) make),
            length-replicate (conns connections) make,
          ),
        )
]

-- What a turn of a thread adds to the sessions, the thread is yet to make no more.
work-sessions :
    (react : Reaction) (connections i : ℕ) (m : Meeting) (w : Worker) (b no_work : Bool)
    (s : System)
    → (length (work react connections i m w b s).sessions ≡ length s.sessions)
      × (sessions_of (work react connections i m w b s)
            + unspawned (conns connections) (worker_at w b (turn_of m no_work))
          ≤ sessions_of s + unspawned (conns connections) w)
unfolding work worker_at
work-sessions react connections i (completes j c) Worker.unmade b no_work s = (refl, omega arith)
work-sessions react connections i (completes j c) Worker.starting b no_work s =
    let (same, le) = spawn-sessions connections i s in (same, omega (arith, le))
work-sessions react connections i (completes j c) Worker.running true no_work s =
    (refl, omega arith)
work-sessions react connections i (completes j c) Worker.running false no_work s =
    let (same, le) = complete-sessions react i j c s in (same, omega (arith, le))
work-sessions react connections i (completes j c) Worker.finished b no_work s = (refl, omega arith)
work-sessions react connections i nothing Worker.unmade b true s = (refl, omega arith)
work-sessions react connections i nothing Worker.starting b true s =
    let (same, le) = spawn-sessions connections i s in (same, omega (arith, le))
work-sessions react connections i nothing Worker.unmade b false s = (refl, omega arith)
work-sessions react connections i nothing Worker.starting b false s =
    let (same, le) = spawn-sessions connections i s in (same, omega (arith, le))
work-sessions react connections i nothing Worker.running b true s = (refl, omega arith)
work-sessions react connections i nothing Worker.running true false s = (refl, omega arith)
work-sessions react connections i nothing Worker.running false false s = (refl, omega arith)
work-sessions react connections i nothing Worker.finished b true s = (refl, omega arith)
work-sessions react connections i nothing Worker.finished b false s = (refl, omega arith)
work-sessions react connections i throws Worker.unmade b no_work s = (refl, omega arith)
work-sessions react connections i throws Worker.starting b no_work s = (refl, omega arith)
work-sessions react connections i throws Worker.running b no_work s = (refl, omega arith)
work-sessions react connections i throws Worker.finished b no_work s = (refl, omega arith)

made-unspawned : (k : ℕ) (w : Worker) → Places.is_made w ≡ false → unspawned k w ≡ k
made-unspawned k Worker.unmade h = refl
made-unspawned k Worker.starting h = cc
made-unspawned k Worker.running h = cc
made-unspawned k Worker.finished h = cc

-- `main` makes its threads once, and they make all the sessions.
main-unmade :
    (k : ℕ) (s : Client.System)
    → Places.Inv 10 s
    → unmade_sessions k (Client.main_step s).echo ≤ unmade_sessions k s.echo
unfolding Client.main_step Client.main_at
main-unmade k s v = go s.main refl
  where
    go :
        (m : Main)
        → s.main ≡ m
        → unmade_sessions k (Client.main_at m s).echo ≤ unmade_sessions k s.echo
    go (making i) p = elim (Option-cases (get_elem? s.echo i)) [
      | inl no_i ↦ rw (no_i, Client.main_at) (omega arith)
      | inr (e, at_i) ↦
          let placed =
            subst (λ m. (j : ℕ) (e : Echo) → get_elem? s.echo j ≡ some e → Places.Placed m j e) p
              v.threads in
          let unmade = made-unspawned k e.worker ((placed i e at_i).1 (omega arith)) in
          rw (at_i, Client.main_at)
            (omega (
              arith,
              unmade,
              total-set (λ e. unspawned k e.worker) s.echo i e (make_thread e) at_i,
            ))
    ]
    go polling p = ground arith
    go (stopping i) p = elim (Option-cases (get_elem? s.echo i)) [
      | inl no_i ↦ rw (no_i, Client.main_at) (omega arith)
      | inr (e, at_i) ↦
          rw (at_i, Client.main_at)
            (omega (arith, total-set (λ e. unspawned k e.worker) s.echo i e (stop_context e) at_i))
    ]
    go (joining i) p = ground arith
    go returned p = omega arith

monitor-echo : (b c : Bool) (s : Client.System) → (Client.monitor_step b c s).echo ≡ s.echo
unfolding Client.monitor_step Client.monitor_at
monitor-echo b c s = go s.monitor
  where
    go : (m : Client.Monitor) → (Client.monitor_at m b c s).echo ≡ s.echo
    go Client.Monitor.unmade = refl
    go Client.Monitor.establishing = ground arith
    go Client.Monitor.established = refl
    go Client.Monitor.reporting = ground arith
    go Client.Monitor.stopping = refl
    go Client.Monitor.finished = refl

-- The sessions made, with those that the threads are yet to make, become no more.
pub step-sessions :
    (react : Reaction) (connections : ℕ) (a : Action) (s : System)
    → Places.Inv 10 s.threads
    → (length (step react connections a s).sessions ≡ length s.sessions)
      × (sessions_of (step react connections a s)
            + unmade_sessions (conns connections) (step react connections a s).threads.echo
          ≤ sessions_of s + unmade_sessions (conns connections) s.threads.echo)
unfolding step works action_of Client.step
step-sessions react connections interrupt s v = (refl, omega arith)
step-sessions react connections main_turn s v =
    (refl, omega (arith, main-unmade (conns connections) s.threads v))
step-sessions react connections monitor_turn s v = (
  refl,
  omega (
    arith,
    ap (unmade_sessions (conns connections)) (
        monitor-echo (not (int_less s.statistics.completed connections))
          (s.statistics.connected == 0) s.threads),
  ),
)
step-sessions react connections (worker_turn i m) s v =
    elim (Option-cases (get_elem? s.threads.echo i)) [
      | inl no_i ↦ rw (no_i, step, works, action_of, Client.step) (refl, omega arith)
      | inr (e, at_i) ↦
          let no_work = no_work_left i s.sessions in
          let (same, le) = work-sessions react connections i m e.worker e.is_stopped no_work s in
          rw (at_i, step, works, action_of, Client.step)
            (
              same,
              omega (
                arith,
                le,
                total-set (λ e. unspawned (conns connections) e.worker) s.threads.echo i e
                    (worker_step (turn_of m no_work) e) at_i,
              ),
            )
    ]
