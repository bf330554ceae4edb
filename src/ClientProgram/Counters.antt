-- ===== src/ClientProgram/Counters.antt =====
-- asio/echo/co_client.cc and asio/echo/client.cc: what the counters hold while the threads run the sessions.
use snippets_cc.Prelude.{
  ℕ, ◌+◌, ◌≤◌, ◌<◌, ◌≡◌, refl, sym, ◌∙◌, Bool, true, false, Option-cases, some, inl, inr, List, [],
  ◌∷◌, ◌++◌, length, get_elem?, set, replicate, total, total-set, total-append, total-ge, arith,
}
use snippets_cc.EchoClient.{Pending, connecting, Session, int_mod, make}
use snippets_cc.EchoClient.Sessions.{Completion}
use snippets_cc.EchoClient.Monitor.{conns, conns-bounds}
use snippets_cc.EchoClient.Counters.{
  is_completed, is_connected, is_ended, sessions_with, total-le, is_completed-le, is_connected-le,
  is_ended-le, total-replicate,
}
use snippets_cc.Shutdown.Client.{Worker}
use snippets_cc.ClientProgram.{
  Reaction, SessionLaws, Meeting, completes, nothing, throws, System, Action, interrupt, main_turn,
  monitor_turn, worker_turn, spawn, complete, work, works,
}
use snippets_cc.ClientProgram.Invariant.{all_with, AreCounted, Inv}

all_with-le :
    (w : Pending → ℕ)
    → ((p : Pending) → w p ≤ 1)
    → (sss : List (List Session)) → all_with w sss ≤ total length sss
unfolding total
all_with-le w one [] = omega arith
all_with-le w one (ss ∷ sss) = omega (arith, total-le w one ss, all_with-le w one sss)

module _ (connections : ℕ) (few : connections < 2147483638) where
  few_sessions :
      (s : System)
      → Inv connections s
      → (w : Pending → ℕ) → ((p : Pending) → w p ≤ 1)
      → all_with w s.sessions + 1 < int_mod
  few_sessions s v w one =
      omega (arith, v.enough, few, all_with-le w one s.sessions, (conns-bounds connections).1)

  spawn-AreCounted :
      (i : ℕ) (s : System)
      → AreCounted s.statistics s.sessions
      → AreCounted (spawn connections i s).statistics (spawn connections i s).sessions
  unfolding spawn
  spawn-AreCounted i s h = elim (Option-cases (get_elem? s.sessions i)) [
    | inl no_i ↦ rw (no_i, spawn) h
    | inr (ss, at_i) ↦
        rw (at_i, spawn)
          (record {
            completed = h.completed ∙ sym (same is_completed refl ss at_i);
            connected = h.connected ∙ sym (same is_connected refl ss at_i);
            failed = h.failed ∙ sym (same is_ended refl ss at_i);
          })
  ]
    where
      same :
          (w : Pending → ℕ)
          → w connecting ≡ 0
          → (ss : List Session) → get_elem? s.sessions i ≡ some ss
          → all_with w (set s.sessions i (ss ++ replicate (conns connections) make))
            ≡ all_with w s.sessions
      same w none_made ss at_i = omega (
        arith,
        total-set (sessions_with w) s.sessions i ss (ss ++ replicate (conns connections) make) at_i,
        total-append (λ x. w x.pending) ss (replicate (conns connections) make),
        total-replicate w (conns connections) none_made,
      )

  module _ {react : Reaction} (laws : SessionLaws react) where
    complete-AreCounted :
        (i j : ℕ) (c : Completion) (s : System)
        → Inv connections s
        → AreCounted (complete react i j c s).statistics (complete react i j c s).sessions
    unfolding complete
    complete-AreCounted i j c s v = elim (Option-cases (get_elem? s.sessions i)) [
      | inl no_i ↦ rw (no_i, complete) v.counted
      | inr (ss, at_i) ↦ elim (Option-cases (get_elem? ss j)) [
        | inl no_j ↦ rw (at_i, no_j, complete) v.counted
        | inr (x, at_j) ↦
            let h = v.counted in
            let (m, n, o) =
              laws.moves c x s.statistics
                (omega (arith, h.completed, few_sessions s v is_completed is_completed-le))
                (omega (arith, h.connected, few_sessions s v is_connected is_connected-le))
                (omega (arith, h.failed, few_sessions s v is_ended is_ended-le))
                (omega (
                  arith,
                  h.connected,
                  total-ge (λ y. is_connected y.pending) ss j x at_j,
                  total-ge (sessions_with is_connected) s.sessions i ss at_i,
                )) in
            rw (at_i, at_j, complete)
              (record {
                completed = omega (arith, h.completed, m, moved is_completed ss at_i x at_j);
                connected = omega (arith, h.connected, n, moved is_connected ss at_i x at_j);
                failed = omega (arith, h.failed, o, moved is_ended ss at_i x at_j);
              })
      ]
    ]
      where
        moved :
            (w : Pending → ℕ) (ss : List Session)
            → get_elem? s.sessions i ≡ some ss
            → (x : Session) → get_elem? ss j ≡ some x
            → all_with w (set s.sessions i (set ss j (react c x s.statistics).0)) + w x.pending
              ≡ all_with w s.sessions + w (react c x s.statistics).0.pending
        moved w ss at_i x at_j =
            let x' = (react c x s.statistics).0 in
            omega (
              arith,
              total-set (sessions_with w) s.sessions i ss (set ss j x') at_i,
              total-set (λ y. w y.pending) ss j x x' at_j,
            )

    work-AreCounted :
        (i : ℕ) (m : Meeting) (w : Worker) (is_stopped : Bool) (s : System)
        → Inv connections s
        → AreCounted
            (work react connections i m w is_stopped s).statistics
            (work react connections i m w is_stopped s).sessions
    unfolding work
    work-AreCounted i throws w b s v = v.counted
    work-AreCounted i nothing Worker.unmade b s v = v.counted
    work-AreCounted i nothing Worker.starting b s v = spawn-AreCounted i s v.counted
    work-AreCounted i nothing Worker.running b s v = v.counted
    work-AreCounted i nothing Worker.finished b s v = v.counted
    work-AreCounted i (completes j c) Worker.unmade b s v = v.counted
    work-AreCounted i (completes j c) Worker.starting b s v = spawn-AreCounted i s v.counted
    work-AreCounted i (completes j c) Worker.running true s v = v.counted
    work-AreCounted i (completes j c) Worker.running false s v = complete-AreCounted i j c s v
    work-AreCounted i (completes j c) Worker.finished b s v = v.counted

    pub works-AreCounted :
        (a : Action) (s : System)
        → Inv connections s
        → AreCounted (works react connections a s).statistics (works react connections a s).sessions
    unfolding works
    works-AreCounted interrupt s v = v.counted
    works-AreCounted main_turn s v = v.counted
    works-AreCounted monitor_turn s v = v.counted
    works-AreCounted (worker_turn i m) s v = elim (Option-cases (get_elem? s.threads.echo i)) [
      | inl no_i ↦ rw (no_i, works) v.counted
      | inr (e, at_i) ↦ rw (at_i, works) (work-AreCounted i m e.worker e.is_stopped s v)
    ]
