-- ===== src/ClientProgram/Quiet.antt =====
-- asio/echo/co_client.cc and asio/echo/client.cc: the program once every session has ended.
use snippets_cc.Prelude.{
  ℕ, zero, suc, ◌*◌, ◌≤◌, ◌<◌, ◌≡◌, refl, sym, ap, ◌∙◌, Bool, true, false, ◌&&◌, Option-cases, some,
  none≢some, inl, inr, List, [], ◌∷◌, ◌++◌, length, get_elem?, set, set-same, total, total-ge,
  append-nil, ==_iff, ◌==◌, arith,
}
use mathlib.Core.Option.{some-injective}
use snippets_cc.EchoClient.{Pending, connecting, writing, reading, waiting, ended, Session}
use snippets_cc.EchoClient.Sessions.{Completion}
use snippets_cc.EchoClient.Monitor.{conns, conns-bounds, int_less}
use snippets_cc.EchoClient.Counters.{is_completed, is_connected, sessions_with}
use snippets_cc.Shutdown.Client.{Worker, Echo}
use snippets_cc.ClientProgram.{
  Reaction, SessionLaws, Meeting, completes, nothing, throws, System, Action, interrupt, main_turn,
  monitor_turn, worker_turn, is_ended, all_ended, spawn, complete, work, works,
}
use snippets_cc.ClientProgram.Invariant.{all_with, unspawned, Inv}
use snippets_cc.ClientProgram.Sizes.{sessions_of}

unfoldable pub none_left : List (List Session) → Bool
unfolding all_ended
none_left [] = true
none_left (ss ∷ sss) = all_ended ss && none_left sss

-- Each thread has made its sessions, and every session has ended.
pub record Quiet (connections : ℕ) (s : System) : Type 0 where
  pub made : sessions_of s ≡ 10 * conns connections
  pub all_left : none_left s.sessions ≡ true

ended-pending : (p : Pending) → is_ended p ≡ true → p ≡ ended
ended-pending connecting h = cc
ended-pending writing h = cc
ended-pending reading h = cc
ended-pending waiting h = cc
ended-pending ended h = refl

all_ended-get_elem? :
    (ss : List Session) (j : ℕ) (x : Session)
    → all_ended ss ≡ true
    → get_elem? ss j ≡ some x
    → x.pending ≡ ended
unfolding all_ended
all_ended-get_elem? [] j x h e = absurd (none≢some e)
all_ended-get_elem? (y ∷ ss) zero x h e =
    ap (λ z. z.pending) (sym (some-injective _ _ e)) ∙ ended-pending y.pending (ground arith)
all_ended-get_elem? (y ∷ ss) (suc j) x h e = all_ended-get_elem? ss j x (ground arith) e

none_left-get_elem? :
    (sss : List (List Session)) (i : ℕ) (ss : List Session)
    → none_left sss ≡ true
    → get_elem? sss i ≡ some ss
    → all_ended ss ≡ true
unfolding none_left
none_left-get_elem? [] i ss h e = absurd (none≢some e)
none_left-get_elem? (y ∷ sss) zero ss h e = ap all_ended (sym (some-injective _ _ e)) ∙ ground arith
none_left-get_elem? (y ∷ sss) (suc i) ss h e = none_left-get_elem? sss i ss (ground arith) e

-- Ended sessions are completed and have no connection.
all_ended-counted :
    (ss : List Session)
    → all_ended ss ≡ true
    → (sessions_with is_completed ss ≡ length ss) × (sessions_with is_connected ss ≡ 0)
unfolding all_ended total
all_ended-counted [] h = (refl, refl)
all_ended-counted (s ∷ ss) h =
    let e = ended-pending s.pending (ground arith) in
    let (c, d) = all_ended-counted ss (ground arith) in
    (omega (arith, ap is_completed e, c), omega (arith, ap is_connected e, d))

none_left-counted :
    (sss : List (List Session))
    → none_left sss ≡ true
    → (all_with is_completed sss ≡ total length sss) × (all_with is_connected sss ≡ 0)
unfolding none_left total
none_left-counted [] h = (refl, refl)
none_left-counted (ss ∷ sss) h =
    let (a, b) = all_ended-counted ss (ground arith) in
    let (c, d) = none_left-counted sss (ground arith) in (omega (arith, a, c), omega (arith, b, d))

int_less-enough :
    (completed n : ℕ) → n ≤ completed → completed < 2147483648 → int_less completed n ≡ false
int_less-enough completed n le few = ground arith

module _ {connections : ℕ} {s : System} (v : Inv connections s) (q : Quiet connections s) where
  -- What `monitor` loads.
  pub loads_completed :
      connections < 2147483638 → int_less s.statistics.completed connections ≡ false
  loads_completed few =
      let (c, _) = none_left-counted s.sessions q.all_left in
      let (le, lt) = conns-bounds connections in
      int_less-enough s.statistics.completed connections
        (omega (arith, v.counted.completed, c, q.made, le))
        (omega (arith, v.counted.completed, c, q.made, lt, few))

  pub loads_none_connected : (s.statistics.connected == 0) ≡ true
  loads_none_connected =
      (==_iff s.statistics.connected 0).1
        (v.counted.connected ∙ (none_left-counted s.sessions q.all_left).1)

  -- A thread that is yet to make its sessions makes none.
  none_spawned : (i : ℕ) → conns connections ≡ 0 → spawn connections i s ≡ s
  unfolding spawn
  none_spawned i none_more = elim (Option-cases (get_elem? s.sessions i)) [
    | inl no_i ↦ rw (no_i, spawn) refl
    | inr (ss, at_i) ↦
        rw (at_i, spawn, none_more)
          (ap (λ sss. record s { sessions = sss })
            (set-same s.sessions i (ss ++ []) (at_i ∙ ap some (sym (append-nil ss)))))
  ]

  none_spawned-unspawned :
      (i : ℕ) (e : Echo)
      → get_elem? s.threads.echo i ≡ some e
      → e.worker ≡ Worker.starting
      → spawn connections i s ≡ s
  none_spawned-unspawned i e at_i p = none_spawned i (
      omega (
        arith,
        v.enough,
        q.made,
        ap (unspawned (conns connections)) p,
        total-ge (λ e. unspawned (conns connections) e.worker) s.threads.echo i e at_i,
      ))

  module _ {react : Reaction} (laws : SessionLaws react) where
    none_completed : (i j : ℕ) (c : Completion) → complete react i j c s ≡ s
    unfolding complete
    none_completed i j c = elim (Option-cases (get_elem? s.sessions i)) [
      | inl no_i ↦ rw (no_i, complete) refl
      | inr (ss, at_i) ↦ elim (Option-cases (get_elem? ss j)) [
        | inl no_j ↦ rw (at_i, no_j, complete) refl
        | inr (x, at_j) ↦
            let over =
              all_ended-get_elem? ss j x (none_left-get_elem? s.sessions i ss q.all_left at_i)
                at_j in
            rw (at_i, at_j, complete, laws.stays_ended c x s.statistics over)
              (ap (λ sss. record s { sessions = sss })
                (ap (set s.sessions i) (set-same ss j x at_j) ∙ set-same s.sessions i ss at_i))
      ]
    ]

    works_nothing-at :
        (i : ℕ) (m : Meeting) (w : Worker) (b : Bool)
        → (w ≡ Worker.starting → spawn connections i s ≡ s)
        → work react connections i m w b s ≡ s
    unfolding work
    works_nothing-at i throws w b h = refl
    works_nothing-at i nothing Worker.unmade b h = refl
    works_nothing-at i nothing Worker.starting b h = h refl
    works_nothing-at i nothing Worker.running b h = refl
    works_nothing-at i nothing Worker.finished b h = refl
    works_nothing-at i (completes j c) Worker.unmade b h = refl
    works_nothing-at i (completes j c) Worker.starting b h = h refl
    works_nothing-at i (completes j c) Worker.running true h = refl
    works_nothing-at i (completes j c) Worker.running false h = none_completed i j c
    works_nothing-at i (completes j c) Worker.finished b h = refl

    -- No turn changes the sessions or the counters any more.
    pub works_nothing : (a : Action) → works react connections a s ≡ s
    unfolding works
    works_nothing interrupt = refl
    works_nothing main_turn = refl
    works_nothing monitor_turn = refl
    works_nothing (worker_turn i m) = elim (Option-cases (get_elem? s.threads.echo i)) [
      | inl no_i ↦ rw (no_i, works) refl
      | inr (e, at_i) ↦
          rw (at_i, works)
            (works_nothing-at i m e.worker e.is_stopped (none_spawned-unspawned i e at_i))
    ]
