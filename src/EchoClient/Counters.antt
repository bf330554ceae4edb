-- ===== src/EchoClient/Counters.antt =====
-- asio/echo/client.cc: the statistics against the sessions.
use snippets_cc.Prelude.{
  total, total-set, total-ge, ℕ, zero, suc, ◌+◌, ◌≤◌, ◌<◌, ◌≡◌, refl, sym, ◌∙◌, inl, inr,
  Option-cases, Bool-cases, List, [], ◌∷◌, get_elem?, length, replicate, length-set,
  length-replicate, All, arith,
}
use snippets_cc.EchoClient.{
  Statistics, Pending, connecting, writing, reading, waiting, ended, Session, make, start, on_error,
  handle_connect, handle_write, handle_read, handle_wait, int_mod, same_bytes,
}
use snippets_cc.EchoClient.Sessions.{Completion, failure, success, react, System, step, run}

-- How a session counts: as one whose connection has been made or has failed, as one with a connection, as one that
-- has ended.
abbrev pub is_completed : Pending → ℕ
is_completed connecting = 0
is_completed _ = 1

abbrev pub is_connected : Pending → ℕ
is_connected connecting = 0
is_connected writing = 1
is_connected reading = 1
is_connected waiting = 1
is_connected ended = 0

abbrev pub is_ended : Pending → ℕ
is_ended ended = 1
is_ended _ = 0

abbrev pub sessions_with : (Pending → ℕ) → List Session → ℕ
sessions_with w = total (λ s. w s.pending)

pub record IsCounted (sys : System) : Type 0 where
  pub completed : sys.statistics.completed ≡ sessions_with is_completed sys.sessions
  pub connected : sys.statistics.connected ≡ sessions_with is_connected sys.sessions
  pub failed : sys.statistics.failed ≡ sessions_with is_ended sys.sessions

pub total-le :
    (w : Pending → ℕ)
    → ((p : Pending) → w p ≤ 1)
    → (ss : List Session) → sessions_with w ss ≤ length ss
unfolding total
total-le w one [] = omega arith
total-le w one (s ∷ ss) = omega (arith, one s.pending, total-le w one ss)

pub is_completed-le : (p : Pending) → is_completed p ≤ 1
is_completed-le connecting = omega arith
is_completed-le _ = omega arith

pub is_connected-le : (p : Pending) → is_connected p ≤ 1
is_connected-le connecting = omega arith
is_connected-le ended = omega arith
is_connected-le _ = omega arith

pub is_ended-le : (p : Pending) → is_ended p ≤ 1
is_ended-le ended = omega arith
is_ended-le _ = omega arith

-- A handler changes each counter as its session changes.
abbrev pub Moves : Session → Statistics → Session × Statistics → Type 0
Moves s st (s', st') =
    (st'.completed + is_completed s.pending ≡ st.completed + is_completed s'.pending)
    × (st'.connected + is_connected s.pending ≡ st.connected + is_connected s'.pending)
    × (st'.failed + is_ended s.pending ≡ st.failed + is_ended s'.pending)

pub react-Moves :
    (c : Completion) (p : Pending) (s : Session) (st : Statistics)
    → s.pending ≡ p
    → st.completed + 1 < int_mod
    → st.connected + 1 < int_mod
    → st.failed + 1 < int_mod
    → is_connected p ≤ st.connected
    → Moves s st (react c p s st)
unfolding react handle_connect handle_write handle_read handle_wait start on_error
react-Moves failure connecting s st e a b c d = rw e (omega arith, omega arith, omega arith)
react-Moves (success bytes) connecting s st e a b c d = rw e (omega arith, omega arith, omega arith)
react-Moves failure writing s st e a b c d = rw e (omega arith, omega arith, omega arith)
react-Moves (success bytes) writing s st e a b c d = rw e (omega arith, omega arith, omega arith)
react-Moves failure reading s st e a b c d = rw e (omega arith, omega arith, omega arith)
react-Moves (success bytes) reading s st e a b c d =
    elim (Bool-cases (same_bytes bytes s.send_buffer)) [
      | inl same ↦ rw same (rw e (omega arith, omega arith, omega arith))
      | inr other ↦ rw other (rw e (omega arith, omega arith, omega arith))
    ]
react-Moves failure waiting s st e a b c d = rw e (omega arith, omega arith, omega arith)
react-Moves (success bytes) waiting s st e a b c d = rw e (omega arith, omega arith, omega arith)
react-Moves failure ended s st e a b c d = (refl, refl, refl)
react-Moves (success bytes) ended s st e a b c d = (refl, refl, refl)

step-IsCounted :
    (i : ℕ) (c : Completion) (sys : System)
    → length sys.sessions + 1 < int_mod
    → IsCounted sys
    → IsCounted (step i c sys)
unfolding step
step-IsCounted i c sys few h = elim (Option-cases (get_elem? sys.sessions i)) [
  | inl e ↦ rw (e, step) h
  | inr (s, e) ↦
      let st = sys.statistics in
      let (m, n, o) =
        react-Moves c s.pending s st refl
          (omega (arith, h.completed, total-le is_completed is_completed-le sys.sessions))
          (omega (arith, h.connected, total-le is_connected is_connected-le sys.sessions))
          (omega (arith, h.failed, total-le is_ended is_ended-le sys.sessions))
          (omega (arith, h.connected, total-ge (λ t. is_connected t.pending) sys.sessions i s e)) in
      let s' = (react c s.pending s st).0 in
      rw (e, step)
        (record {
          completed = omega (
            arith,
            h.completed,
            m,
            total-set (λ t. is_completed t.pending) sys.sessions i s s' e,
          );
          connected = omega (
            arith,
            h.connected,
            n,
            total-set (λ t. is_connected t.pending) sys.sessions i s s' e,
          );
          failed =
              omega (arith, h.failed, o, total-set (λ t. is_ended t.pending) sys.sessions i s s' e);
        })
]

length-step :
    (i : ℕ) (c : Completion) (sys : System) → length (step i c sys).sessions ≡ length sys.sessions
unfolding step
length-step i c sys = elim (Option-cases (get_elem? sys.sessions i)) [
  | inl e ↦ rw (e, step) refl
  | inr (s, e) ↦ rw (e, step) (length-set sys.sessions i _)
]

run_all-IsCounted :
    (cs : List (ℕ × Completion)) (sys : System)
    → length sys.sessions + 1 < int_mod
    → IsCounted sys
    → IsCounted (run cs sys)
unfolding run
run_all-IsCounted [] sys few h = h
run_all-IsCounted ((i, c) ∷ cs) sys few h =
    run_all-IsCounted cs (step i c sys) (omega (arith, length-step i c sys))
      (step-IsCounted i c sys few h)

-- `n` sessions whose connections are pending, with all counters at 0.
abbrev pub initial : ℕ → System
initial n = record {
  sessions = replicate n make;
  statistics = record { echoes = 0; failed = 0; connected = 0; completed = 0 };
}

length-run_all :
    (cs : List (ℕ × Completion)) (sys : System) → length (run cs sys).sessions ≡ length sys.sessions
unfolding run
length-run_all [] sys = refl
length-run_all ((i, c) ∷ cs) sys = length-run_all cs (step i c sys) ∙ length-step i c sys

pub length-run : (n : ℕ) (cs : List (ℕ × Completion)) → length (run cs (initial n)).sessions ≡ n
length-run n cs = length-run_all cs (initial n) ∙ length-replicate n make

-- The measure of sessions that each count.
pub total-All :
    (w : Pending → ℕ) (ss : List Session)
    → All (λ s. w s.pending ≡ 1) ss
    → sessions_with w ss ≡ length ss
unfolding total
total-All w [] h = refl
total-All w (s ∷ ss) h = omega (arith, h.0, total-All w ss h.1)

pub total-replicate :
    (w : Pending → ℕ) (n : ℕ) → w connecting ≡ 0 → sessions_with w (replicate n make) ≡ 0
unfolding total make
total-replicate w zero e = refl
total-replicate w (suc n) e = omega (arith, e, total-replicate w n e)

-- For fewer than 2 ^ 32 - 1 sessions that begin with their connections pending and all counters at 0, in whatever order
-- their operations complete: `completed` is the number of sessions whose connection has been made or has failed,
-- `connected` the number of those that have one, and `failed` the number of those that have ended.
pub run-IsCounted :
    (n : ℕ) (cs : List (ℕ × Completion)) → n + 1 < int_mod → IsCounted (run cs (initial n))
run-IsCounted n cs few =
    run_all-IsCounted cs (initial n) (omega (arith, length-replicate n make)) (record {
      completed = sym (total-replicate is_completed n refl);
      connected = sym (total-replicate is_connected n refl);
      failed = sym (total-replicate is_ended n refl);
    })
