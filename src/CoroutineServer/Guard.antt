-- ===== src/CoroutineServer/Guard.antt =====
-- asio/echo/co_server.cc: the watching coroutine against the one that echoes, in whatever order they go on.
use mathlib.Core.Path.{subst}
use snippets_cc.Prelude.{
  ℕ, sym, if◌then◌else◌, ◌+◌, ◌≤◌, ◌≡◌, refl, Bool, true, false, inl, inr, List, [], ◌∷◌, leb,
  length, Bool-cases, arith,
}
use snippets_cc.Asio.{
  Operation, no_operation, receiving, writing, Wait, no_wait, armed, cancelled, Event,
  data_received, receive_failed, all_written, write_failed, wait_ended, wait_cancelled,
}
use snippets_cc.CoroutineServer.{
  Session, echo, echo_received, echo_written, watch, watch_waited, start_with_watchdog,
  start_watchdog, react, step,
}

-- The watching coroutine begins, or an operation completes, after some time.
pub data Progress : Type 0 where
  watch_begins : Progress
  completes : Event → (elapsed : ℕ) → Progress

unfoldable pub run_any : List Progress → Session → Session
run_any [] s = s
run_any (watch_begins ∷ ps) s = run_any ps (start_watchdog s)
run_any (completes e elapsed ∷ ps) s = run_any ps (step e elapsed s)

-- Whether the coroutine that echoes has returned.
abbrev pub has_returned : Operation → Bool
has_returned no_operation = true
has_returned receiving = false
has_returned (writing n) = false

-- What looks after an open session: the watching coroutine that has not begun yet, or its wait for at most the
-- deadline; a coroutine that has returned leaves it cancelled or not.
abbrev Guarded : (is_open returned is_watched : Bool) → Wait → (deadline : ℕ) → Type 0
Guarded false r v w d = Unit
Guarded true true v w d = Unit
Guarded true false false w d = w ≡ no_wait
Guarded true false true w d = (expiry : ℕ) × (w ≡ armed expiry) × (expiry ≤ d)

-- As long as the socket is open and the session echoes, the deadline is at most the timeout away, and the watching
-- coroutine has not begun or waits for the deadline at the latest.
abbrev pub IsGuarded : Session → Type 0
IsGuarded s =
    Guarded s.is_open (has_returned s.operation) s.is_watched s.wait s.deadline
    × (s.deadline ≤ s.now + s.timeout)

Guarded-later :
    (o r v : Bool) (w : Wait) (d d' : ℕ) → d ≤ d' → Guarded o r v w d → Guarded o r v w d'
Guarded-later false r v w d d' le h = tt
Guarded-later true true v w d d' le h = tt
Guarded-later true false false w d d' le h = h
Guarded-later true false true w d d' le (expiry, e, h) = (expiry, e, omega arith)

Guarded-armed : (o r : Bool) (d : ℕ) → Guarded o r true (armed d) d
Guarded-armed false r d = tt
Guarded-armed true true d = tt
Guarded-armed true false d = (d, refl, omega arith)

-- Any wait but none is that of a coroutine that has begun.
Guarded-rearm :
    (o r v : Bool) (w : Wait) (d d' : ℕ)
    → (w ≡ no_wait → ⊥)
    → Guarded o r v w d
    → Guarded o r v (armed d') d'
Guarded-rearm false r v w d d' ne h = tt
Guarded-rearm true true v w d d' ne h = tt
Guarded-rearm true false false w d d' ne h = absurd (ne h)
Guarded-rearm true false true w d d' ne h = (d', refl, omega arith)

-- A cancelled wait is not that of a session that echoes.
Guarded-cancelled :
    (o r v : Bool) (w w' : Wait) (d : ℕ) → w ≡ cancelled → Guarded o r v w d → Guarded o r v w' d
Guarded-cancelled false r v w w' d e h = tt
Guarded-cancelled true true v w w' d e h = tt
Guarded-cancelled true false false w w' d e h = absurd cc
Guarded-cancelled true false true w w' d e (expiry, e', h) = absurd cc

Guarded-returned : (o v : Bool) (w : Wait) (d : ℕ) → Guarded o true v w d
Guarded-returned false v w d = tt
Guarded-returned true v w d = tt

watch-IsGuarded :
    (s : Session) (w : Wait)
    → (w ≡ no_wait → ⊥)
    → Guarded s.is_open (has_returned s.operation) s.is_watched w s.deadline
    → s.deadline ≤ s.now + s.timeout
    → IsGuarded (watch s)
unfolding watch
watch-IsGuarded s w ne h le = elim (Bool-cases (leb s.deadline s.now)) [
  | inl late ↦ rw late (tt, le)
  | inr early ↦ rw early (
    Guarded-rearm s.is_open (has_returned s.operation) s.is_watched w s.deadline s.deadline ne h,
    le,
  )
]

react-IsGuarded :
    (e : Event) (o : Operation) (w : Wait) (s : Session)
    → s.operation ≡ o
    → s.wait ≡ w
    → IsGuarded s
    → IsGuarded (react e o w s)
unfolding react echo echo_received echo_written watch_waited
react-IsGuarded (data_received bytes) receiving w s e ew h =
    elim (Bool-cases (leb (length bytes) (length s.buffer))) [
      | inl fits ↦
          rw fits
            (Guarded-later s.is_open false s.is_watched s.wait _ _ h.1 (rw e at h.0), omega arith)
      | inr over ↦ rw over h
    ]
react-IsGuarded receive_failed receiving w s e ew h =
    (Guarded-returned s.is_open s.is_watched _ _, h.1)
react-IsGuarded all_written (writing n) w s e ew h =
    (Guarded-later s.is_open false s.is_watched s.wait _ _ h.1 (rw e at h.0), omega arith)
react-IsGuarded (write_failed count) (writing n) w s e ew h =
    (Guarded-returned s.is_open s.is_watched _ _, h.1)
react-IsGuarded (data_received bytes) no_operation w s e ew h = h
react-IsGuarded (data_received bytes) (writing n) w s e ew h = h
react-IsGuarded receive_failed no_operation w s e ew h = h
react-IsGuarded receive_failed (writing n) w s e ew h = h
react-IsGuarded all_written no_operation w s e ew h = h
react-IsGuarded all_written receiving w s e ew h = h
react-IsGuarded (write_failed count) no_operation w s e ew h = h
react-IsGuarded (write_failed count) receiving w s e ew h = h
react-IsGuarded wait_ended o (armed expiry) s e ew h = elim (Bool-cases (leb expiry s.now)) [
  | inl due ↦ rw due (watch-IsGuarded (record s { wait = no_wait }) s.wait (λ none. cc) h.0 h.1)
  | inr early ↦ rw early h
]
react-IsGuarded wait_ended o cancelled s e ew h =
    watch-IsGuarded (record s { wait = no_wait }) s.wait (λ none. cc) h.0 h.1
react-IsGuarded wait_ended o no_wait s e ew h = h
react-IsGuarded wait_cancelled o no_wait s e ew h = h
react-IsGuarded wait_cancelled o (armed expiry) s e ew h = h
react-IsGuarded wait_cancelled o cancelled s e ew h = (
  Guarded-cancelled s.is_open (has_returned s.operation) s.is_watched s.wait no_wait s.deadline ew
      h.0,
  h.1,
)

start_watchdog-IsGuarded : (s : Session) → IsGuarded s → IsGuarded (start_watchdog s)
unfolding start_watchdog watch
start_watchdog-IsGuarded s h = elim (Bool-cases s.is_watched) [
  | inl begun ↦
      subst (λ b. IsGuarded (if b then s else watch (record s { is_watched = true }))) (sym begun) h
  | inr new ↦ elim (Bool-cases (leb s.deadline s.now)) [
    | inl late ↦ rw (new, late, start_watchdog, watch) (tt, h.1)
    | inr early ↦
        rw (new, early, start_watchdog, watch)
          (Guarded-armed s.is_open (has_returned s.operation) s.deadline, h.1)
  ]
]

run_from-IsGuarded : (ps : List Progress) (s : Session) → IsGuarded s → IsGuarded (run_any ps s)
unfolding run_any step
run_from-IsGuarded [] s h = h
run_from-IsGuarded (watch_begins ∷ ps) s h =
    run_from-IsGuarded ps (start_watchdog s) (start_watchdog-IsGuarded s h)
run_from-IsGuarded (completes e elapsed ∷ ps) s h =
    run_from-IsGuarded ps (step e elapsed s)
      (react-IsGuarded e s.operation s.wait _ refl refl (h.0, omega (arith, h.1)))

-- In whatever order the two coroutines begin and go on, and after whatever times: as long as the socket is open and
-- the session echoes, its deadline is at most the timeout away, and the watching coroutine has not begun or waits for
-- the deadline at the latest.
pub run_any-IsGuarded :
    (timeout now : ℕ) (ps : List Progress)
    → IsGuarded (run_any ps (start_with_watchdog timeout now))
unfolding start_with_watchdog echo
run_any-IsGuarded timeout now ps = run_from-IsGuarded ps _ (refl, omega arith)
