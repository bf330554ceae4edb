-- ===== src/CoroutineServer/Timeout/Guard.antt =====
-- asio/echo/co_server.cc, the mode with a timeout for each operation: the timeout coroutines against the one that echoes.
use snippets_cc.Prelude.{
  ℕ, zero, suc, ◌+◌, ◌<◌, ◌≡◌, ◌⊎◌, refl, ap, false, Bool-cases, inl, inr, Option, none, some, List,
  [], ◌∷◌, ◌++◌, map, ◌==◌, leb, length, get_elem?, arith,
}
use mathlib.Core.Option.{some-injective}
use snippets_cc.Asio.{
  Operation, no_operation, receiving, writing, Wait, no_wait, armed, cancelled, cancel,
}
use snippets_cc.CoroutineServer.Timeout.{
  Session, start_timeout, cancel_timer, begin_wait, waited, echo, echo_received, echo_written,
  start_with_timeout, Completion, wait_begins, wait_ended, wait_cancelled, data_received,
  receive_failed, all_written, write_failed, remove, end_wait, abort_wait, react, run,
}

abbrev pub is_armed : Wait → ℕ
is_armed no_wait = 0
is_armed (armed expiry) = 1
is_armed cancelled = 0

abbrev pub armed_waits : List Wait → ℕ
armed_waits [] = 0
armed_waits (w ∷ ws) = is_armed w + armed_waits ws

-- The socket has been closed, the session does not echo any more, or a timeout is coming: its coroutine has not begun
-- or its wait is armed.
abbrev pub IsTimed : Session → Type 0
IsTimed s =
    (s.is_open ≡ false) ⊎ ((s.operation ≡ no_operation) ⊎ (0 < s.spawned + armed_waits s.waits))

armed_waits-append : (ws : List Wait) (expiry : ℕ) → 0 < armed_waits (ws ++ armed expiry ∷ [])
armed_waits-append [] expiry = omega arith
armed_waits-append (w ∷ ws) expiry = omega (arith, armed_waits-append ws expiry)

armed_waits-remove :
    (ws : List Wait) (i : ℕ)
    → get_elem? ws i ≡ some cancelled
    → armed_waits (remove i ws) ≡ armed_waits ws
armed_waits-remove [] i e = refl
armed_waits-remove (w ∷ ws) zero e = omega (arith, ap is_armed (some-injective _ _ e))
armed_waits-remove (w ∷ ws) (suc i) e = ap (λ n. is_armed w + n) (armed_waits-remove ws i e)

end_wait-IsTimed : (w : Option Wait) (i : ℕ) (s : Session) → IsTimed s → IsTimed (end_wait w i s)
unfolding waited
end_wait-IsTimed none i s h = h
end_wait-IsTimed (some no_wait) i s h = h
end_wait-IsTimed (some (armed expiry)) i s h = elim (Bool-cases (leb expiry s.now)) [
  | inl due ↦ rw due (inl refl)
  | inr early ↦ rw early h
]
end_wait-IsTimed (some cancelled) i s h = inl refl

abort_wait-IsTimed :
    (w : Option Wait) (i : ℕ) (s : Session)
    → get_elem? s.waits i ≡ w
    → IsTimed s
    → IsTimed (abort_wait w i s)
unfolding waited
abort_wait-IsTimed none i s e h = h
abort_wait-IsTimed (some no_wait) i s e h = h
abort_wait-IsTimed (some (armed expiry)) i s e h = h
abort_wait-IsTimed (some cancelled) i s e h = elim h [
  | inl closed ↦ inl closed
  | inr (inl returned) ↦ inr (inl returned)
  | inr (inr timed) ↦ inr (inr (omega (arith, timed, armed_waits-remove s.waits i e)))
]

react-IsTimed : (c : Completion) (o : Operation) (s : Session) → IsTimed s → IsTimed (react c o s)
unfolding react begin_wait cancel_timer start_timeout echo echo_received echo_written
react-IsTimed wait_begins o s h = elim (Bool-cases (s.spawned == 0)) [
  | inl all_begun ↦ rw all_begun h
  | inr some_left ↦
      rw some_left
        (inr (inr (omega (arith, armed_waits-append (map cancel s.waits) (s.now + s.timeout)))))
]
react-IsTimed (wait_ended i) o s h = end_wait-IsTimed (get_elem? s.waits i) i s h
react-IsTimed (wait_cancelled i) o s h = abort_wait-IsTimed (get_elem? s.waits i) i s refl h
react-IsTimed (data_received bytes) receiving s h =
    elim (Bool-cases (leb (length bytes) (length s.buffer))) [
      | inl fits ↦ rw fits (inr (inr (omega arith)))
      | inr over ↦ rw over h
    ]
react-IsTimed receive_failed receiving s h = inr (inl refl)
react-IsTimed all_written (writing n) s h = inr (inr (omega arith))
react-IsTimed (write_failed count) (writing n) s h = inr (inl refl)
react-IsTimed (data_received bytes) no_operation s h = h
react-IsTimed (data_received bytes) (writing n) s h = h
react-IsTimed receive_failed no_operation s h = h
react-IsTimed receive_failed (writing n) s h = h
react-IsTimed all_written no_operation s h = h
react-IsTimed all_written receiving s h = h
react-IsTimed (write_failed count) no_operation s h = h
react-IsTimed (write_failed count) receiving s h = h

run_from-IsTimed : (cs : List (Completion × ℕ)) (s : Session) → IsTimed s → IsTimed (run cs s)
unfolding run
run_from-IsTimed [] s h = h
run_from-IsTimed ((c, elapsed) ∷ cs) s h =
    run_from-IsTimed cs (react c s.operation (record s { now = s.now + elapsed }))
      (react-IsTimed c s.operation (record s { now = s.now + elapsed }) h)

-- Whatever completes, and after whatever times: as long as the socket is open and the session echoes, a timeout is coming, in
-- a coroutine that has not begun yet or by a wait that is armed.
pub run-IsTimed :
    (timeout now : ℕ) (cs : List (Completion × ℕ))
    → IsTimed (run cs (start_with_timeout timeout now))
unfolding start_with_timeout echo start_timeout
run-IsTimed timeout now cs =
    run_from-IsTimed cs (start_with_timeout timeout now) (inr (inr (omega arith)))
