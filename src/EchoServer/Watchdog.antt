-- ===== src/EchoServer/Watchdog.antt =====
-- asio/echo/server.cc: the timer and the deadline of a session with the watchdog.
use snippets_cc.Prelude.{
  ℕ, ◌+◌, ◌≤◌, ◌≡◌, refl, inl, inr, List, [], ◌∷◌, leb, length, Bool-cases, arith,
}
use snippets_cc.Asio.{Guards, Guards-later, Guards-cancelled}
use snippets_cc.EchoServer.{
  Operation, no_operation, receiving, writing, Wait, no_wait, armed, cancelled, Session, make, stop,
  start, start_watchdog, receive_with_watchdog, send_with_watchdog, handle_receive, handle_write,
  handle_wait,
}
use snippets_cc.EchoServer.Events.{
  Event, data_received, receive_failed, all_written, write_failed, wait_ended, wait_cancelled,
  react, step, run, started,
}

-- The watchdog is armed as long as the session is open, and the deadline is not further than the
-- timeout from now.
abbrev pub IsGuarded : Session → Type 0
IsGuarded s = Guards s.is_open s.wait s.deadline × (s.deadline ≤ s.now + s.timeout)

-- `start_watchdog` arms the wait, or stops.
start_watchdog-IsGuarded :
    (s : Session) → s.deadline ≤ s.now + s.timeout → IsGuarded (start_watchdog s)
unfolding start_watchdog stop
start_watchdog-IsGuarded s le = elim (Bool-cases (leb s.deadline s.now)) [
  | inl late ↦ rw late (tt, le)
  | inr early ↦
      rw early
        (elim (Bool-cases s.is_open) [ inl o ↦ rw o (omega arith, le) | inr o ↦ rw o (tt, le) ])
]

react-IsGuarded :
    (e : Event) (o : Operation) (w : Wait) (s : Session)
    → s.wait ≡ w
    → IsGuarded s
    → IsGuarded (react e o w s)
unfolding react handle_receive handle_write handle_wait stop receive_with_watchdog
    send_with_watchdog
react-IsGuarded (data_received bytes) receiving w s eq h =
    elim (Bool-cases (leb (length bytes) (length s.buffer))) [
      | inl fits ↦ rw fits (Guards-later s.is_open s.wait _ _ (h.1) (h.0), omega arith)
      | inr over ↦ rw over h
    ]
react-IsGuarded receive_failed receiving w s eq h = (tt, h.1)
react-IsGuarded all_written (writing n) w s eq h =
    (Guards-later s.is_open s.wait _ _ (h.1) (h.0), omega arith)
react-IsGuarded (write_failed count) (writing n) w s eq h = (tt, h.1)
react-IsGuarded (data_received bytes) no_operation w s eq h = h
react-IsGuarded (data_received bytes) (writing n) w s eq h = h
react-IsGuarded receive_failed no_operation w s eq h = h
react-IsGuarded receive_failed (writing n) w s eq h = h
react-IsGuarded all_written no_operation w s eq h = h
react-IsGuarded all_written receiving w s eq h = h
react-IsGuarded (write_failed count) no_operation w s eq h = h
react-IsGuarded (write_failed count) receiving w s eq h = h
react-IsGuarded wait_ended o (armed expiry) s eq h = elim (Bool-cases (leb expiry s.now)) [
  | inl due ↦ rw due (start_watchdog-IsGuarded _ (h.1))
  | inr early ↦ rw early h
]
react-IsGuarded wait_ended o cancelled s eq h = start_watchdog-IsGuarded _ (h.1)
react-IsGuarded wait_ended o no_wait s eq h = h
react-IsGuarded wait_cancelled o no_wait s eq h = h
react-IsGuarded wait_cancelled o (armed expiry) s eq h = h
react-IsGuarded wait_cancelled o cancelled s eq h =
    (Guards-cancelled s.is_open s.deadline (rw eq at (h.0)), h.1)

pub run-IsGuarded : (es : List (Event × ℕ)) (s : Session) → IsGuarded s → IsGuarded (run es s)
unfolding run step
run-IsGuarded [] s h = h
run-IsGuarded ((e, elapsed) ∷ es) s h =
    run-IsGuarded es (step e elapsed s)
      (react-IsGuarded e s.operation s.wait _ refl (h.0, omega (arith, h.1)))

-- Whatever Boost.Asio completes, and after whatever times, as long as a started session is open its timer is armed,
-- for its deadline at the latest, and the deadline is at most the timeout away.
pub started-IsGuarded :
    (timeout now : ℕ) (buffer : List ℕ) (es : List (Event × ℕ))
    → IsGuarded (run es (started timeout now buffer))
unfolding started start make receive_with_watchdog
started-IsGuarded timeout now buffer es =
    run-IsGuarded es _ (start_watchdog-IsGuarded _ (omega arith))
