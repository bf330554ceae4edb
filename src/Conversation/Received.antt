-- ===== src/Conversation/Received.antt =====
-- asio/echo/server.cc: what an event adds to the bytes that a session has received.
use snippets_cc.Prelude.{
  ℕ, ◌≡◌, refl, Option, none, some, inl, inr, List, [], ◌∷◌, leb, length, Bool-cases,
}
use snippets_cc.Asio.{Operation, no_operation, receiving, writing, Wait, no_wait, armed, cancelled}
use snippets_cc.Conversation.{Grows}
use snippets_cc.EchoServer.{
  make, start, Session, stop, start_watchdog, receive_with_watchdog, send_with_watchdog,
  handle_receive, handle_write, handle_wait,
}
use snippets_cc.EchoServer.Timeout.{
  react_timeout, receive_handler, write_handler, timeout_handler, receive_with_timeout,
  send_with_timeout, start_timeout, run_timeout,
}
use snippets_cc.EchoServer.Events.{
  started, Event, data_received, receive_failed, all_written, write_failed, wait_ended,
  wait_cancelled, react, step,
}

-- The bytes that an event brings.
abbrev pub arrives : Event → Option (List ℕ)
arrives (data_received bytes) = some bytes
arrives _ = none

start_watchdog-received : (s : Session) → (start_watchdog s).received ≡ s.received
unfolding start_watchdog stop
start_watchdog-received s = elim (Bool-cases (leb s.deadline s.now)) [
  | inl late ↦ rw late refl
  | inr early ↦ rw early refl
]

-- The session has received what it had, or the bytes of the event too.
react-received :
    (e : Event) (o : Operation) (w : Wait) (s : Session)
    → Grows (arrives e) s.received (react e o w s).received
unfolding react handle_receive handle_write handle_wait stop receive_with_watchdog
    send_with_watchdog
react-received (data_received bytes) receiving w s =
    elim (Bool-cases (leb (length bytes) (length s.buffer))) [
      | inl fits ↦ rw fits (inr (bytes, refl, refl))
      | inr over ↦ rw over (inl refl)
    ]
react-received receive_failed receiving w s = inl refl
react-received all_written (writing n) w s = inl refl
react-received (write_failed count) (writing n) w s = inl refl
react-received (data_received bytes) no_operation w s = inl refl
react-received (data_received bytes) (writing n) w s = inl refl
react-received receive_failed no_operation w s = inl refl
react-received receive_failed (writing n) w s = inl refl
react-received all_written no_operation w s = inl refl
react-received all_written receiving w s = inl refl
react-received (write_failed count) no_operation w s = inl refl
react-received (write_failed count) receiving w s = inl refl
react-received wait_ended o (armed expiry) s = elim (Bool-cases (leb expiry s.now)) [
  | inl due ↦ rw due (inl (start_watchdog-received (record s { wait = no_wait })))
  | inr early ↦ rw early (inl refl)
]
react-received wait_ended o cancelled s =
    inl (start_watchdog-received (record s { wait = no_wait }))
react-received wait_ended o no_wait s = inl refl
react-received wait_cancelled o no_wait s = inl refl
react-received wait_cancelled o (armed expiry) s = inl refl
react-received wait_cancelled o cancelled s = inl refl

pub step-received :
    (e : Event) (elapsed : ℕ) (s : Session)
    → Grows (arrives e) s.received (step e elapsed s).received
unfolding step
step-received e elapsed s = react-received e s.operation s.wait _

pub started-received :
    (timeout now : ℕ) (buffer : List ℕ) → (started timeout now buffer).received ≡ []
unfolding started start make receive_with_watchdog
started-received timeout now buffer =
    start_watchdog-received (receive_with_watchdog (make timeout now buffer))

react_timeout-received :
    (e : Event) (o : Operation) (s : Session)
    → Grows (arrives e) s.received (react_timeout e o s).received
unfolding react_timeout receive_handler write_handler timeout_handler receive_with_timeout
    send_with_timeout start_timeout stop
react_timeout-received (data_received bytes) receiving s =
    elim (Bool-cases (leb (length bytes) (length s.buffer))) [
      | inl fits ↦ rw fits (inr (bytes, refl, refl))
      | inr over ↦ rw over (inl refl)
    ]
react_timeout-received receive_failed receiving s = inl refl
react_timeout-received all_written (writing n) s = inl refl
react_timeout-received (write_failed count) (writing n) s = inl refl
react_timeout-received (data_received bytes) no_operation s = inl refl
react_timeout-received (data_received bytes) (writing n) s = inl refl
react_timeout-received receive_failed no_operation s = inl refl
react_timeout-received receive_failed (writing n) s = inl refl
react_timeout-received all_written no_operation s = inl refl
react_timeout-received all_written receiving s = inl refl
react_timeout-received (write_failed count) no_operation s = inl refl
react_timeout-received (write_failed count) receiving s = inl refl
react_timeout-received wait_ended o s = inl refl
react_timeout-received wait_cancelled o s = inl refl

pub run_timeout-received :
    (e : Event) (elapsed : ℕ) (s : Session)
    → Grows (arrives e) s.received (run_timeout ((e, elapsed) ∷ []) s).received
unfolding run_timeout
run_timeout-received e elapsed s = react_timeout-received e s.operation _
