-- ===== src/EchoServer/Echo.antt =====
-- asio/echo/server.cc: what a session has received against what it has sent.
use snippets_cc.Prelude.{
  ℕ, ◌+◌, ◌≡◌, refl, sym, ap, ◌∙◌, inl, inr, List, [], ◌∷◌, ◌++◌, leb, length, take, append-nil,
  append_assoc, Bool-cases, take_of_length-le, length-take-le, take-drop, take-append, drop,
}
use snippets_cc.Asio.{Owes}
use snippets_cc.EchoServer.{
  Operation, no_operation, receiving, writing, Wait, no_wait, armed, cancelled, Session, make, stop,
  start, start_watchdog, receive_with_watchdog, send_with_watchdog, handle_receive, handle_write,
  handle_wait,
}
use snippets_cc.EchoServer.Events.{
  Event, data_received, receive_failed, all_written, write_failed, wait_ended, wait_cancelled,
  react, step, run, started,
}

-- A session in which the pending operation owes what is missing.
abbrev pub IsBalanced : Session → Type 0
IsBalanced s = Owes s.operation s.received s.sent s.buffer

react-Owes :
    (e : Event) (o : Operation) (w : Wait) (s : Session)
    → s.operation ≡ o
    → Owes o s.received s.sent s.buffer
    → IsBalanced (react e o w s)
unfolding react handle_receive handle_write handle_wait stop receive_with_watchdog
    send_with_watchdog start_watchdog
react-Owes (data_received bytes) receiving w s e h =
    elim (Bool-cases (leb (length bytes) (length s.buffer))) [
      | inl fits ↦ rw fits (rw (take-append bytes (drop (length bytes) s.buffer)) (rw h refl))
      | inr over ↦ rw over (rw e h)
    ]
react-Owes receive_failed receiving w s e h = ([], h ∙ sym (append-nil s.sent))
react-Owes all_written (writing n) w s e h =
    h ∙ sym (ap (s.sent ++◌) (take_of_length-le n (take n s.buffer) (length-take-le n s.buffer)))
react-Owes (write_failed count) (writing n) w s e h = (
  drop count (take n s.buffer),
  h ∙ ap (s.sent ++◌) (sym (take-drop count (take n s.buffer))) ∙ sym (append_assoc s.sent _ _),
)
react-Owes (data_received bytes) no_operation w s e h = rw e h
react-Owes (data_received bytes) (writing n) w s e h = rw e h
react-Owes receive_failed no_operation w s e h = rw e h
react-Owes receive_failed (writing n) w s e h = rw e h
react-Owes all_written no_operation w s e h = rw e h
react-Owes all_written receiving w s e h = rw e h
react-Owes (write_failed count) no_operation w s e h = rw e h
react-Owes (write_failed count) receiving w s e h = rw e h
react-Owes wait_ended o (armed expiry) s e h = elim (Bool-cases (leb expiry s.now)) [
  | inl due ↦ rw due (elim (Bool-cases (leb s.deadline s.now)) [
    | inl late ↦ rw late (rw e h)
    | inr early ↦ rw early (rw e h)
  ])
  | inr early ↦ rw early (rw e h)
]
react-Owes wait_ended o cancelled s e h = elim (Bool-cases (leb s.deadline s.now)) [
  | inl late ↦ rw late (rw e h)
  | inr early ↦ rw early (rw e h)
]
react-Owes wait_ended o no_wait s e h = rw e h
react-Owes wait_cancelled o no_wait s e h = rw e h
react-Owes wait_cancelled o (armed expiry) s e h = rw e h
react-Owes wait_cancelled o cancelled s e h = rw e h

pub run-Owes : (es : List (Event × ℕ)) (s : Session) → IsBalanced s → IsBalanced (run es s)
unfolding run step
run-Owes [] s h = h
run-Owes ((e, elapsed) ∷ es) s h =
    run-Owes es (step e elapsed s) (react-Owes e s.operation s.wait _ refl h)

started-IsBalanced : (timeout now : ℕ) (buffer : List ℕ) → IsBalanced (started timeout now buffer)
unfolding started start make start_watchdog receive_with_watchdog stop
started-IsBalanced timeout now buffer = elim (Bool-cases (leb (now + timeout) now)) [
  | inl late ↦ rw late refl
  | inr early ↦ rw early refl
]

-- Whatever Boost.Asio completes, and after whatever times, what a started session has sent is the first part of
-- what it has received: all of it while it waits for more, all but the bytes of the buffer that it is sending
-- while it sends, and some part after a failed operation.
pub received-sent :
    (timeout now : ℕ) (buffer : List ℕ) (es : List (Event × ℕ))
    → IsBalanced (run es (started timeout now buffer))
received-sent timeout now buffer es =
    run-Owes es (started timeout now buffer) (started-IsBalanced timeout now buffer)
