-- ===== src/EchoServer/Timeout.antt =====
-- asio/echo/server.cc, class session in the mode with a timeout for each operation (`start (true)`).
-- `expires_after` gives up the wait before it, so `wait` is the last one. A wait that has expired may
-- complete with success though it was cancelled since; so `wait_ended` is let happen at any time.
use snippets_cc.Prelude.{
  drop, take-drop, take-append, ℕ, ◌+◌, ◌≡◌, refl, sym, ap, ◌∙◌, Bool, true, false, inl, inr, List,
  [], ◌∷◌, ◌++◌, leb, if◌then◌else◌, length, take, append-nil, append_assoc, Bool-cases,
  take_of_length-le, length-take-le,
}
use snippets_cc.EchoServer.{
  Operation, no_operation, receiving, writing, armed, cancel, Session, make, stop,
}
use snippets_cc.EchoServer.Events.{
  Event, data_received, receive_failed, all_written, write_failed, wait_ended, wait_cancelled,
  advance, completed, deliver, transmit,
}
use snippets_cc.EchoServer.Echo.{IsBalanced}
use snippets_cc.Asio.{Owes}

unfoldable pub start_timeout : Session → Session
start_timeout s = record s { wait = armed (s.now + s.timeout) }

unfoldable pub receive_with_timeout : Session → Session
receive_with_timeout s = start_timeout (record s { operation = receiving })

unfoldable pub send_with_timeout : ℕ → Session → Session
send_with_timeout bytes s = start_timeout (record s { operation = writing bytes })

-- The lambdas, each with `timer_.cancel ()` first.
unfoldable pub receive_handler : (error : Bool) (bytes : ℕ) → Session → Session
receive_handler error bytes s =
    let s' = record s { wait = cancel s.wait } in
    if error then stop s' else send_with_timeout bytes s'

unfoldable pub write_handler : (error : Bool) → Session → Session
write_handler error s =
    let s' = record s { wait = cancel s.wait } in if error then stop s' else receive_with_timeout s'

unfoldable pub timeout_handler : (error : Bool) → Session → Session
timeout_handler error s = if error then s else stop s

unfoldable pub react_timeout : Event → Operation → Session → Session
react_timeout (data_received bytes) receiving s =
    if leb (length bytes) (length s.buffer)
    then receive_handler false (length bytes) (deliver bytes s)
    else s
react_timeout receive_failed receiving s = receive_handler true 0 (completed s)
react_timeout all_written (writing bytes) s = write_handler false (transmit bytes bytes s)
react_timeout (write_failed count) (writing bytes) s = write_handler true (transmit count bytes s)
react_timeout wait_ended o s = timeout_handler false s
react_timeout wait_cancelled o s = timeout_handler true s
react_timeout _ _ s = s

-- The events, each after the time since the one before.
unfoldable pub run_timeout : List (Event × ℕ) → Session → Session
run_timeout [] s = s
run_timeout ((e, elapsed) ∷ es) s =
    let s' = advance elapsed s in run_timeout es (react_timeout e s'.operation s')

-- `start (true)` of a new session.
unfoldable pub started_timeout : (timeout now : ℕ) → List ℕ → Session
started_timeout timeout now buffer = receive_with_timeout (make timeout now buffer)

react_timeout-IsBalanced :
    (e : Event) (o : Operation) (s : Session)
    → s.operation ≡ o
    → Owes o s.received s.sent s.buffer
    → IsBalanced (react_timeout e o s)
unfolding react_timeout receive_handler write_handler timeout_handler receive_with_timeout
    send_with_timeout start_timeout stop
react_timeout-IsBalanced (data_received bytes) receiving s e h =
    elim (Bool-cases (leb (length bytes) (length s.buffer))) [
      | inl fits ↦ rw fits (rw (take-append bytes (drop (length bytes) s.buffer)) (rw h refl))
      | inr over ↦ rw over (rw e h)
    ]
react_timeout-IsBalanced receive_failed receiving s e h = ([], h ∙ sym (append-nil s.sent))
react_timeout-IsBalanced all_written (writing n) s e h =
    h ∙ sym (ap (s.sent ++◌) (take_of_length-le n (take n s.buffer) (length-take-le n s.buffer)))
react_timeout-IsBalanced (write_failed count) (writing n) s e h = (
  drop count (take n s.buffer),
  h ∙ ap (s.sent ++◌) (sym (take-drop count (take n s.buffer))) ∙ sym (append_assoc s.sent _ _),
)
react_timeout-IsBalanced (data_received bytes) no_operation s e h = rw e h
react_timeout-IsBalanced (data_received bytes) (writing n) s e h = rw e h
react_timeout-IsBalanced receive_failed no_operation s e h = rw e h
react_timeout-IsBalanced receive_failed (writing n) s e h = rw e h
react_timeout-IsBalanced all_written no_operation s e h = rw e h
react_timeout-IsBalanced all_written receiving s e h = rw e h
react_timeout-IsBalanced (write_failed count) no_operation s e h = rw e h
react_timeout-IsBalanced (write_failed count) receiving s e h = rw e h
react_timeout-IsBalanced wait_ended o s e h = rw e h
react_timeout-IsBalanced wait_cancelled o s e h = rw e h

pub run_timeout-IsBalanced :
    (es : List (Event × ℕ)) (s : Session) → IsBalanced s → IsBalanced (run_timeout es s)
unfolding run_timeout
run_timeout-IsBalanced [] s h = h
run_timeout-IsBalanced ((e, elapsed) ∷ es) s h =
    run_timeout-IsBalanced es _ (react_timeout-IsBalanced e s.operation (advance elapsed s) refl h)

-- In the mode with a timeout for each operation too, whatever Boost.Asio completes and whenever, late ends of waits
-- included, what a session has sent is the first part of what it has received, as in the mode with the watchdog.
pub received-sent_timeout :
    (timeout now : ℕ) (buffer : List ℕ) (es : List (Event × ℕ))
    → IsBalanced (run_timeout es (started_timeout timeout now buffer))
unfolding started_timeout receive_with_timeout start_timeout make
received-sent_timeout timeout now buffer es = run_timeout-IsBalanced es _ refl
