-- ===== src/CoroutineServer/Agreement.antt =====
-- asio/echo/co_server.cc and asio/echo/server.cc: the session of coroutines against that of handlers.
use mathlib.Core.Path.{subst}
use snippets_cc.Prelude.{
  ℕ, ◌-◌, ◌≤◌, ◌≡◌, refl, sym, ap, ◌∙◌, Bool, true, false, inl, inr, List, [], ◌∷◌, ◌++◌, leb,
  length, take, drop, replicate, Bool-cases, append-nil, length-append, length-replicate,
  take-append, length-drop, length-take, arith,
}
use snippets_cc.Asio.{
  Operation, no_operation, receiving, writing, Wait, no_wait, armed, cancelled, cancel, resize,
  Event, data_received, receive_failed, all_written, write_failed, wait_ended, wait_cancelled,
}
use snippets_cc.CoroutineServer.{
  max_receive, Session, echo, echo_received, echo_written, watch, watch_waited, start_with_watchdog,
  start_watchdog, react, step, run, transmit,
}
use snippets_cc.EchoServer
use snippets_cc.EchoServer.Events

-- The session of handlers with the same members, apart from its socket and its buffer.
abbrev handlers : Bool → List ℕ → Session → EchoServer.Session
handlers is_open buffer s = record {
  is_open = is_open;
  timeout = s.timeout;
  deadline = s.deadline;
  buffer = buffer;
  operation = s.operation;
  wait = s.wait;
  now = s.now;
  received = s.received;
  sent = s.sent;
}

-- A coroutine that sends has cut its buffer to what it sends.
abbrev AgreeBuffers : Operation → List ℕ → List ℕ → Type 0
AgreeBuffers no_operation cut buffer = length buffer ≡ max_receive
AgreeBuffers receiving cut buffer = (length buffer ≡ max_receive) × (length cut ≡ max_receive)
AgreeBuffers (writing n) cut buffer = (length buffer ≡ max_receive) × (cut ≡ take n buffer)

abbrev Agree : Session → EchoServer.Session → Type 0
Agree s t = (o : Bool) × (b : List ℕ) × (t ≡ handlers o b s) × AgreeBuffers s.operation s.buffer b

length-resize : (n : ℕ) (xs : List ℕ) → length (resize n xs) ≡ n
length-resize n xs =
    length-append (take n xs) (replicate (n - length xs) 0)
    ∙ omega (arith, length-take n xs, length-drop n xs, length-replicate {A = ℕ} (n - length xs) 0)

replicate-zero : (n : ℕ) → n ≡ 0 → replicate {A = ℕ} n 0 ≡ []
replicate-zero n e = rw e refl

pub resize-append : (xs ys : List ℕ) → resize (length xs) (xs ++ ys) ≡ xs
resize-append xs ys =
    ap (take (length xs) (xs ++ ys) ++◌)
      (replicate-zero (length xs - length (xs ++ ys)) (omega (arith, length-append xs ys)))
    ∙ append-nil _
    ∙ take-append xs ys

length-overwrite :
    (n : ℕ) (xs ys : List ℕ)
    → length ys ≡ n
    → length xs ≤ n
    → length (xs ++ drop (length xs) ys) ≡ n
length-overwrite n xs ys e le =
    length-append xs (drop (length xs) ys) ∙ omega (arith, length-drop (length xs) ys)

-- `start_watchdog` of the handlers and `watch` of the coroutines look at the same deadline.
watch-Agree :
    (is_open : Bool) (b : List ℕ) (s : Session)
    → s.wait ≡ no_wait
    → AgreeBuffers s.operation s.buffer b
    → Agree (watch s) (EchoServer.start_watchdog (handlers is_open b s))
unfolding watch EchoServer.start_watchdog EchoServer.stop
watch-Agree op b s e h = elim (Bool-cases (leb s.deadline s.now)) [
  | inl late ↦
      rw late
        (false, b, ap (λ w. record (handlers false b s) { wait = w }) (ap cancel e ∙ sym e), h)
  | inr early ↦ rw early (op, b, refl, h)
]

react-Agree :
    (e : Event) (o : Operation) (w : Wait) (is_open : Bool) (b : List ℕ) (s : Session)
    → s.operation ≡ o
    → AgreeBuffers o s.buffer b
    → Agree (react e o w s) (EchoServer.Events.react e o w (handlers is_open b s))
unfolding react echo echo_received echo_written watch watch_waited EchoServer.Events.react
    EchoServer.handle_receive EchoServer.handle_write EchoServer.handle_wait EchoServer.stop
    EchoServer.receive_with_watchdog EchoServer.send_with_watchdog EchoServer.start_watchdog
react-Agree (data_received bytes) receiving w op b s e h =
    elim (Bool-cases (leb (length bytes) max_receive)) [
      | inl fits ↦
          rw (h.0, h.1, fits)
            (
              op,
              bytes ++ drop (length bytes) b,
              refl,
              (
                length-overwrite max_receive bytes b h.0 (ground arith),
                resize-append bytes (drop (length bytes) s.buffer)
                    ∙ sym (take-append bytes (drop (length bytes) b)),
              ),
            )
      | inr over ↦ rw (h.0, h.1, over) (op, b, refl, rw e h)
    ]
react-Agree receive_failed receiving w op b s e h = (false, b, refl, h.0)
react-Agree all_written (writing n) w op b s e h = (
  op,
  b,
  ap (λ c. record (handlers op b (echo (transmit n s))) { sent = s.sent ++ take n c }) (sym h.1),
  (h.0, length-resize max_receive s.buffer),
)
react-Agree (write_failed count) (writing n) w op b s e h = (
  false,
  b,
  ap
      (λ c. record (handlers false b (echo_written true (transmit count s))) {
        sent = s.sent ++ take count c;
      })
      (sym h.1),
  h.0,
)
react-Agree (data_received bytes) no_operation w op b s e h = (op, b, refl, rw e h)
react-Agree (data_received bytes) (writing n) w op b s e h = (op, b, refl, rw e h)
react-Agree receive_failed no_operation w op b s e h = (op, b, refl, rw e h)
react-Agree receive_failed (writing n) w op b s e h = (op, b, refl, rw e h)
react-Agree all_written no_operation w op b s e h = (op, b, refl, rw e h)
react-Agree all_written receiving w op b s e h = (op, b, refl, rw e h)
react-Agree (write_failed count) no_operation w op b s e h = (op, b, refl, rw e h)
react-Agree (write_failed count) receiving w op b s e h = (op, b, refl, rw e h)
react-Agree wait_ended o (armed expiry) op b s e h = elim (Bool-cases (leb expiry s.now)) [
  | inl due ↦ rw due (watch-Agree op b (record s { wait = no_wait }) refl (rw e h))
  | inr early ↦ rw early (op, b, refl, rw e h)
]
react-Agree wait_ended o cancelled op b s e h =
    watch-Agree op b (record s { wait = no_wait }) refl (rw e h)
react-Agree wait_ended o no_wait op b s e h = (op, b, refl, rw e h)
react-Agree wait_cancelled o no_wait op b s e h = (op, b, refl, rw e h)
react-Agree wait_cancelled o (armed expiry) op b s e h = (op, b, refl, rw e h)
react-Agree wait_cancelled o cancelled op b s e h = (op, b, refl, rw e h)

run-Agree :
    (es : List (Event × ℕ)) (s : Session) (t : EchoServer.Session)
    → Agree s t
    → Agree (run es s) (EchoServer.Events.run es t)
unfolding run step EchoServer.Events.run EchoServer.Events.step
run-Agree [] s t h = h
run-Agree ((e, elapsed) ∷ es) s t (o, b, eq, h) = run-Agree es _ _ (
    subst (λ u. Agree (step e elapsed s) (EchoServer.Events.step e elapsed u)) (sym eq)
      (react-Agree e s.operation s.wait o b _ refl h))

started-Agree :
    (timeout now : ℕ) (buffer : List ℕ)
    → length buffer ≡ max_receive
    → Agree
        (start_watchdog (start_with_watchdog timeout now))
        (EchoServer.Events.started timeout now buffer)
unfolding start_watchdog start_with_watchdog echo EchoServer.Events.started EchoServer.start
    EchoServer.make EchoServer.receive_with_watchdog
started-Agree timeout now buffer e =
    watch-Agree true buffer _ refl (e, length-resize max_receive [])

-- Whatever Boost.Asio completes, and after whatever times: when the watching coroutine begins before an operation
-- completes, and the buffer of the session of server.cc has `max_receive` bytes, the session of co_server.cc has received
-- and sent the same bytes as that of server.cc, waits for the same operation, and its timer is in the same state.
pub run-agrees :
    (timeout now : ℕ) (buffer : List ℕ) (es : List (Event × ℕ))
    → length buffer ≡ max_receive
    → let s = run es (start_watchdog (start_with_watchdog timeout now)) in
      let t = EchoServer.Events.run es (EchoServer.Events.started timeout now buffer) in
      (s.received ≡ t.received)
      × (s.sent ≡ t.sent)
      × (s.operation ≡ t.operation)
      × (s.wait ≡ t.wait)
run-agrees timeout now buffer es e =
    let (o, b, eq, h) = run-Agree es _ _ (started-Agree timeout now buffer e) in
    (
      ap (λ t. t.received) (sym eq),
      ap (λ t. t.sent) (sym eq),
      ap (λ t. t.operation) (sym eq),
      ap (λ t. t.wait) (sym eq),
    )
