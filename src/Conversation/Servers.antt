-- ===== src/Conversation/Servers.antt =====
-- asio/echo/server.cc: the sessions of the echo server as the other end of a conversation, in both modes.
use snippets_cc.Prelude.{ℕ, refl, List, [], ◌∷◌, ◌++◌}
use snippets_cc.EchoServer.{Session}
use snippets_cc.EchoServer.Events.{Event, step, run, started}
use snippets_cc.EchoServer.Echo.{IsBalanced, run-Owes, received-sent}
use snippets_cc.EchoServer.Timeout.{
  run_timeout, started_timeout, run_timeout-IsBalanced, receive_with_timeout, start_timeout,
}
use snippets_cc.EchoServer
use snippets_cc.Conversation.{PeerOps, PeerLaws, System, Reach, in_flight}
use snippets_cc.Conversation.Streams.{answered-IsPrefix}
use snippets_cc.Conversation.Received.{
  arrives, step-received, started-received, run_timeout-received,
}
use snippets_cc.Conversation.Echoes.{ReadsHello, Reach-ReadsHello}

-- The bytes that a session has given to its writes, the pending one included.
abbrev pub answered : Session → List ℕ
answered s = s.sent ++ in_flight s.operation s.buffer

unfoldable pub watched : PeerOps Session Event
watched = record { step = step; received = λ s. s.received; answered = answered; arrives = arrives }

unfoldable pub timed : PeerOps Session Event
timed = record {
  step = λ e elapsed. run_timeout ((e, elapsed) ∷ []);
  received = λ s. s.received;
  answered = answered;
  arrives = arrives;
}

-- Any completion may come at any time.
abbrev pub Anytime : Event → Session → Type 0
Anytime e s = Unit {0}

pub watched_laws : PeerLaws watched Anytime IsBalanced
unfolding watched run
watched_laws = record {
  keeps = λ e elapsed s allowed. run-Owes ((e, elapsed) ∷ []) s;
  echoes = λ s. answered-IsPrefix s.operation s.received s.sent s.buffer;
  grows = λ e elapsed s v. step-received e elapsed s;
}

pub timed_laws : PeerLaws timed Anytime IsBalanced
unfolding timed
timed_laws = record {
  keeps = λ e elapsed s allowed. run_timeout-IsBalanced ((e, elapsed) ∷ []) s;
  echoes = λ s. answered-IsPrefix s.operation s.received s.sent s.buffer;
  grows = λ e elapsed s v. run_timeout-received e elapsed s;
}

-- A client session that is connected to a session of the echo server with the watchdog: however TCP cuts the bytes into pieces, whatever fails and
-- whatever the times, the reads of the client have delivered its message once each, each has been counted in `echoes`, modulo
-- 2 ^ 32, and a read that TCP may complete next delivers the message.
pub watched-ReadsHello :
    (timeout now : ℕ) (buffer : List ℕ) {s : System Session}
    → Reach watched Anytime (started timeout now buffer) s
    → ReadsHello watched s
unfolding watched run
watched-ReadsHello timeout now buffer r =
    Reach-ReadsHello watched Anytime IsBalanced watched_laws (received-sent timeout now buffer [])
      (started-received timeout now buffer) r

-- The same with the mode that has a timeout for each operation.
pub timed-ReadsHello :
    (timeout now : ℕ) (buffer : List ℕ) {s : System Session}
    → Reach timed Anytime (started_timeout timeout now buffer) s
    → ReadsHello timed s
unfolding timed started_timeout receive_with_timeout start_timeout EchoServer.make
timed-ReadsHello timeout now buffer r =
    Reach-ReadsHello timed Anytime IsBalanced timed_laws refl refl r
