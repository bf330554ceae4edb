-- ===== src/Conversation/Rounds.antt =====
-- asio/echo/client.cc and asio/echo/server.cc: a round of the conversation.
use mathlib.Core.Path.{subst}
use snippets_cc.Prelude.{
  ℕ, zero, suc, ◌+◌, ◌≤◌, ◌<◌, ◌≡◌, refl, sym, ap, ◌∙◌, true, false, List, [], ◌∷◌, ◌++◌, length,
  length-drop, take, drop, leb, append-nil, arith,
}
use snippets_cc.Asio.{receiving, Wait, armed}
use snippets_cc.EchoClient
use snippets_cc.EchoClient.{hello}
use snippets_cc.EchoClient.Sessions.{Completion, failure, success}
use snippets_cc.EchoClient.Sessions
use snippets_cc.EchoServer
use snippets_cc.EchoServer.Events.{Event, data_received, all_written}
use snippets_cc.EchoServer.Events
use snippets_cc.Conversation.Echoes.{length-resize}
use snippets_cc.Conversation.{
  System, client_at, client_turn, server_turn, client_step, server_step, start, Reach, here,
  then_step,
}
use snippets_cc.Conversation.Servers.{watched, Anytime}

-- What the sessions hold, but for the operation that the client has pending; the server has answered all and receives.
record Talk : Type 0 where
  send_buffer : List ℕ
  recv_buffer : List ℕ
  statistics : EchoClient.Statistics
  timeout : ℕ
  deadline : ℕ
  wait : Wait
  now : ℕ
  buffer : List ℕ
  given : List ℕ
  received : List ℕ
  sent : List ℕ
  delivered : List ℕ
  reads : ℕ

abbrev system : EchoClient.Pending → Talk → System EchoServer.Session
system pending q = record {
  client = record { pending = pending; send_buffer = q.send_buffer; recv_buffer = q.recv_buffer };
  statistics = q.statistics;
  server = record {
    is_open = true;
    timeout = q.timeout;
    deadline = q.deadline;
    buffer = q.buffer;
    operation = receiving;
    wait = q.wait;
    now = q.now;
    received = q.received;
    sent = q.sent;
  };
  given = q.given;
  delivered = q.delivered;
  reads = q.reads;
}

-- The server has received what the client gave before, and the client has read what the server sent; the message fits.
record IsLevel (q : Talk) : Type 0 where
  arrived : q.received ≡ q.given
  read : q.delivered ≡ q.sent
  room : 12 ≤ length q.buffer

-- The client begins to write the message.
abbrev write : Talk → Talk
write q = record q {
  send_buffer = hello;
  recv_buffer = EchoClient.resize 12 q.recv_buffer;
  given = q.given ++ hello;
  delivered = q.delivered ++ [];
  reads = q.reads + 0;
}

-- After that the server receives and sends it, and the client reads it.
abbrev complete : Talk → Talk
complete q = record q {
  recv_buffer = hello;
  statistics = record q.statistics { echoes = EchoClient.increment q.statistics.echoes };
  deadline = q.now + 0 + 0 + q.timeout;
  now = q.now + 0 + 0;
  buffer = hello ++ drop 12 q.buffer;
  given = (q.given ++ []) ++ [];
  received = q.received ++ hello;
  sent = q.sent ++ hello;
  delivered = (q.delivered ++ []) ++ hello;
  reads = q.reads + 0 + 1;
}

take-zero : (xs : List ℕ) → take 0 xs ≡ []
take-zero [] = refl
take-zero (x ∷ xs) = refl

module _ (timeout now : ℕ) (buffer : List ℕ) where
  abbrev Reached : EchoClient.Pending → Talk → Type 0
  Reached p q = Reach watched Anytime (EchoServer.Events.started timeout now buffer) (system p q)

  begin : (q : Talk) → Reached EchoClient.waiting q → Reached EchoClient.writing (write q)
  unfolding watched client_turn client_at EchoClient.Sessions.react EchoClient.handle_wait
      EchoClient.start
  begin q r = then_step r (client_step (success []) (λ e. cc))

  -- The message that the client has begun to write comes back.
  round :
      (q : Talk)
      → IsLevel q
      → Reached EchoClient.writing (write q)
      → Reached EchoClient.waiting (complete (write q))
  unfolding watched client_turn client_at server_turn EchoClient.Sessions.react
      EchoClient.handle_write EchoClient.handle_read EchoServer.Events.step EchoServer.Events.react
      EchoServer.handle_receive EchoServer.handle_write EchoServer.send_with_watchdog
      EchoServer.receive_with_watchdog
  round q v r =
      let fits : leb 12 (length q.buffer) ≡ true = ground (arith, v.room) in
      let wrote = then_step r (client_step (success []) (λ e. cc)) in
      let came =
        then_step wrote
          (server_step (data_received hello) 0 tt ([], ap (λ xs. (xs ++ hello) ++ []) v.arrived)) in
      let none_left : take 0 (take 0 (drop 12 q.buffer)) ≡ [] =
        take-zero (take 0 (drop 12 q.buffer)) in
      let sent = then_step (rw fits at came) (server_step all_written 0 tt tt) in
      let back : ((((q.delivered ++ []) ++ []) ++ hello) ++ [] ≡ (q.sent ++ hello) ++ []) =
        ap (λ xs. (xs ++ hello) ++ [])
          (append-nil (q.delivered ++ []) ∙ append-nil q.delivered ∙ v.read) in
      then_step (rw none_left at sent)
        (client_step (success hello) (λ e. (sym (length-resize q.recv_buffer), ([], back))))

  complete-IsLevel : (q : Talk) → IsLevel q → IsLevel (complete (write q))
  complete-IsLevel q v = record {
    arrived =
        ap (λ xs. xs ++ hello) v.arrived ∙ sym (append-nil (q.given ++ hello)) ∙ sym (append-nil _);
    read =
        ap (λ xs. xs ++ hello) (append-nil (q.delivered ++ []) ∙ append-nil q.delivered ∙ v.read);
    room = omega (arith, v.room, length-drop 12 q.buffer);
  }

  -- From a round to the next.
  rounds :
      (n : ℕ) (q : Talk)
      → IsLevel q
      → Reached EchoClient.waiting q
      → (t : Talk) × (t.reads ≡ q.reads + n) × Reached EchoClient.waiting t
  rounds zero q v r = (q, omega arith, r)
  rounds (suc n) q v r =
      let q' = complete (write q) in
      let (t, e, r') = rounds n q' (complete-IsLevel q v) (round q v (begin q r)) in
      (t, omega (arith, e), r')

-- A session that has been accepted, and a client that begins to write after its `async_connect`.
connected : (timeout now : ℕ) (buffer : List ℕ) → Talk
connected timeout now buffer = record {
  send_buffer = [];
  recv_buffer = [];
  statistics = record { echoes = 0; failed = 0; connected = 1; completed = 1 };
  timeout = timeout;
  deadline = now + timeout;
  wait = armed (now + timeout);
  now = now;
  buffer = buffer;
  given = [];
  received = [];
  sent = [];
  delivered = [];
  reads = 0;
}

-- With a positive timeout the session is not stopped at once.
started_lem :
    (timeout now : ℕ) (buffer : List ℕ)
    → 0 < timeout
    → EchoServer.Events.started timeout now buffer
      ≡ (system EchoClient.connecting (connected timeout now buffer)).server
unfolding connected EchoServer.Events.started EchoServer.start EchoServer.make
    EchoServer.start_watchdog EchoServer.receive_with_watchdog
started_lem timeout now buffer lt =
    let early : leb (now + timeout) now ≡ false = ground arith in rw early refl

Reach-connected :
    (timeout now : ℕ) (buffer : List ℕ)
    → 0 < timeout
    → Reach watched Anytime
        (EchoServer.Events.started timeout now buffer)
        (system EchoClient.writing (write (connected timeout now buffer)))
unfolding connected start EchoClient.make client_turn client_at EchoClient.Sessions.react
    EchoClient.handle_connect EchoClient.start
Reach-connected timeout now buffer lt =
    let server = EchoServer.Events.started timeout now buffer in
    let r : Reach watched Anytime server
        (start (system EchoClient.connecting (connected timeout now buffer)).server) =
      subst (λ x. Reach watched Anytime server (start x)) (started_lem timeout now buffer lt)
        here in
    then_step r (client_step (success []) (λ e. cc))

-- The conversation can go on for ever: with a positive timeout and a buffer of at least 12 bytes (the server has 5 seconds
-- and 1024), for each positive number there is a run in which the client has read so many messages and waits for the next
-- round.
pub rounds_go_on :
    (timeout now n : ℕ) (buffer : List ℕ)
    → 0 < timeout
    → 12 ≤ length buffer
    → (s : System EchoServer.Session) × Reach watched Anytime
        (EchoServer.Events.started timeout now buffer)
        s
      × (s.reads ≡ n + 1)
      × (s.client.pending ≡ EchoClient.waiting)
unfolding connected
rounds_go_on timeout now n buffer lt room =
    let q = connected timeout now buffer in
    let v : IsLevel q = record { arrived = refl; read = refl; room = room } in
    let (t, e, r) =
      rounds timeout now buffer n (complete (write q)) (complete-IsLevel timeout now buffer q v)
        (round timeout now buffer q v (Reach-connected timeout now buffer lt)) in
    (system EchoClient.waiting t, r, omega (arith, e), refl)
