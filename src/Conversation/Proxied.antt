-- ===== src/Conversation/Proxied.antt =====
-- asio/proxy/server.cc between a client and an echo server: a session of the proxy, and what is at the other end of its
-- connection to the target. TCP connects the proxy to both.
use mathlib.Core.Path.{subst}
use snippets_cc.Prelude.{ℕ, refl, sym, ◌∙◌, inl, inr, Option, none, List, [], ◌∷◌, ◌++◌, append-nil}
use snippets_cc.EchoServer
use snippets_cc.EchoServer.Events
use snippets_cc.EchoServer.Echo.{IsBalanced, received-sent}
use snippets_cc.ProxyServer
use snippets_cc.ProxyServer.Sessions.{Completion, step, run}
use snippets_cc.ProxyServer.Forwarding.{IsSound, run-IsSound, start-IsSound}
use snippets_cc.Conversation.{
  PeerOps, PeerLaws, Grows, MayArrive, IsPrefix, System, Reach, in_flight,
}
use snippets_cc.Conversation.Streams.{answered-IsPrefix, IsPrefix-trans, IsPrefix-append}
use snippets_cc.Conversation.Received.{started-received}
use snippets_cc.Conversation.ProxyReceived.{from_client, from_target, step-GrowBoth}
use snippets_cc.Conversation.Echoes.{ReadsHello, Reach-ReadsHello}
use snippets_cc.Conversation.Servers.{watched, Anytime, watched_laws}

-- The session of the proxy and the other end of its connection to the target.
pub record Chain (S : Type 0) : Type 0 where
  pub proxy : ProxyServer.Session
  pub target : S

pub data ChainEvent (E : Type 0) : Type 0 where
  at_proxy : Completion → ChainEvent E
  at_target : E → ChainEvent E

-- The bytes that the proxy has given to its writes to the other side.
abbrev pub passed_on : ProxyServer.Side → List ℕ
passed_on x = x.sent ++ in_flight x.operation x.buffer

module _ {S E : Type 0} (ops : PeerOps S E) where
  unfoldable pub chain_step : ChainEvent E → (elapsed : ℕ) → Chain S → Chain S
  chain_step (at_proxy c) elapsed s = record s { proxy = step c elapsed s.proxy }
  chain_step (at_target e) elapsed s = record s { target = ops.step e elapsed s.target }

  abbrev pub chain_arrives : ChainEvent E → Option (List ℕ)
  chain_arrives (at_proxy c) = from_client c
  chain_arrives (at_target e) = none

  -- The proxy with its target, as the client sees them.
  unfoldable pub proxied : PeerOps (Chain S) (ChainEvent E)
  unfolding chain_step
  proxied = record {
    step = chain_step;
    received = λ s. s.proxy.client.received;
    answered = λ s. passed_on s.proxy.server;
    arrives = chain_arrives;
  }

  -- TCP brings the proxy what the target has answered, and the target what the proxy has passed on.
  abbrev pub ChainAllows : (E → S → Type 0) → ChainEvent E → Chain S → Type 0
  ChainAllows Allows (at_proxy c) s =
      MayArrive (from_target c) s.proxy.server.received (ops.answered s.target)
  ChainAllows Allows (at_target e) s =
      Allows e s.target
      × MayArrive (ops.arrives e) (ops.received s.target) (passed_on s.proxy.client)

  pub record ChainValid (Valid : S → Type 0) (s : Chain S) : Type 0 where
    pub sound : IsSound s.proxy
    pub target : Valid s.target
    pub forth : IsPrefix (ops.received s.target) s.proxy.client.received
    pub back : IsPrefix s.proxy.server.received (ops.received s.target)

-- What is received after an event stays the first part of what may have arrived.
Grows-IsPrefix :
    (arrived : Option (List ℕ)) (before after given whole : List ℕ)
    → Grows arrived before after
    → MayArrive arrived before given
    → IsPrefix given whole
    → IsPrefix before whole
    → IsPrefix after whole
Grows-IsPrefix arrived before after given whole (inl same) may out kept =
    subst (λ xs. IsPrefix xs whole) (sym same) kept
Grows-IsPrefix arrived before after given whole (inr (bytes, brings, more)) may out kept =
    IsPrefix-trans after given whole
      (subst (λ xs. IsPrefix xs given) (sym more)
        (subst (λ o. MayArrive o before given) brings may))
      out

-- What was a first part of what was received still is.
IsPrefix-Grows :
    (arrived : Option (List ℕ)) (xs before after : List ℕ)
    → Grows arrived before after
    → IsPrefix xs before
    → IsPrefix xs after
IsPrefix-Grows arrived xs before after (inl same) p = subst (IsPrefix xs) (sym same) p
IsPrefix-Grows arrived xs before after (inr (bytes, brings, more)) p =
    subst (IsPrefix xs) (sym more) (IsPrefix-append xs before bytes p)

module _ {S E : Type 0} (ops : PeerOps S E) (Allows : E → S → Type 0) (Valid : S → Type 0)
    (laws : PeerLaws ops Allows Valid) where
  proxy-ChainValid :
      (c : Completion) (elapsed : ℕ) (s : Chain S)
      → MayArrive (from_target c) s.proxy.server.received (ops.answered s.target)
      → ChainValid ops Valid s
      → ChainValid ops Valid (record s { proxy = step c elapsed s.proxy })
  unfolding run
  proxy-ChainValid c elapsed s may v =
      let (at_client, at_server) = step-GrowBoth c elapsed s.proxy in
      record {
        sound = run-IsSound ((c, elapsed) ∷ []) s.proxy v.sound;
        target = v.target;
        forth =
            IsPrefix-Grows (from_client c) (ops.received s.target) s.proxy.client.received _
              at_client v.forth;
        back =
            Grows-IsPrefix (from_target c) s.proxy.server.received _ (ops.answered s.target)
              (ops.received s.target) at_server may (laws.echoes s.target v.target) v.back;
      }

  target-ChainValid :
      (e : E) (elapsed : ℕ) (s : Chain S)
      → Allows e s.target
      → MayArrive (ops.arrives e) (ops.received s.target) (passed_on s.proxy.client)
      → ChainValid ops Valid s
      → ChainValid ops Valid (record s { target = ops.step e elapsed s.target })
  target-ChainValid e elapsed s allowed may v =
      let grown = laws.grows e elapsed s.target v.target in
      let x = s.proxy.client in
      record {
        sound = v.sound;
        target = laws.keeps e elapsed s.target allowed v.target;
        forth =
            Grows-IsPrefix (ops.arrives e) (ops.received s.target) _ (passed_on x) x.received grown
              may (answered-IsPrefix x.operation x.received x.sent x.buffer v.sound.0.0) v.forth;
        back =
            IsPrefix-Grows (ops.arrives e) s.proxy.server.received (ops.received s.target) _ grown
              v.back;
      }

  -- Before an echo server, the proxy is one.
  pub proxied_laws : PeerLaws (proxied ops) (ChainAllows ops Allows) (ChainValid ops Valid)
  unfolding proxied chain_step
  proxied_laws = record {
    keeps = keeps;
    echoes = λ s v.
        let x = s.proxy.server in
        IsPrefix-trans (passed_on x) x.received s.proxy.client.received
          (answered-IsPrefix x.operation x.received x.sent x.buffer v.sound.0.1)
          (IsPrefix-trans x.received (ops.received s.target) s.proxy.client.received v.back
            v.forth);
    grows = λ e elapsed s v. grows e elapsed s;
  }
    where
      keeps :
          (e : ChainEvent E) (elapsed : ℕ) (s : Chain S)
          → ChainAllows ops Allows e s
          → ChainValid ops Valid s
          → ChainValid ops Valid (chain_step ops e elapsed s)
      keeps (at_proxy c) elapsed s may v = proxy-ChainValid c elapsed s may v
      keeps (at_target e) elapsed s (allowed, may) v = target-ChainValid e elapsed s allowed may v

      grows :
          (e : ChainEvent E) (elapsed : ℕ) (s : Chain S)
          → Grows
              (chain_arrives ops e)
              s.proxy.client.received
              (chain_step ops e elapsed s).proxy.client.received
      grows (at_proxy c) elapsed s = (step-GrowBoth c elapsed s.proxy).0
      grows (at_target e) elapsed s = inl refl

-- A session of the proxy and a session of the echo server with the watchdog, both new.
unfoldable pub chain :
    (timeout now : ℕ) (client_buffer server_buffer echo_buffer : List ℕ) → Chain EchoServer.Session
chain timeout now client_buffer server_buffer echo_buffer = record {
  proxy = ProxyServer.start timeout now client_buffer server_buffer;
  target = EchoServer.Events.started timeout now echo_buffer;
}

chain-ChainValid :
    (timeout now : ℕ) (client_buffer server_buffer echo_buffer : List ℕ)
    → ChainValid watched IsBalanced (chain timeout now client_buffer server_buffer echo_buffer)
unfolding chain watched EchoServer.Events.run ProxyServer.start
chain-ChainValid timeout now client_buffer server_buffer echo_buffer =
    let nothing = started-received timeout now echo_buffer in
    record {
      sound = start-IsSound timeout now client_buffer server_buffer;
      target = received-sent timeout now echo_buffer [];
      forth = ([], append-nil _ ∙ nothing);
      back = (_, refl);
    }

-- A client session connected through a session of the proxy to a session of the echo server: however TCP cuts the bytes into pieces
-- on both connections, whatever fails and whatever the times, the reads of the client have delivered its message once each, each
-- has been counted in `echoes`, modulo 2 ^ 32, and a read that TCP may complete next delivers the message.
pub proxied-ReadsHello :
    (timeout now : ℕ) (client_buffer server_buffer echo_buffer : List ℕ)
    {s : System (Chain EchoServer.Session)}
    → Reach
        (proxied watched)
        (ChainAllows watched Anytime)
        (chain timeout now client_buffer server_buffer echo_buffer)
        s
    → ReadsHello (proxied watched) s
unfolding chain proxied watched ProxyServer.start
proxied-ReadsHello timeout now client_buffer server_buffer echo_buffer r =
    Reach-ReadsHello (proxied watched) (ChainAllows watched Anytime) (ChainValid watched IsBalanced)
      (proxied_laws watched Anytime IsBalanced watched_laws)
      (chain-ChainValid timeout now client_buffer server_buffer echo_buffer) refl r
