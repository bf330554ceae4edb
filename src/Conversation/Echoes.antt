-- ===== src/Conversation/Echoes.antt =====
-- asio/echo/client.cc: what the client reads, when an echo server is at the other end.
use mathlib.Core.Path.{subst}
use snippets_cc.Prelude.{
  ℕ, suc, ◌+◌, ◌%◌, ◌≡◌, refl, sym, ap, ◌∙◌, inl, inr, true, ==_iff, List, [], ◌∷◌, ◌++◌, length,
  take, replicate, append-nil, append_assoc, length-append, length-replicate, length-take,
  length-drop, ◌-◌, arith,
}
use snippets_cc.Asio.{resize}
use snippets_cc.EchoClient
use snippets_cc.EchoClient.{hello, same_bytes, int_mod}
use snippets_cc.EchoClient.Sessions.{Completion, failure, success}
use snippets_cc.EchoClient.Sessions
use snippets_cc.Conversation.{
  PeerOps, PeerLaws, System, submitted, client_at, client_turn, server_turn, IsPrefix, MayArrive,
  MayComplete, Step, client_step, server_step, start, Reach, here, then_step,
}
use snippets_cc.Conversation.Streams.{
  repeat, repeat-suc, append_cancel_left, same_prefix, IsPrefix-trans, IsPrefix-append,
}

-- What the client has given to its writes when it has completed `reads` reads.
abbrev Place : EchoClient.Pending → EchoClient.Session → List ℕ → ℕ → Type 0
Place EchoClient.connecting client given reads = given ≡ repeat reads hello
Place EchoClient.writing client given reads =
    (given ≡ repeat reads hello ++ hello)
    × (client.send_buffer ≡ hello)
    × (length client.recv_buffer ≡ 12)
Place EchoClient.reading client given reads =
    (given ≡ repeat reads hello ++ hello)
    × (client.send_buffer ≡ hello)
    × (length client.recv_buffer ≡ 12)
Place EchoClient.waiting client given reads = given ≡ repeat reads hello
Place EchoClient.ended client given reads = Unit {0}

same_bytes_refl : (xs : List ℕ) → same_bytes xs xs ≡ true
same_bytes_refl [] = refl
same_bytes_refl (x ∷ xs) = rw ((==_iff x x).1 refl) (same_bytes_refl xs)

pub length-resize : (bytes : List ℕ) → length (resize 12 bytes) ≡ 12
length-resize bytes =
    length-append (take 12 bytes) (replicate (12 - length bytes) 0)
    ∙ omega (
      arith,
      length-take 12 bytes,
      length-drop 12 bytes,
      length-replicate {A = ℕ} (12 - length bytes) 0,
    )

-- The reads of the client have delivered its message once each, each has been counted in `echoes`, modulo 2 ^ 32, and
-- a read that TCP may complete next delivers the message.
abbrev pub ReadsHello : {S E : Type 0} → PeerOps S E → System S → Type 0
ReadsHello ops s =
    (s.delivered ≡ repeat s.reads hello)
    × (s.statistics.echoes ≡ s.reads % int_mod)
    × ((bytes : List ℕ)
        → s.client.pending ≡ EchoClient.reading
        → MayComplete ops (success bytes) s
        → bytes ≡ hello)

module _ {S E : Type 0} (ops : PeerOps S E) (Allows : E → S → Type 0) (Valid : S → Type 0)
    (laws : PeerLaws ops Allows Valid) where
  record Inv (s : System S) : Type 0 where
    place : Place s.client.pending s.client s.given s.reads
    delivered : s.delivered ≡ repeat s.reads hello
    echoes : s.statistics.echoes ≡ s.reads % int_mod
    arrived : IsPrefix (ops.received s.server) s.given
    valid : Valid s.server

  -- A read that TCP may complete delivers the message.
  read-hello :
      {s : System S} (bytes : List ℕ)
      → Inv s
      → s.client.pending ≡ EchoClient.reading
      → MayComplete ops (success bytes) s
      → bytes ≡ hello
  read-hello {s} bytes v p may =
      let (enough, came) = may p in
      let place = subst (λ k. Place k s.client s.given s.reads) p v.place in
      let out = laws.echoes s.server v.valid in
      let (rest, e) =
        IsPrefix-trans (s.delivered ++ bytes) (ops.answered s.server) s.given came
          (IsPrefix-trans (ops.answered s.server) (ops.received s.server) s.given out v.arrived) in
      let told : repeat s.reads hello ++ (bytes ++ rest) ≡ repeat s.reads hello ++ (hello ++ []) =
        sym (append_assoc (repeat s.reads hello) bytes rest)
        ∙ ap (λ xs. (xs ++ bytes) ++ rest) (sym v.delivered)
        ∙ e
        ∙ place.0
        ∙ ap (repeat s.reads hello ++◌) (sym (append-nil hello)) in
      same_prefix bytes hello rest [] (enough ∙ place.2)
        (append_cancel_left (repeat s.reads hello) told)

  -- The pending operation is over, and the client has read no more.
  kept-Inv :
      (s : System S) (client : EchoClient.Session) (statistics : EchoClient.Statistics)
      (more : List ℕ)
      → Inv s
      → Place client.pending client (s.given ++ more) s.reads
      → statistics.echoes ≡ s.statistics.echoes
      → Inv (record s {
        client = client;
        statistics = statistics;
        given = s.given ++ more;
        delivered = s.delivered ++ [];
        reads = s.reads + 0;
      })
  kept-Inv s client statistics more v place echoes =
      let zero_more : s.reads + 0 ≡ s.reads = omega arith in
      record {
        place = subst (Place client.pending client (s.given ++ more)) (sym zero_more) place;
        delivered = append-nil s.delivered ∙ v.delivered ∙ ap (λ n. repeat n hello) (sym zero_more);
        echoes = echoes ∙ v.echoes ∙ ap (λ n. n % int_mod) (sym zero_more);
        arrived = IsPrefix-append (ops.received s.server) s.given more v.arrived;
        valid = v.valid;
      }

  ended-Inv :
      (s : System S)
      → Inv s
      → s.client.pending ≡ EchoClient.ended
      → Inv (record s {
        given = s.given ++ submitted s.client.pending s.client.send_buffer;
        delivered = s.delivered ++ [];
        reads = s.reads + 0;
      })
  ended-Inv s v p =
      let more = submitted s.client.pending s.client.send_buffer in
      kept-Inv s s.client s.statistics more v
        (subst (λ k. Place k s.client (s.given ++ more) s.reads) (sym p) tt) refl

  -- A read that has delivered the message is counted.
  read-Inv :
      (s : System S) (bytes : List ℕ)
      → Inv s
      → s.client.pending ≡ EchoClient.reading
      → bytes ≡ hello
      → Inv (client_at (success bytes) EchoClient.reading s)
  unfolding client_at EchoClient.Sessions.react EchoClient.handle_read
  read-Inv s bytes v p told =
      let place = subst (λ k. Place k s.client s.given s.reads) p v.place in
      let test : same_bytes bytes s.client.send_buffer ≡ true =
        ap (λ xs. same_bytes xs s.client.send_buffer) (told ∙ sym place.1)
        ∙ same_bytes_refl s.client.send_buffer in
      let one_more : s.reads + 1 ≡ suc s.reads = omega arith in
      let said = repeat-suc s.reads hello in
      rw test (record {
        place = append-nil s.given ∙ place.0 ∙ sym said ∙ ap (λ n. repeat n hello) (sym one_more);
        delivered =
            ap (λ xs. xs ++ bytes) v.delivered
            ∙ ap (repeat s.reads hello ++◌) told
            ∙ sym said
            ∙ ap (λ n. repeat n hello) (sym one_more);
        echoes = ap (λ n. (n + 1) % int_mod) v.echoes ∙ omega arith;
        arrived = IsPrefix-append (ops.received s.server) s.given [] v.arrived;
        valid = v.valid;
      })

  -- What the handlers of the client's pending operation leave.
  client_at-Inv :
      (c : Completion) (p : EchoClient.Pending) (s : System S)
      → Inv s
      → s.client.pending ≡ p
      → MayComplete ops c s
      → Inv (client_at c p s)
  unfolding client_at EchoClient.Sessions.react EchoClient.handle_connect EchoClient.handle_write
      EchoClient.handle_read EchoClient.handle_wait EchoClient.start EchoClient.on_error
  client_at-Inv failure EchoClient.connecting s v p may = kept-Inv s _ _ [] v tt refl
  client_at-Inv failure EchoClient.writing s v p may = kept-Inv s _ _ [] v tt refl
  client_at-Inv failure EchoClient.reading s v p may = kept-Inv s _ _ [] v tt refl
  client_at-Inv failure EchoClient.waiting s v p may = kept-Inv s _ _ [] v tt refl
  client_at-Inv failure EchoClient.ended s v p may = ended-Inv s v p
  client_at-Inv (success bytes) EchoClient.connecting s v p may =
      let place = subst (λ k. Place k s.client s.given s.reads) p v.place in
      kept-Inv s _ _ hello v
        (ap (λ xs. xs ++ hello) place, refl, length-resize s.client.recv_buffer) refl
  client_at-Inv (success bytes) EchoClient.writing s v p may =
      let place = subst (λ k. Place k s.client s.given s.reads) p v.place in
      kept-Inv s _ _ [] v (append-nil s.given ∙ place.0, place.1, place.2) refl
  client_at-Inv (success bytes) EchoClient.reading s v p may =
      read-Inv s bytes v p (read-hello bytes v p may)
  client_at-Inv (success bytes) EchoClient.waiting s v p may =
      let place = subst (λ k. Place k s.client s.given s.reads) p v.place in
      kept-Inv s _ _ hello v
        (ap (λ xs. xs ++ hello) place, refl, length-resize s.client.recv_buffer) refl
  client_at-Inv (success bytes) EchoClient.ended s v p may = ended-Inv s v p

  server_turn-Inv :
      (e : E) (elapsed : ℕ) (s : System S)
      → Inv s
      → Allows e s.server
      → MayArrive (ops.arrives e) (ops.received s.server) s.given
      → Inv (server_turn ops e elapsed s)
  unfolding server_turn
  server_turn-Inv e elapsed s v allowed may = record {
    place = v.place;
    delivered = v.delivered;
    echoes = v.echoes;
    arrived = elim (laws.grows e elapsed s.server v.valid) [
      | inl same ↦ subst (λ xs. IsPrefix xs s.given) (sym same) v.arrived
      | inr (bytes, brings, more) ↦
          subst (λ xs. IsPrefix xs s.given) (sym more)
            (subst (λ o. MayArrive o (ops.received s.server) s.given) brings may)
    ];
    valid = laws.keeps e elapsed s.server allowed v.valid;
  }

  start-Inv : (server : S) → Valid server → ops.received server ≡ [] → Inv (start server)
  unfolding start EchoClient.make repeat
  start-Inv server valid nothing = record {
    place = refl;
    delivered = refl;
    echoes = refl;
    arrived = ([], append-nil _ ∙ nothing);
    valid = valid;
  }

  Step-Inv : {s t : System S} → Step ops Allows s t → Inv s → Inv t
  unfolding client_turn
  Step-Inv {s} (client_step c may) v = client_at-Inv c s.client.pending s v refl may
  Step-Inv {s} (server_step e elapsed allowed may) v = server_turn-Inv e elapsed s v allowed may

  Reach-Inv :
      {server : S} {s : System S}
      → Valid server
      → ops.received server ≡ []
      → Reach ops Allows server s
      → Inv s
  Reach-Inv {server} valid nothing here = start-Inv server valid nothing
  Reach-Inv valid nothing (then_step r st) = Step-Inv st (Reach-Inv valid nothing r)

  -- Each read of the client delivers its message and is counted.
  pub Reach-ReadsHello :
      {server : S} {s : System S}
      → Valid server
      → ops.received server ≡ []
      → Reach ops Allows server s
      → ReadsHello ops s
  Reach-ReadsHello valid nothing r =
      let v = Reach-Inv valid nothing r in
      (v.delivered, v.echoes, λ bytes p may. read-hello bytes v p may)
