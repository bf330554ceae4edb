-- ===== src/Conversation.antt =====
-- asio/echo/client.cc: a session of the client, and what is at the other end of its connection. TCP gives each end the
-- bytes that the other has given to its writes, in order, in pieces of any size, and loses none while it delivers; it
-- need not deliver all.
mod Streams
pub mod Echoes
mod Received
mod ProxyReceived
pub mod Servers
pub mod Proxied
pub mod Coroutines
pub mod Rounds
mod Tests
use snippets_cc.Prelude.{ℕ, ◌+◌, ◌≡◌, ◌⊎◌, Option, none, some, List, [], ◌++◌, length, take}
use snippets_cc.Asio.{Operation, writing}
use snippets_cc.EchoClient
use snippets_cc.EchoClient.Sessions
use snippets_cc.EchoClient.Sessions.{Completion, failure, success}

abbrev pub IsPrefix : List ℕ → List ℕ → Type 0
IsPrefix xs ys = (rest : List ℕ) × (xs ++ rest ≡ ys)

-- What arrives is added to what was received, or nothing is.
abbrev pub Grows : Option (List ℕ) → (before after : List ℕ) → Type 0
Grows arrived before after =
    (after ≡ before) ⊎ ((bytes : List ℕ) × (arrived ≡ some bytes) × (after ≡ before ++ bytes))

-- The other end: the handler of an event after some time, all bytes that it has received, all that it has given to its
-- writes, and the bytes that an event brings from the client.
pub record PeerOps (S E : Type 0) : Type 0 where
  pub step : E → (elapsed : ℕ) → S → S
  pub received : S → List ℕ
  pub answered : S → List ℕ
  pub arrives : E → Option (List ℕ)

-- What an echo server promises, in valid states and by events that may happen: it answers the first part of what it has
-- received, and receives what arrives, or nothing.
pub record PeerLaws {S E : Type 0} (ops : PeerOps S E) (Allows : E → S → Type 0)
    (Valid : S → Type 0) : Type 0 where
  pub keeps : (e : E) (elapsed : ℕ) (s : S) → Allows e s → Valid s → Valid (ops.step e elapsed s)
  pub echoes : (s : S) → Valid s → IsPrefix (ops.answered s) (ops.received s)
  pub grows :
      (e : E) (elapsed : ℕ) (s : S)
      → Valid s
      → Grows (ops.arrives e) (ops.received s) (ops.received (ops.step e elapsed s))

-- The bytes that arrive go on those before them in what was given.
abbrev pub MayArrive : Option (List ℕ) → (received given : List ℕ) → Type 0
MayArrive none received given = Unit {0}
MayArrive (some bytes) received given = IsPrefix (received ++ bytes) given

-- The two ends, the statistics of the client, all bytes that the client has given to its writes, all that its reads
-- have delivered, and the number of these reads.
pub record System (S : Type 0) : Type 0 where
  pub client : EchoClient.Session
  pub statistics : EchoClient.Statistics
  pub server : S
  pub given : List ℕ
  pub delivered : List ℕ
  pub reads : ℕ

-- The bytes of a write that begins.
abbrev pub submitted : EchoClient.Pending → List ℕ → List ℕ
submitted EchoClient.writing bytes = bytes
submitted _ bytes = []

-- The bytes of a read that completes.
abbrev pub obtained : Completion → EchoClient.Pending → List ℕ
obtained (success bytes) EchoClient.reading = bytes
obtained _ _ = []

abbrev pub counted : Completion → EchoClient.Pending → ℕ
counted (success bytes) EchoClient.reading = 1
counted _ _ = 0

-- The bytes of the write that is pending.
abbrev pub in_flight : Operation → List ℕ → List ℕ
in_flight (writing n) buffer = take n buffer
in_flight _ buffer = []

-- The handler of the client's pending operation.
unfoldable pub client_at : {S : Type 0} → Completion → EchoClient.Pending → System S → System S
client_at c pending s =
    let (client, statistics) = EchoClient.Sessions.react c pending s.client s.statistics in
    record s {
      client = client;
      statistics = statistics;
      given = s.given ++ submitted client.pending client.send_buffer;
      delivered = s.delivered ++ obtained c pending;
      reads = s.reads + counted c pending;
    }

unfoldable pub client_turn : {S : Type 0} → Completion → System S → System S
unfolding client_at
client_turn c s = client_at c s.client.pending s

-- A session of the client before its `async_connect`.
unfoldable pub start : {S : Type 0} → S → System S
start server = record {
  client = EchoClient.make;
  statistics = record { echoes = 0; failed = 0; connected = 0; completed = 0 };
  server = server;
  given = [];
  delivered = [];
  reads = 0;
}

module _ {S E : Type 0} (ops : PeerOps S E) where
  -- A handler of the other end.
  unfoldable pub server_turn : E → (elapsed : ℕ) → System S → System S
  server_turn e elapsed s = record s { server = ops.step e elapsed s.server }

  -- What TCP may deliver to `async_read`, which fills its buffer.
  abbrev pub MayComplete : Completion → System S → Type 0
  MayComplete failure s = Unit {0}
  MayComplete (success bytes) s =
      s.client.pending ≡ EchoClient.reading
      → (length bytes ≡ length s.client.recv_buffer)
        × IsPrefix (s.delivered ++ bytes) (ops.answered s.server)

  module _ (Allows : E → S → Type 0) where
    pub data Step (s : System S) : System S → Type 0 where
      client_step : (c : Completion) → MayComplete c s → Step s (client_turn c s)
      server_step :
          (e : E) (elapsed : ℕ)
          → Allows e s.server
          → MayArrive (ops.arrives e) (ops.received s.server) s.given
          → Step s (server_turn e elapsed s)

    -- The states that a conversation with a server in the given state can come to.
    pub data Reach (server : S) : System S → Type 0 where
      here : Reach server (start server)
      then_step : {s t : System S} → Reach server s → Step s t → Reach server t
