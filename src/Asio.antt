-- ===== src/Asio.antt =====
-- What the models of asio/ share: the operations of Boost.Asio that can be pending, and the account of the
-- bytes that a session passes on.
pub mod Acceptor
use snippets_cc.Prelude.{
  ℕ, ◌≤◌, ◌≡◌, Bool, true, false, List, ◌++◌, take, ◌-◌, length, replicate, arith,
}

-- The operation on the socket that is pending: `async_receive`, `async_write` of the first `bytes` bytes
-- of the buffer.
pub data Operation : Type 0 where
  no_operation : Operation
  receiving : Operation
  writing : (bytes : ℕ) → Operation

-- `async_wait` on the timer: none, pending until the time `expiry`, or cancelled and not yet completed.
pub data Wait : Type 0 where
  no_wait : Wait
  armed : (expiry : ℕ) → Wait
  cancelled : Wait

-- `timer_.cancel ()`
abbrev pub cancel : Wait → Wait
cancel no_wait = no_wait
cancel (armed expiry) = cancelled
cancel cancelled = cancelled

-- `resize` of a string or a vector of char
abbrev pub resize : ℕ → List ℕ → List ℕ
resize n bytes = take n bytes ++ replicate (n - length bytes) 0

-- What is received and not yet sent, by the operation that is pending.
abbrev pub Owes : Operation → (received sent buffer : List ℕ) → Type 0
Owes no_operation received sent buffer = (rest : List ℕ) × (received ≡ sent ++ rest)
Owes receiving received sent buffer = received ≡ sent
Owes (writing n) received sent buffer = received ≡ sent ++ take n buffer

-- A receive completes with data or an error; a write with success or, after some of its bytes, an error; a
-- wait with success or as cancelled.
pub data Event : Type 0 where
  data_received : (bytes : List ℕ) → Event
  receive_failed : Event
  all_written : Event
  write_failed : (bytes : ℕ) → Event
  wait_ended : Event
  wait_cancelled : Event

-- The wait of an open session is armed for the deadline at the latest.
abbrev pub Guards : Bool → Wait → ℕ → Type 0
Guards true (armed expiry) deadline = expiry ≤ deadline
Guards true no_wait deadline = ⊥
Guards true cancelled deadline = ⊥
Guards false w deadline = Unit

pub Guards-later : (o : Bool) (w : Wait) (d d' : ℕ) → d ≤ d' → Guards o w d → Guards o w d'
Guards-later true (armed expiry) d d' le h = omega arith
Guards-later true no_wait d d' le h = h
Guards-later true cancelled d d' le h = h
Guards-later false w d d' le h = tt

-- A cancelled wait is not that of an open session.
pub Guards-cancelled : (o : Bool) (d : ℕ) → Guards o cancelled d → Guards o no_wait d
Guards-cancelled true d h = h
Guards-cancelled false d h = tt
