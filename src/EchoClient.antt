-- ===== src/EchoClient.antt =====
-- asio/echo/client.cc: the sessions and the statistics that they share. A `std::atomic<int>` is its bit
-- pattern, a number below 2 ^ 32. A handler is a function from what is before to what is after; Boost.Asio
-- completes the one operation that a session has pending.
pub mod Sessions
pub mod Counters
pub mod Coroutine
pub mod Monitor
mod Tests
pub use snippets_cc.Asio.{resize}
use snippets_cc.Prelude.{
  ℕ, ◌+◌, ◌-◌, ◌/◌, ◌%◌, ◌^◌, Bool, true, false, ◌&&◌, List, [], ◌∷◌, ◌++◌, ◌==◌, if◌then◌else◌,
  length, take, replicate,
}

pub record Statistics : Type 0 where
  pub echoes : ℕ
  pub failed : ℕ
  pub connected : ℕ
  pub completed : ℕ

abbrev pub int_mod : ℕ
int_mod = 4294967296

-- `counter++` and `counter--`
abbrev pub increment : ℕ → ℕ
increment n = (n + 1) % int_mod

abbrev pub decrement : ℕ → ℕ
decrement n = (n + int_mod - 1) % int_mod

unfoldable pub on_error : Statistics → Statistics
on_error st = record st { failed = increment st.failed; connected = decrement st.connected }

-- What a session waits for: `async_connect`, `async_write`, `async_read`, `async_wait`, or nothing more.
pub data Pending : Type 0 where
  connecting writing reading waiting ended : Pending

pub record Session : Type 0 where
  pub pending : Pending
  pub send_buffer : List ℕ
  pub recv_buffer : List ℕ

-- "Hello world!"
abbrev pub hello : List ℕ
hello = 72 ∷ 101 ∷ 108 ∷ 108 ∷ 111 ∷ 32 ∷ 119 ∷ 111 ∷ 114 ∷ 108 ∷ 100 ∷ 33 ∷ []

-- `std::string::operator==`
abbrev pub same_bytes : List ℕ → List ℕ → Bool
same_bytes [] [] = true
same_bytes [] (y ∷ ys) = false
same_bytes (x ∷ xs) [] = false
same_bytes (x ∷ xs) (y ∷ ys) = x == y && same_bytes xs ys

-- `make (io)` and `start (port)`
unfoldable pub make : Session
make = record { pending = connecting; send_buffer = []; recv_buffer = [] }

-- The private `start ()`: the write of the message.
unfoldable pub start : Session → Session
start s = record {
  pending = writing;
  send_buffer = hello;
  recv_buffer = resize (length hello) s.recv_buffer;
}

abbrev pub finish : Session → Session
finish s = record s { pending = ended }

unfoldable pub handle_connect : (error : Bool) → Session → Statistics → Session × Statistics
handle_connect error s st =
    let st' = record st { completed = increment st.completed } in
    if error
    then (finish s, record st' { failed = increment st'.failed })
    else (start s, record st' { connected = increment st'.connected })

unfoldable pub handle_write : (error : Bool) → Session → Statistics → Session × Statistics
handle_write error s st =
    if error then (finish s, on_error st) else (record s { pending = reading }, st)

-- `recv_buffer_` holds what was read.
unfoldable pub handle_read : (error : Bool) → Session → Statistics → Session × Statistics
handle_read error s st = if error then (finish s, on_error st) else (
  record s { pending = waiting },
  if same_bytes s.recv_buffer s.send_buffer then record st { echoes = increment st.echoes } else st,
)

unfoldable pub handle_wait : (error : Bool) → Session → Statistics → Session × Statistics
handle_wait error s st = if error then (finish s, on_error st) else (start s, st)
