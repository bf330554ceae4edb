-- ===== src/Daytime/Blocking.antt =====
-- asio/socket/01/main.cc, 02/main.cc, 04/main.cc and 05/main.cc: the clients and the servers of the daytime service that
-- block in each call. What `make_daytime_string` returns is given with the call before it.
use snippets_cc.Prelude.{
  ℕ, ◌+◌, Bool, true, false, Option, none, some, List, [], ◌∷◌, ◌++◌, if◌then◌else◌, leb, take,
  drop,
}
use snippets_cc.Daytime.{Datagram}

-- What a connection of TCP delivers to the client: bytes, and then the end of the stream or an error.
pub record Stream : Type 0 where
  pub bytes : List ℕ
  pub is_broken : Bool

-- `acceptor_.accept (socket)` of 02 and the `write` after it, which may fail after some bytes and leave the connection broken or
-- not.
pub data Accept : Type 0 where
  accepted : (daytime : List ℕ) (fault : Option (ℕ × Bool)) → Accept
  accept_failed : Accept

-- `asio::write (socket, asio::buffer (message), error)` and the destructor of the socket; `error` is not read.
unfoldable pub write : (message : List ℕ) (fault : Option (ℕ × Bool)) → Stream
write message none = record { bytes = message; is_broken = false }
write message (some (count, broken)) = record { bytes = take count message; is_broken = broken }

-- The loop of 02: the streams of its clients, and whether an exception has ended it.
unfoldable pub serve : List Accept → List Stream × Bool
unfolding write
serve [] = ([], false)
serve (accepted daytime fault ∷ calls) =
    let (streams, thrown) = serve calls in (write daytime fault ∷ streams, thrown)
serve (accept_failed ∷ calls) = ([], true)

-- What `socket.read_some` of 01 finds.
pub data Read : Type 0 where
  bytes_read : List ℕ → Read
  eof : Read
  failed : Read

abbrev pub buffer_size : ℕ
buffer_size = 128

-- At least one byte, and at most the buffer, of what has arrived; `more` is how many bytes beside the first.
unfoldable pub read_some : (more : ℕ) → Stream → Read × Stream
read_some more s = elim s.bytes [
  | [] ↦ (if s.is_broken then failed else eof, s)
  | byte ∷ rest ↦
      let count = if leb buffer_size more then buffer_size else more + 1 in
      (bytes_read (take count (byte ∷ rest)), record s { bytes = drop count (byte ∷ rest) })
]

-- Where the client of 01 stands: in its loop, at its end, or at its handler of exceptions.
pub data Exit : Type 0 where
  in_loop returned exception : Exit

pub record Client : Type 0 where
  pub printed : List ℕ
  pub exit : Exit

-- The loop of 01, for as many calls of `read_some` as the list has.
unfoldable pub receive : List ℕ → Stream → (printed : List ℕ) → Client
unfolding read_some
receive [] s printed = record { printed = printed; exit = in_loop }
receive (more ∷ reads) s printed = elim ((read_some more s).0) [
  | bytes_read bytes ↦ receive reads (read_some more s).1 (printed ++ bytes)
  | eof ↦ record { printed = printed; exit = returned }
  | failed ↦ record { printed = printed; exit = exception }
]

-- `socket.receive_from` of 05 and the `send_to` after it.
pub data Request : Type 0 where
  received : (endpoint : ℕ) (daytime : List ℕ) (is_sent : Bool) → Request
  receive_failed : Request

-- The loop of 05: the datagrams that it has sent, and whether an exception has ended it.
unfoldable pub answer : List Request → List Datagram × Bool
answer [] = ([], false)
answer (received endpoint daytime is_sent ∷ requests) =
    let (datagrams, thrown) = answer requests in
    (
      if is_sent then record { endpoint = endpoint; message = daytime } ∷ datagrams else datagrams,
      thrown,
    )
answer (receive_failed ∷ requests) = ([], true)

-- What 04 prints of the datagram that it receives into its buffer.
unfoldable pub print_datagram : Datagram → List ℕ
print_datagram d = take buffer_size d.message
