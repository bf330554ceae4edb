-- ===== src/Daytime.antt =====
-- asio/socket/03/main.cc, 06/main.cc and 07/main.cc: the servers of the daytime service over TCP and UDP. What
-- `make_daytime_string` returns, which reads the clock, is given with the completion in whose handler it is called.
pub mod Answers
pub mod Blocking
pub mod RoundTrip
pub mod Coroutines
mod Tests
use snippets_cc.Prelude.{
  ℕ, ◌+◌, Bool, true, false, Option, none, some, List, [], ◌∷◌, ◌++◌, if◌then◌else◌,
}

-- A `tcp_connection` by its number, with its message once it has been started.
pub record Connection : Type 0 where
  pub id : ℕ
  pub message : List ℕ

-- `accepting` is the connection that the pending `async_accept` is to fill, `writing` the started ones in order, by
-- their calls of `async_write`. The handlers keep the connections alive.
pub record TcpServer : Type 0 where
  pub accepting : Option ℕ
  pub next : ℕ
  pub writing : List Connection

-- `tcp_connection::create` and `async_accept`
unfoldable pub start_accept : TcpServer → TcpServer
start_accept s = record s { accepting = some s.next; next = s.next + 1 }

-- `tcp_connection::start`
unfoldable pub start : (id : ℕ) (daytime : List ℕ) → TcpServer → TcpServer
start id daytime s = record s { writing = s.writing ++ record { id = id; message = daytime } ∷ [] }

unfoldable pub handle_accept : (error : Bool) (conn : ℕ) (daytime : List ℕ) → TcpServer → TcpServer
handle_accept error conn daytime s = start_accept (if error then s else start conn daytime s)

-- `tcp_server (io)`
unfoldable pub tcp_server : TcpServer
tcp_server = start_accept (record { accepting = none; next = 0; writing = [] })

-- A datagram to an endpoint.
pub record Datagram : Type 0 where
  pub endpoint : ℕ
  pub message : List ℕ

-- `m_endpoint`, whether `async_receive_from` is pending, and the datagrams given to `async_send_to`.
pub record UdpServer : Type 0 where
  pub m_endpoint : ℕ
  pub is_receiving : Bool
  pub sending : List Datagram

unfoldable pub start_receive : UdpServer → UdpServer
start_receive s = record s { is_receiving = true }

unfoldable pub handle_receive : (error : Bool) (daytime : List ℕ) → UdpServer → UdpServer
handle_receive error daytime s = start_receive (
    if error then s else record s {
      sending = s.sending ++ record { endpoint = s.m_endpoint; message = daytime } ∷ [];
    })

-- `handle_write` and `handle_send` do nothing.
unfoldable pub handle_write : TcpServer → TcpServer
handle_write s = s

unfoldable pub handle_send : UdpServer → UdpServer
handle_send s = s

-- `udp_server (ctx)`
unfoldable pub udp_server : UdpServer
udp_server = start_receive (record { m_endpoint = 0; is_receiving = false; sending = [] })

-- `main` of 07, with both servers on one io_context.
pub record Program : Type 0 where
  pub tcp : TcpServer
  pub udp : UdpServer

unfoldable pub main : Program
main = record { tcp = tcp_server; udp = udp_server }

-- The completions of Boost.Asio, with the daytime of their handlers.
pub data Completion : Type 0 where
  accepted : (daytime : List ℕ) → Completion
  accept_failed : Completion
  written : Completion
  received : (endpoint : ℕ) (daytime : List ℕ) → Completion
  receive_failed : Completion
  sent : Completion

-- The handler of the pending `async_accept`, and of the pending `async_receive_from`, which has stored the endpoint.
abbrev pub accept : (error : Bool) (daytime : List ℕ) → TcpServer → TcpServer
accept error daytime s = elim s.accepting [
  | none ↦ s
  | some conn ↦ handle_accept error conn daytime (record s { accepting = none })
]

abbrev pub receive : (error : Bool) (endpoint : ℕ) (daytime : List ℕ) → UdpServer → UdpServer
receive error endpoint daytime s =
    if s.is_receiving
    then handle_receive error daytime (record s { m_endpoint = endpoint; is_receiving = false })
    else s

unfoldable pub react : Completion → Program → Program
react (accepted daytime) p = record p { tcp = accept false daytime p.tcp }
react accept_failed p = record p { tcp = accept true [] p.tcp }
react written p = record p { tcp = handle_write p.tcp }
react (received endpoint daytime) p = record p { udp = receive false endpoint daytime p.udp }
react receive_failed p = record p { udp = receive true p.udp.m_endpoint [] p.udp }
react sent p = record p { udp = handle_send p.udp }

unfoldable pub run : List Completion → Program → Program
run [] p = p
run (c ∷ cs) p = run cs (react c p)
