-- ===== src/EchoServer/Acceptor.antt =====
-- asio/echo/server.cc, class server, with the sessions of EchoServer.
use snippets_cc.Prelude.{ℕ, ◌≡◌, refl, List, [], ◌∷◌, length, All, false, arith}
use snippets_cc.Asio.Acceptor.{
  SessionOps, SessionLaws, Server, Completion, run, admitted, length-run, run-All,
}
use snippets_cc.Asio.Acceptor as Acceptor
use snippets_cc.EchoServer.{Session}
use snippets_cc.EchoServer.Events.{Event, advance, step, started}
use snippets_cc.EchoServer.Events as Events
use snippets_cc.EchoServer.Echo.{IsBalanced, run-Owes, received-sent}
use snippets_cc.EchoServer.Watchdog.{IsGuarded, run-IsGuarded, started-IsGuarded}

-- `session::make (sock)` and `start (false)`, with what the array of the new session holds.
unfoldable pub sessions : (timeout : ℕ) → SessionOps Session (List ℕ) Event
sessions timeout = record { started = started timeout; step = step; advance = advance }

-- `server (ex, port)` and `start ()`
unfoldable pub listen : (now : ℕ) → Server Session
listen now = Acceptor.start (record { is_accepting = false; sessions = []; now = now })

abbrev pub IsServed : Session → Type 0
IsServed s = IsBalanced s × IsGuarded s

sessions-IsServed : (timeout : ℕ) → SessionLaws (sessions timeout) IsServed
unfolding sessions Events.run
sessions-IsServed timeout = record {
  of_started =
      λ now memory. (received-sent timeout now memory [], started-IsGuarded timeout now memory []);
  of_step = λ e elapsed s h.
      (run-Owes ((e, elapsed) ∷ []) s h.0, run-IsGuarded ((e, elapsed) ∷ []) s h.1);
  of_advance = λ elapsed s h. (h.0, (h.1.0, omega (arith, h.1.1)));
}

-- In whatever order the accepts and the operations of the sessions complete, each session of the server sends back what it
-- received and has its timer armed while it is open, as a session by itself; and the server has a session for each accept that
-- succeeds before the first that fails, and none for a later one.
pub run-IsServed :
    (timeout now : ℕ) (cs : List (Completion (List ℕ) Event × ℕ))
    → All IsServed (run (sessions timeout) cs (listen now)).sessions
      × (length (run (sessions timeout) cs (listen now)).sessions ≡ admitted cs)
unfolding listen Acceptor.start
run-IsServed timeout now cs = (
  run-All (sessions timeout) (sessions-IsServed timeout) cs (listen now) tt,
  omega (arith, length-run (sessions timeout) cs (listen now) refl),
)
