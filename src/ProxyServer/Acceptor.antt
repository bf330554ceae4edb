-- ===== src/ProxyServer/Acceptor.antt =====
-- asio/proxy/server.cc, class server, with the sessions of ProxyServer. Every session connects to the same target.
use snippets_cc.Prelude.{ℕ, ◌+◌, ◌≡◌, refl, List, [], ◌∷◌, length, All, false, arith}
use snippets_cc.Asio.Acceptor.{SessionOps, SessionLaws, Server, run, admitted, length-run, run-All}
use snippets_cc.Asio.Acceptor as Acceptor
use snippets_cc.ProxyServer.{Session, start}
use snippets_cc.ProxyServer.Sessions.{Completion, step}
use snippets_cc.ProxyServer.Sessions as Sessions
use snippets_cc.ProxyServer.Forwarding.{IsSound, run-IsSound, start-IsSound}
use snippets_cc.ProxyServer.Watchdogs.{
  AreWatched, run_all-AreWatched, later-AreWatched, run-AreWatched,
}

-- `session::make (sock)` and `start (target_)`, with what the two arrays of the new session hold.
unfoldable pub sessions : (timeout : ℕ) → SessionOps Session (List ℕ × List ℕ) Completion
sessions timeout = record {
  started = λ now memory. start timeout now memory.0 memory.1;
  step = step;
  advance = λ elapsed s. record s { now = s.now + elapsed };
}

-- `server (ex, ep)` and `start (target)`
unfoldable pub listen : (now : ℕ) → Server Session
listen now = Acceptor.start (record { is_accepting = false; sessions = []; now = now })

abbrev pub IsForwarded : Session → Type 0
IsForwarded s = IsSound s × AreWatched s

sessions-IsForwarded : (timeout : ℕ) → SessionLaws (sessions timeout) IsForwarded
unfolding sessions Sessions.run
sessions-IsForwarded timeout = record {
  of_started = λ now memory. (
    start-IsSound timeout now memory.0 memory.1,
    run-AreWatched timeout now memory.0 memory.1 [],
  );
  of_step = λ e elapsed s h.
      (run-IsSound ((e, elapsed) ∷ []) s h.0, run_all-AreWatched ((e, elapsed) ∷ []) s h.1);
  of_advance = λ elapsed s h. (h.0, later-AreWatched s elapsed h.1);
}

-- In whatever order the accepts and the operations of the sessions complete, each session of the proxy passes on what it
-- received and has its timers armed while it runs, as a session by itself; and there is a session for each accept that succeeds
-- before the first that fails, and none for a later one.
pub run-IsForwarded :
    (timeout now : ℕ) (cs : List (Acceptor.Completion (List ℕ × List ℕ) Completion × ℕ))
    → All IsForwarded (run (sessions timeout) cs (listen now)).sessions
      × (length (run (sessions timeout) cs (listen now)).sessions ≡ admitted cs)
unfolding listen Acceptor.start
run-IsForwarded timeout now cs = (
  run-All (sessions timeout) (sessions-IsForwarded timeout) cs (listen now) tt,
  omega (arith, length-run (sessions timeout) cs (listen now) refl),
)
