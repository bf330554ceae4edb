-- ===== src/ClientProgram/CoClient.antt =====
-- asio/echo/co_client.cc: the program with the coroutines as its sessions.
use snippets_cc.Prelude.{ℕ, ◌<◌, ◌≡◌, true, List, length, All}
use snippets_cc.EchoClient.Coroutine.Resume.{resume}
use snippets_cc.Shutdown.Rounds.{Program, run, run_rounds, has}
use snippets_cc.Shutdown.Client.Progress.{Thread, IsThread, IsOver}
use snippets_cc.ClientProgram.{System, Action, start}
use snippets_cc.ClientProgram.Sessions.{coroutine_laws}
use snippets_cc.ClientProgram.Invariant.{AreCounted}
use snippets_cc.ClientProgram.Runs.{program, run-AreCounted}
use snippets_cc.ClientProgram.Quiet.{Quiet}
use snippets_cc.ClientProgram.Returns.{returns_by_itself}

-- The program that is asked for so many connections.
abbrev pub co_client : (connections : ℕ) → Program System Action Thread
co_client connections = program resume connections

-- The state after these turns.
abbrev pub after : (connections : ℕ) → List Action → System
after connections acts = run (co_client connections) acts start

-- For fewer than 2 ^ 31 - 10 connections, in every run of the program, whatever its threads meet, between the parts of its
-- sessions, each from a completion to the next yield: `completed`, `connected`
-- and `failed` are the numbers of the sessions, of all contexts, whose connection has been made or has failed, that have
-- one, and that have ended.
pub co_client-AreCounted :
    (connections : ℕ) (acts : List Action)
    → connections < 2147483638
    → AreCounted (after connections acts).statistics (after connections acts).sessions
co_client-AreCounted connections acts few = run-AreCounted coroutine_laws connections few acts

-- For fewer than 2 ^ 31 - 10 connections, once every thread has made its sessions and every session has ended, as when there is no
-- server or it goes away: if every thread keeps getting turns, then, without SIGINT and whatever the turns meet, `monitor`
-- sets `stop` and `main` returns within 71 rounds, with each context stopped and each thread at its end.
pub co_client_returns :
    (connections : ℕ) (before : List Action) (rounds : List (List Action))
    → connections < 2147483638
    → Quiet connections (after connections before)
    → All (λ r. (t : Thread) → IsThread 10 t → has (co_client connections) t r ≡ true) rounds
    → 71 < length rounds
    → IsOver (run_rounds (co_client connections) rounds (after connections before)).threads
co_client_returns connections before rounds few quiet fair enough =
    returns_by_itself coroutine_laws connections few before rounds quiet fair enough
