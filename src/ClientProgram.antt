-- ===== src/ClientProgram.antt =====
-- asio/echo/co_client.cc and asio/echo/client.cc: the whole program, the threads of Shutdown.Client with the sessions that
-- they run and the counters that the sessions share with `monitor`. How a session goes on at a completion is given,
-- since the two programs differ in it.
pub mod Sessions
pub mod Invariant
pub mod Sizes
pub mod Counters
pub mod Runs
pub mod Quiet
pub mod Stops
pub mod Progress
pub mod Returns
pub mod Threads
pub mod CoClient
mod Tests
use snippets_cc.Prelude.{
  ℕ, ◌+◌, ◌≤◌, ◌<◌, ◌≡◌, Bool, true, false, not, ◌&&◌, if◌then◌else◌, none, some, List, [], ◌∷◌,
  ◌++◌, get_elem?, set, replicate, ◌==◌,
}
use snippets_cc.EchoClient.{Statistics, Pending, ended, Session, int_mod, make}
use snippets_cc.EchoClient.Sessions.{Completion}
use snippets_cc.EchoClient.Monitor.{conns, int_less}
use snippets_cc.EchoClient.Counters.{is_connected, Moves}
use snippets_cc.Shutdown.Client
use snippets_cc.Shutdown.Client.{Worker}

-- How a session goes on when its pending operation completes.
abbrev pub Reaction : Type 0
Reaction = Completion → Session → Statistics → Session × Statistics

-- What the program relies on: a reaction changes each counter as its session changes, and an ended session has none.
pub record SessionLaws (react : Reaction) : Type 0 where
  pub moves :
      (c : Completion) (s : Session) (st : Statistics)
      → st.completed + 1 < int_mod
      → st.connected + 1 < int_mod
      → st.failed + 1 < int_mod
      → is_connected s.pending ≤ st.connected
      → Moves s st (react c s st)
  pub stays_ended :
      (c : Completion) (s : Session) (st : Statistics) → s.pending ≡ ended → react c s st ≡ (s, st)

-- What a turn of a thread of `echo_thrds` meets: the operation of a session completes, none has completed, or an
-- exception.
pub data Meeting : Type 0 where
  completes : (session : ℕ) → Completion → Meeting
  nothing throws : Meeting

-- The threads, the sessions of each context, and the counters.
pub record System : Type 0 where
  pub threads : Client.System
  pub sessions : List (List Session)
  pub statistics : Statistics

pub data Action : Type 0 where
  interrupt main_turn monitor_turn : Action
  worker_turn : ℕ → Meeting → Action

abbrev pub is_ended : Pending → Bool
is_ended ended = true
is_ended _ = false

-- The context has no work left.
unfoldable pub all_ended : List Session → Bool
all_ended [] = true
all_ended (s ∷ ss) = is_ended s.pending && all_ended ss

-- The loop that makes the sessions of a thread. If it throws, the thread does not come to `io.run ()`, so that none of
-- its sessions begins.
unfoldable pub spawn : (connections i : ℕ) → System → System
spawn connections i s = elim (get_elem? s.sessions i) [
  | none ↦ s
  | some ss ↦ record s { sessions = set s.sessions i (ss ++ replicate (conns connections) make) }
]

module _ (react : Reaction) where
  -- The operation of session `j` of context `i` completes.
  unfoldable pub complete : (i j : ℕ) → Completion → System → System
  complete i j c s = elim (get_elem? s.sessions i) [
    | none ↦ s
    | some ss ↦ elim (get_elem? ss j) [
      | none ↦ s
      | some x ↦ record s {
        sessions = set s.sessions i (set ss j (react c x s.statistics).0);
        statistics = (react c x s.statistics).1;
      }
    ]
  ]

module _ (react : Reaction) (connections : ℕ) where
  -- What a turn of thread `i` does to the sessions and the counters.
  unfoldable pub work : (i : ℕ) → Meeting → Worker → (is_stopped : Bool) → System → System
  work i throws w is_stopped s = s
  work i nothing Worker.starting is_stopped s = spawn connections i s
  work i (completes j c) Worker.starting is_stopped s = spawn connections i s
  work i (completes j c) Worker.running is_stopped s =
      if is_stopped then s else complete react i j c s
  work i m w is_stopped s = s

  unfoldable pub works : Action → System → System
  unfolding work
  works (worker_turn i m) s = elim (get_elem? s.threads.echo i) [
    | none ↦ s
    | some e ↦ work i m e.worker e.is_stopped s
  ]
  works interrupt s = s
  works main_turn s = s
  works monitor_turn s = s

abbrev pub turn_of : Meeting → (no_work_left : Bool) → Client.Turn
turn_of (completes j c) no_work_left = Client.Turn.handlers
turn_of nothing true = Client.Turn.no_work
turn_of nothing false = Client.Turn.handlers
turn_of throws no_work_left = Client.Turn.exception

unfoldable pub no_work_left : ℕ → List (List Session) → Bool
unfolding all_ended
no_work_left i sss = elim (get_elem? sss i) [ none ↦ true | some ss ↦ all_ended ss ]

-- What the action is to the threads: `monitor` loads the counters, and a thread returns from `io.run ()` when its
-- sessions have ended.
unfoldable pub action_of : (connections : ℕ) → Action → System → Client.Action
action_of connections interrupt s = Client.interrupt
action_of connections main_turn s = Client.main_turn
action_of connections monitor_turn s =
    Client.monitor_turn (not (int_less s.statistics.completed connections))
      (s.statistics.connected == 0)
action_of connections (worker_turn i m) s =
    Client.worker_turn i (turn_of m (no_work_left i s.sessions))

module _ (react : Reaction) (connections : ℕ) where
  unfoldable pub step : Action → System → System
  unfolding works
  step a s = record (works react connections a s) {
    threads = Client.step (action_of connections a s) s.threads;
  }

-- `main` with its ten contexts, before the first thread is made.
unfoldable pub start : System
start = record {
  threads = Client.start 10;
  sessions = replicate 10 [];
  statistics = record { echoes = 0; failed = 0; connected = 0; completed = 0 };
}
