-- ===== src/EchoClient/Sessions.antt =====
-- asio/echo/client.cc: a session under the completions of Boost.Asio, and many sessions whose handlers run
-- in any order.
use snippets_cc.Prelude.{ℕ, Bool, true, false, none, some, List, [], ◌∷◌, get_elem?, set}
use snippets_cc.EchoClient.{
  Statistics, Pending, connecting, writing, reading, waiting, ended, Session, handle_connect,
  handle_write, handle_read, handle_wait,
}

-- The pending operation completes with an error, or without; a read completes with what it has read.
pub data Completion : Type 0 where
  failure : Completion
  success : (bytes : List ℕ) → Completion

abbrev pub error : Completion → Bool
error failure = true
error (success bytes) = false

-- `recv_buffer_` after `async_read`.
abbrev pub fill : Completion → Session → Session
fill failure s = s
fill (success bytes) s = record s { recv_buffer = bytes }

-- The handler of the pending operation.
unfoldable pub react : Completion → Pending → Session → Statistics → Session × Statistics
react c connecting s st = handle_connect (error c) s st
react c writing s st = handle_write (error c) s st
react c reading s st = handle_read (error c) (fill c s) st
react c waiting s st = handle_wait (error c) s st
react c ended s st = (s, st)

-- The sessions of all threads, and the statistics.
pub record System : Type 0 where
  pub sessions : List Session
  pub statistics : Statistics

-- The operation of session `i` completes.
unfoldable pub step : ℕ → Completion → System → System
step i c sys = elim (get_elem? sys.sessions i) [
  | none ↦ sys
  | some s ↦
      let (s', st) = react c s.pending s sys.statistics in
      record { sessions = set sys.sessions i s'; statistics = st }
]

unfoldable pub run : List (ℕ × Completion) → System → System
run [] sys = sys
run ((i, c) ∷ cs) sys = run cs (step i c sys)
