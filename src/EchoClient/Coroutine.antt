-- ===== src/EchoClient/Coroutine.antt =====
-- asio/echo/co_client.cc: the session as one coroutine, in direct style. It takes the completions of its
-- operations one after another, each where it yields; without a further one it stays suspended there.
pub mod Resume
use snippets_cc.Prelude.{◌≡◌, refl, sym, true, false, List, [], ◌∷◌, if◌then◌else◌, length}
use snippets_cc.EchoClient.{
  Statistics, connecting, writing, reading, waiting, ended, Session, hello, resize, same_bytes,
  increment, decrement, finish, make, on_error, handle_connect, handle_write, handle_read,
  handle_wait,
}
use snippets_cc.EchoClient as Callbacks
use snippets_cc.EchoClient.Sessions.{Completion, failure, success, error, fill, react}

-- The buffers before the message is sent.
abbrev pub greet : Session → Session
greet s = record s { send_buffer = hello; recv_buffer = resize (length hello) s.recv_buffer }

-- `connected--; failed++; break`
abbrev pub give_up : Session → Statistics → Session × Statistics
give_up s st =
    (finish s, record st { connected = decrement st.connected; failed = increment st.failed })

-- "check"
abbrev pub check_echo : Session → Statistics → Statistics
check_echo s st =
    if same_bytes s.recv_buffer s.send_buffer
    then record st { echoes = increment st.echoes }
    else st

-- The loop, from "send", from "recv" and from "delay" on.
unfoldable mutual
  pub send : List Completion → Session → Statistics → Session × Statistics
  send [] s st = (record (greet s) { pending = writing }, st)
  send (c ∷ cs) s st = elim (error c) [ true ↦ give_up (greet s) st | false ↦ recv cs (greet s) st ]

  pub recv : List Completion → Session → Statistics → Session × Statistics
  recv [] s st = (record s { pending = reading }, st)
  recv (c ∷ cs) s st = elim (error c) [
    | true ↦ give_up s st
    | false ↦ let s' = fill c s in delay cs s' (check_echo s' st)
  ]

  -- An error of the wait is not looked at.
  pub delay : List Completion → Session → Statistics → Session × Statistics
  delay [] s st = (record s { pending = waiting }, st)
  delay (c ∷ cs) s st = send cs s st

-- `start (port, yield)`
unfoldable pub start : List Completion → Session → Statistics → Session × Statistics
start [] s st = (s, st)
start (c ∷ cs) s st =
    let st' = record st { completed = increment st.completed } in
    elim (error c) [
      | true ↦ (finish s, record st' { failed = increment st'.failed })
      | false ↦ send cs s (record st' { connected = increment st'.connected })
    ]

-- The same completions for a session of client.cc.
unfoldable pub run_callbacks : List Completion → Session × Statistics → Session × Statistics
run_callbacks [] x = x
run_callbacks (c ∷ cs) (s, st) = run_callbacks cs (react c s.pending s st)

-- The waits of a session that goes on are its fourth completion and every third one after it.
unfoldable mutual
  pub forgive : List Completion → List Completion
  forgive [] = []
  forgive (c ∷ cs) = c ∷ forgive_send cs

  forgive_send : List Completion → List Completion
  forgive_send [] = []
  forgive_send (w ∷ []) = w ∷ []
  forgive_send (w ∷ r ∷ []) = w ∷ r ∷ []
  forgive_send (w ∷ r ∷ d ∷ cs) = w ∷ r ∷ success [] ∷ forgive_send cs

run_callbacks-ended :
    (cs : List Completion) (s : Session) (st : Statistics)
    → run_callbacks cs (finish s, st) ≡ (finish s, st)
unfolding run_callbacks react
run_callbacks-ended [] s st = refl
run_callbacks-ended (c ∷ cs) s st = run_callbacks-ended cs s st

run_callbacks-send :
    (cs : List Completion) (s : Session) (st : Statistics)
    → send cs s st ≡ run_callbacks (forgive_send cs) (Callbacks.start s, st)
unfolding run_callbacks react send recv delay forgive_send handle_write handle_read handle_wait
    on_error Callbacks.start
run_callbacks-send [] s st = refl
run_callbacks-send (failure ∷ []) s st = refl
run_callbacks-send (success b ∷ []) s st = refl
run_callbacks-send (failure ∷ r ∷ []) s st = refl
run_callbacks-send (success b ∷ failure ∷ []) s st = refl
run_callbacks-send (success b ∷ success b' ∷ []) s st = refl
run_callbacks-send (failure ∷ r ∷ d ∷ cs) s st =
    sym (run_callbacks-ended (forgive_send cs) (greet s) (on_error st))
run_callbacks-send (success b ∷ failure ∷ d ∷ cs) s st =
    sym (run_callbacks-ended (forgive_send cs) (greet s) (on_error st))
run_callbacks-send (success b ∷ success b' ∷ d ∷ cs) s st = run_callbacks-send cs _ _

-- A session of co_client.cc and one of client.cc, given the same completions but for the waits, which succeed for
-- the latter, do the same: they wait for the same operation, hold the same buffers and have counted the same.
pub start-run_callbacks :
    (cs : List Completion) (st : Statistics)
    → start cs make st ≡ run_callbacks (forgive cs) (make, st)
unfolding start make run_callbacks forgive react handle_connect
start-run_callbacks [] st = refl
start-run_callbacks (failure ∷ cs) st = sym (run_callbacks-ended (forgive_send cs) make _)
start-run_callbacks (success b ∷ cs) st = run_callbacks-send cs make _
