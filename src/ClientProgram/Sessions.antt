-- ===== src/ClientProgram/Sessions.antt =====
-- asio/echo/co_client.cc and asio/echo/client.cc: how the sessions of the two programs go on.
use mathlib.Core.Path.{subst}
use snippets_cc.Prelude.{◌≡◌, refl, sym, ap, []}
use snippets_cc.EchoClient.{
  Statistics, Pending, connecting, writing, reading, waiting, ended, Session, start, on_error,
  handle_connect, handle_write, handle_read, handle_wait,
}
use snippets_cc.EchoClient.Sessions.{Completion, failure, success, react}
use snippets_cc.EchoClient.Counters.{Moves, react-Moves}
use snippets_cc.EchoClient.Coroutine
use snippets_cc.EchoClient.Coroutine.{send, recv, delay}
use snippets_cc.EchoClient.Coroutine.Resume.{resume_at, resume}
use snippets_cc.ClientProgram.{SessionLaws}

-- The handlers of client.cc.
unfoldable pub handle : Completion → Session → Statistics → Session × Statistics
unfolding react
handle c s st = react c s.pending s st

-- The completion without the error that the session of co_client.cc does not look at.
abbrev pub unlooked : Pending → Completion → Completion
unlooked waiting c = success []
unlooked _ c = c

resume_at-react :
    (p : Pending) (c : Completion) (s : Session) (st : Statistics)
    → resume_at p c s st ≡ react (unlooked p c) p s st
unfolding resume_at react Coroutine.start send recv delay handle_connect handle_write handle_read
    handle_wait on_error start
resume_at-react connecting failure s st = refl
resume_at-react connecting (success b) s st = refl
resume_at-react writing failure s st = refl
resume_at-react writing (success b) s st = refl
resume_at-react reading failure s st = refl
resume_at-react reading (success b) s st = refl
resume_at-react waiting failure s st = refl
resume_at-react waiting (success b) s st = refl
resume_at-react ended c s st = refl

pub handler_laws : SessionLaws handle
unfolding handle react
handler_laws = record {
  moves = λ c s st few few' few'' le. react-Moves c s.pending s st refl few few' few'' le;
  stays_ended = λ c s st e. ap (λ p. react c p s st) e;
}

pub coroutine_laws : SessionLaws resume
unfolding resume resume_at
coroutine_laws = record {
  moves = λ c s st few few' few'' le.
      subst (Moves s st) (sym (resume_at-react s.pending c s st))
        (react-Moves (unlooked s.pending c) s.pending s st refl few few' few'' le);
  stays_ended = λ c s st e. ap (λ p. resume_at p c s st) e;
}
