-- ===== src/EchoClient/Coroutine/Resume.antt =====
-- asio/echo/co_client.cc: the session, one part at a time: from the completion of the operation for which it is
-- suspended to the next one.
use snippets_cc.Prelude.{◌≡◌, refl, ◌∙◌, true, false, List, [], ◌∷◌, ap}
use snippets_cc.EchoClient.{
  Statistics, Pending, connecting, writing, reading, waiting, ended, Session, make,
}
use snippets_cc.EchoClient.Sessions.{Completion, failure, success, error, fill}
use snippets_cc.EchoClient.Coroutine.{greet, give_up, check_echo, send, recv, delay, start}

-- The coroutine goes on.
unfoldable pub resume_at : Pending → Completion → Session → Statistics → Session × Statistics
resume_at connecting c s st = start (c ∷ []) s st
resume_at writing c s st = elim (error c) [ true ↦ give_up s st | false ↦ recv [] s st ]
resume_at reading c s st = recv (c ∷ []) s st
resume_at waiting c s st = delay (c ∷ []) s st
resume_at ended c s st = (s, st)

unfoldable pub resume : Completion → Session → Statistics → Session × Statistics
unfolding resume_at
resume c s st = resume_at s.pending c s st

unfoldable pub resume_all : List Completion → Session × Statistics → Session × Statistics
unfolding resume
resume_all [] x = x
resume_all (c ∷ cs) (s, st) = resume_all cs (resume c s st)

resume_all-ended :
    (cs : List Completion) (s : Session) (st : Statistics)
    → s.pending ≡ ended
    → resume_all cs (s, st) ≡ (s, st)
unfolding resume_all resume resume_at
resume_all-ended [] s st e = refl
resume_all-ended (c ∷ cs) s st e =
    ap (λ p. resume_all cs (resume_at p c s st)) e ∙ resume_all-ended cs s st e

-- From a yield on, the parts one after another are the rest of the loop.
mutual
  unfolding resume_all resume resume_at send recv delay

  resume_all-send :
      (cs : List Completion) (s : Session) (st : Statistics)
      → resume_all cs (record (greet s) { pending = writing }, st) ≡ send cs s st
  resume_all-send [] s st = refl
  resume_all-send (failure ∷ cs) s st = resume_all-ended cs _ _ refl
  resume_all-send (success b ∷ cs) s st = resume_all-recv cs (greet s) st

  resume_all-recv :
      (cs : List Completion) (s : Session) (st : Statistics)
      → resume_all cs (record s { pending = reading }, st) ≡ recv cs s st
  resume_all-recv [] s st = refl
  resume_all-recv (failure ∷ cs) s st = resume_all-ended cs _ _ refl
  resume_all-recv (success b ∷ cs) s st =
      resume_all-delay cs (fill (success b) s) (check_echo (fill (success b) s) st)

  resume_all-delay :
      (cs : List Completion) (s : Session) (st : Statistics)
      → resume_all cs (record s { pending = waiting }, st) ≡ delay cs s st
  resume_all-delay [] s st = refl
  resume_all-delay (c ∷ cs) s st = resume_all-send cs s st

-- A session of co_client.cc that is resumed at each of its completions comes to where the coroutine comes with all of
-- them: it waits for the same operation, holds the same buffers and has counted the same.
pub resume_all-start :
    (cs : List Completion) (st : Statistics) → resume_all cs (make, st) ≡ start cs make st
unfolding resume_all resume resume_at start send make
resume_all-start [] st = refl
resume_all-start (failure ∷ cs) st = resume_all-ended cs _ _ refl
resume_all-start (success b ∷ cs) st = resume_all-send cs make _
