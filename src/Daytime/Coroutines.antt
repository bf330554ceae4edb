-- ===== src/Daytime/Coroutines.antt =====
-- asio/socket/03/co.cc: the daytime server with coroutines. `conn` is the only owner of a connection, since the lambda
-- of `start` captures `this`; what `live` holds has not been destroyed.
use snippets_cc.Prelude.{ℕ, ◌+◌, ◌<◌, ◌≡◌, refl, List, [], ◌∷◌, All, All-map, arith}

-- `accepting` is the connection of the pending `async_accept`, `writing` are those whose `async_write` is pending.
pub data Server : Type 0 where
  listening : (accepting : ℕ) (live writing : List ℕ) → Server
  -- `async_accept` has thrown, which ends the coroutine
  ended : (live writing : List ℕ) → Server

-- The top of the loop: `conn` of the iteration before is gone, a new one is made.
unfoldable pub accept_next : ℕ → (writing : List ℕ) → Server
accept_next conn writing = listening conn (conn ∷ []) writing

-- `conn->start (ex)` up to the yield of the write, and the end of the iteration.
unfoldable pub accepted : Server → Server
accepted (listening conn live writing) = accept_next (conn + 1) (conn ∷ writing)
accepted (ended live writing) = ended live writing

unfoldable pub accept_failed : Server → Server
accept_failed (listening conn live writing) = ended [] writing
accept_failed (ended live writing) = ended live writing

-- `tcp_server (io)`
unfoldable pub tcp_server : Server
tcp_server = accept_next 0 []

pub data Completion : Type 0 where
  accept_ends accept_throws : Completion

unfoldable pub run : List Completion → Server → Server
run [] s = s
run (accept_ends ∷ cs) s = run cs (accepted s)
run (accept_throws ∷ cs) s = run cs (accept_failed s)

-- Every connection whose write is pending has been destroyed: those that live have a larger number.
abbrev AreDestroyed : Server → Type 0
AreDestroyed (listening conn live writing) = All (λ c. c < conn) writing × (live ≡ conn ∷ [])
AreDestroyed (ended live writing) = live ≡ []

run_from-AreDestroyed :
    (cs : List Completion) (s : Server) → AreDestroyed s → AreDestroyed (run cs s)
unfolding run accepted accept_failed accept_next
run_from-AreDestroyed [] s h = h
run_from-AreDestroyed (accept_ends ∷ cs) (listening conn live writing) h =
    run_from-AreDestroyed cs (accepted (listening conn live writing))
      ((omega arith, All-map _ _ (λ c lt. omega arith) writing h.0), refl)
run_from-AreDestroyed (accept_ends ∷ cs) (ended live writing) h =
    run_from-AreDestroyed cs (ended live writing) h
run_from-AreDestroyed (accept_throws ∷ cs) (listening conn live writing) h =
    run_from-AreDestroyed cs (ended [] writing) refl
run_from-AreDestroyed (accept_throws ∷ cs) (ended live writing) h =
    run_from-AreDestroyed cs (ended live writing) h

-- The connections whose writes are pending have been destroyed, whatever completes.
run-AreDestroyed : (cs : List Completion) → AreDestroyed (run cs tcp_server)
unfolding tcp_server accept_next
run-AreDestroyed cs = run_from-AreDestroyed cs tcp_server (tt, refl)
