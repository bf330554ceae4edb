-- ===== src/EchoClient/Tests.antt =====
-- Sessions of the echo client that connect, exchange messages and fail, and the theorems at them.
use snippets_cc.Prelude.{ℕ, ◌≡◌, refl, false, List, [], ◌∷◌, length, All}
use snippets_cc.EchoClient.{
  Statistics, hello, make, start, on_error, handle_connect, handle_write, handle_read, handle_wait,
}
use snippets_cc.EchoClient.Sessions.{Completion, failure, success, react, step, run}
use snippets_cc.EchoClient.Counters.{initial, is_completed}
use snippets_cc.EchoClient.Coroutine as Coroutine
use snippets_cc.EchoClient.Coroutine.{run_callbacks, forgive, start-run_callbacks}
use snippets_cc.EchoClient.Monitor.{Loads, report, last_echoes, conns, make_sessions}

-- The first of two sessions gets its message back, the second cannot connect.
abbrev completions : List (ℕ × Completion)
completions = (0, success []) ∷ (1, failure) ∷ (0, success []) ∷ (0, success hello) ∷ []

completions_lem :
    ((run completions (initial 2)).statistics.echoes ≡ 1)
    × ((run completions (initial 2)).statistics.connected ≡ 1)
    × ((run completions (initial 2)).statistics.failed ≡ 1)
unfolding run step react make start on_error handle_connect handle_write handle_read handle_wait
completions_lem = (refl, refl, refl)

abbrev no_statistics : Statistics
no_statistics = record { echoes = 0; failed = 0; connected = 0; completed = 0 }

abbrev session_completions : List Completion
session_completions = success [] ∷ success [] ∷ success hello ∷ failure ∷ failure ∷ []

start_lem : (Coroutine.start session_completions make no_statistics).1.echoes ≡ 1
unfolding Coroutine.start Coroutine.send Coroutine.recv Coroutine.delay make
start_lem = refl

start-run_callbacks_example :
    Coroutine.start session_completions make no_statistics
    ≡ run_callbacks (forgive session_completions) (make, no_statistics)
start-run_callbacks_example = start-run_callbacks session_completions no_statistics

abbrev loads : List Loads
loads =
    record { stop = false; connected = 2; echoes = 3; active = 2; failed = 0 }
    ∷ record { stop = false; connected = 2; echoes = 7; active = 1; failed = 1 }
    ∷ record { stop = false; connected = 0; echoes = 8; active = 0; failed = 2 }
    ∷ []

loads_lem : last_echoes 0 (report loads 0 0).lines ≡ 7
unfolding last_echoes report
loads_lem = refl

-- One connection is asked for, 10 sessions are made, and all fail to connect.
abbrev refused : List (ℕ × Completion)
refused =
    (0, failure)
    ∷ (1, failure)
    ∷ (2, failure)
    ∷ (3, failure)
    ∷ (4, failure)
    ∷ (5, failure)
    ∷ (6, failure)
    ∷ (7, failure)
    ∷ (8, failure)
    ∷ (9, failure)
    ∷ []

refused-All :
    All
      (λ s. is_completed s.pending ≡ 1)
      (run refused (initial (length (make_sessions 10 1)))).sessions
unfolding run step react handle_connect make make_sessions conns
refused-All = (refl, (refl, (refl, (refl, (refl, (refl, (refl, (refl, (refl, (refl, tt))))))))))
