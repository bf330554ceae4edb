-- ===== src/Daytime/Tests.antt =====
-- A run of the two servers, and the theorem at it.
use snippets_cc.Prelude.{◌≡◌, refl, true, false, some, none, List, [], ◌∷◌, get_elem?, arith}
use snippets_cc.Daytime.Blocking.{Stream, Accept, serve, write, receive, print_datagram, returned}
use snippets_cc.Daytime.Blocking
use snippets_cc.Daytime.RoundTrip.{receive-serve}
use snippets_cc.Daytime.{
  Completion, accepted, accept_failed, written, received, receive_failed, main, react, run, start,
  start_accept, start_receive, handle_accept, handle_receive, tcp_server, udp_server,
}
use snippets_cc.Daytime.Answers.{HaveAnswered, tcp_answers, udp_answers, attempts, run-HaveAnswered}

abbrev completions : List Completion
completions =
    accepted (49 ∷ [])
    ∷ received 5 (50 ∷ [])
    ∷ accept_failed
    ∷ written
    ∷ receive_failed
    ∷ accepted (51 ∷ [])
    ∷ []

completions_lem :
    (run completions main).udp.sending ≡ record { endpoint = 5; message = 50 ∷ [] } ∷ []
unfolding run main react start start_accept start_receive handle_accept handle_receive tcp_server
    udp_server
completions_lem = refl

run-HaveAnswered_example :
    HaveAnswered
      (run completions main)
      (tcp_answers 0 completions)
      (udp_answers completions)
      (attempts completions)
run-HaveAnswered_example = run-HaveAnswered completions

-- The write to the first client of 02 fails after one byte.
abbrev calls : List Accept
calls =
    Blocking.accepted (49 ∷ 50 ∷ []) (some (1, true))
    ∷ Blocking.accepted (51 ∷ 52 ∷ 53 ∷ []) none
    ∷ []

receive-serve_example :
    (s : Stream) × (get_elem? (serve calls).0 1 ≡ some s)
    × (receive (0 ∷ 7 ∷ 0 ∷ 0 ∷ []) s [] ≡ record { printed = 51 ∷ 52 ∷ 53 ∷ []; exit = returned })
receive-serve_example =
    receive-serve calls 1 (51 ∷ 52 ∷ 53 ∷ []) (0 ∷ 7 ∷ 0 ∷ 0 ∷ []) refl (tt, tt) (omega arith)

-- The server of 05 answers the request, and the client of 04 prints the datagram.
answer_one_request :
    Blocking.answer (Blocking.received 5 (49 ∷ 50 ∷ []) true ∷ [])
    ≡ (record { endpoint = 5; message = 49 ∷ 50 ∷ [] } ∷ [], false)
unfolding Blocking.answer
answer_one_request = refl
