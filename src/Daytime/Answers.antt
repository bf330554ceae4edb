-- ===== src/Daytime/Answers.antt =====
-- asio/socket/07/main.cc: what the two servers have answered.
use snippets_cc.Prelude.{
  ℕ, ◌+◌, ◌≡◌, refl, sym, ap, ◌∙◌, true, some, List, [], ◌∷◌, ◌++◌, append-nil, append_assoc, arith,
}
use snippets_cc.Daytime.{
  Connection, Datagram, Program, Completion, accepted, accept_failed, written, received,
  receive_failed, sent, main, react, run, start, start_accept, start_receive, handle_accept,
  handle_receive, handle_write, handle_send, tcp_server, udp_server,
}

-- The messages for the connections that are accepted, which are numbered by the calls of `async_accept`; and the number
-- of the next one.
unfoldable pub tcp_answers : ℕ → List Completion → List Connection
tcp_answers n [] = []
tcp_answers n (accepted daytime ∷ cs) =
    record { id = n; message = daytime } ∷ tcp_answers (n + 1) cs
tcp_answers n (accept_failed ∷ cs) = tcp_answers (n + 1) cs
tcp_answers n (_ ∷ cs) = tcp_answers n cs

-- The datagrams for the requests that are received, each to the endpoint of its request.
unfoldable pub udp_answers : List Completion → List Datagram
udp_answers [] = []
udp_answers (received endpoint daytime ∷ cs) =
    record { endpoint = endpoint; message = daytime } ∷ udp_answers cs
udp_answers (_ ∷ cs) = udp_answers cs

-- Both servers have answered `conns` and `datagrams`, and wait for more; the next connection has the number `n`.
abbrev pub HaveAnswered : Program → List Connection → List Datagram → (n : ℕ) → Type 0
HaveAnswered p conns datagrams n =
    (p.tcp.writing ≡ conns)
    × (p.udp.sending ≡ datagrams)
    × (p.tcp.accepting ≡ some n)
    × (p.tcp.next ≡ n + 1)
    × (p.udp.is_receiving ≡ true)

-- The calls of `async_accept` that have completed.
unfoldable pub attempts : List Completion → ℕ
attempts [] = 0
attempts (accepted daytime ∷ cs) = attempts cs + 1
attempts (accept_failed ∷ cs) = attempts cs + 1
attempts (_ ∷ cs) = attempts cs

accepted-HaveAnswered :
    (daytime : List ℕ) (p : Program) (conns : List Connection) (ds : List Datagram) (n : ℕ)
    → HaveAnswered p conns ds n
    → HaveAnswered
        (react (accepted daytime) p)
        (conns ++ record { id = n; message = daytime } ∷ [])
        ds
        (n + 1)
unfolding react handle_accept start start_accept
accepted-HaveAnswered daytime p conns ds n (w, s, a, m, r) =
    rw (a, react)
      (
        ap (λ ms. ms ++ record { id = n; message = daytime } ∷ []) w,
        s,
        ap some m,
        omega (arith, m),
        r,
      )

accept_failed-HaveAnswered :
    (p : Program) (conns : List Connection) (ds : List Datagram) (n : ℕ)
    → HaveAnswered p conns ds n
    → HaveAnswered (react accept_failed p) conns ds (n + 1)
unfolding react handle_accept start_accept
accept_failed-HaveAnswered p conns ds n (w, s, a, m, r) =
    rw (a, react) (w, s, ap some m, omega (arith, m), r)

received-HaveAnswered :
    (endpoint : ℕ) (daytime : List ℕ) (p : Program) (conns : List Connection) (ds : List Datagram)
    (n : ℕ)
    → HaveAnswered p conns ds n
    → HaveAnswered
        (react (received endpoint daytime) p)
        conns
        (ds ++ record { endpoint = endpoint; message = daytime } ∷ [])
        n
unfolding react handle_receive start_receive
received-HaveAnswered endpoint daytime p conns ds n (w, s, a, m, r) =
    rw (r, react)
      (w, ap (λ ms. ms ++ record { endpoint = endpoint; message = daytime } ∷ []) s, a, m, refl)

receive_failed-HaveAnswered :
    (p : Program) (conns : List Connection) (ds : List Datagram) (n : ℕ)
    → HaveAnswered p conns ds n
    → HaveAnswered (react receive_failed p) conns ds n
unfolding react handle_receive start_receive
receive_failed-HaveAnswered p conns ds n (w, s, a, m, r) = rw (r, react) (w, s, a, m, refl)

same-HaveAnswered :
    (p : Program) {conns conns' : List Connection} {ds ds' : List Datagram} {n n' : ℕ}
    → conns ≡ conns'
    → ds ≡ ds'
    → n ≡ n'
    → HaveAnswered p conns ds n
    → HaveAnswered p conns' ds' n'
same-HaveAnswered p c d e (w, s, a, m, r) = (w ∙ c, s ∙ d, a ∙ ap some e, omega (arith, m, e), r)

run_from-HaveAnswered :
    (cs : List Completion) (p : Program) (conns : List Connection) (ds : List Datagram) (n : ℕ)
    → HaveAnswered p conns ds n
    → HaveAnswered (run cs p) (conns ++ tcp_answers n cs) (ds ++ udp_answers cs) (n + attempts cs)
unfolding run tcp_answers udp_answers attempts react handle_write handle_send
run_from-HaveAnswered [] p conns ds n h =
    same-HaveAnswered p (sym (append-nil conns)) (sym (append-nil ds)) (omega arith) h
run_from-HaveAnswered (accepted daytime ∷ cs) p conns ds n h =
    same-HaveAnswered (run cs (react (accepted daytime) p)) (append_assoc conns _ _) refl
      (omega arith)
      (run_from-HaveAnswered cs (react (accepted daytime) p) _ ds (n + 1)
        (accepted-HaveAnswered daytime p conns ds n h))
run_from-HaveAnswered (accept_failed ∷ cs) p conns ds n h =
    same-HaveAnswered (run cs (react accept_failed p)) refl refl (omega arith) (
      run_from-HaveAnswered cs (react accept_failed p) conns ds (n + 1)
        (accept_failed-HaveAnswered p conns ds n h))
run_from-HaveAnswered (written ∷ cs) p conns ds n h = run_from-HaveAnswered cs p conns ds n h
run_from-HaveAnswered (received endpoint daytime ∷ cs) p conns ds n h =
    same-HaveAnswered (run cs (react (received endpoint daytime) p)) refl (append_assoc ds _ _) refl
      (run_from-HaveAnswered cs (react (received endpoint daytime) p) conns _ n
        (received-HaveAnswered endpoint daytime p conns ds n h))
run_from-HaveAnswered (receive_failed ∷ cs) p conns ds n h =
    run_from-HaveAnswered cs _ conns ds n (receive_failed-HaveAnswered p conns ds n h)
run_from-HaveAnswered (sent ∷ cs) p conns ds n h = run_from-HaveAnswered cs p conns ds n h

-- Whatever completes, and in whatever order for the two servers of 07: each connection accepted has been given the daytime
-- of its acceptance, each request received has been answered at its endpoint with the daytime of its receipt, a failed
-- accept or receive ends neither server, and both wait for more.
pub run-HaveAnswered :
    (cs : List Completion)
    → HaveAnswered (run cs main) (tcp_answers 0 cs) (udp_answers cs) (attempts cs)
unfolding main tcp_server udp_server start_accept start_receive
run-HaveAnswered cs =
    same-HaveAnswered (run cs main) refl refl (omega arith)
      (run_from-HaveAnswered cs main [] [] 0 (refl, refl, refl, omega arith, refl))
