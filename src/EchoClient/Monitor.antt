-- ===== src/EchoClient/Monitor.antt =====
-- asio/echo/client.cc: how many sessions `main` makes, and `monitor`. An `int` is its bit pattern, a number
-- below 2 ^ 32; what the loads of the shared counters return is given for each iteration of a loop.
use snippets_cc.Prelude.{
  ℕ, zero, suc, ◌+◌, ◌-◌, ◌*◌, ◌/◌, ◌%◌, ◌≤◌, ◌<◌, ◌≡◌, ◌∙◌, Bool, true, false, not, ◌&&◌,
  Bool-cases, inl, inr, List, [], ◌∷◌, ◌++◌, if◌then◌else◌, ltb, ◌==◌, length, replicate, All,
  length-replicate, length-append, arith,
}
use snippets_cc.EchoClient.{int_mod, Session, make}
use snippets_cc.EchoClient.Sessions.{Completion, run}
use snippets_cc.EchoClient.Counters.{run-IsCounted, initial, is_completed, total-All, length-run}

-- `conns` of a thread, for a number of connections that is not negative.
unfoldable pub conns : ℕ → ℕ
conns connections = connections / 10 + (if connections % 10 == 0 then 0 else 1)

-- The sessions of the first `threads` threads, each with its port.
unfoldable pub make_sessions : (threads connections : ℕ) → List (ℕ × Session)
make_sessions zero connections = []
make_sessions (suc i) connections =
    make_sessions i connections ++ replicate (conns connections) (8080 + i, make)

-- `<` of two `int`s
abbrev pub int_less : ℕ → ℕ → Bool
int_less a b = ltb ((a + 2147483648) % int_mod) ((b + 2147483648) % int_mod)

-- The condition of the loop that waits for the connections.
unfoldable pub is_establishing : (stop : Bool) → (completed connections : ℕ) → Bool
is_establishing stop completed connections = not stop && int_less completed connections

-- The loads of one iteration of the loop that reports, in their order.
pub record Loads : Type 0 where
  pub stop : Bool
  pub connected : ℕ
  pub echoes : ℕ
  pub active : ℕ
  pub failed : ℕ

pub record Line : Type 0 where
  pub active : ℕ
  pub failed : ℕ
  pub echoes : ℕ
  pub rate : ℕ

-- `a - b` of two `int`s
abbrev pub int_sub : ℕ → ℕ → ℕ
int_sub a b = (a + int_mod - b) % int_mod

-- What the loop has printed, `last` and `times`, whether it has ended, and whether it has set `stop`.
pub record Report : Type 0 where
  pub lines : List Line
  pub last : ℕ
  pub times : ℕ
  pub has_ended : Bool
  pub has_stopped : Bool

abbrev pub print : Line → Report → Report
print line r = record r { lines = line ∷ r.lines }

-- The loop that reports.
unfoldable pub report : List Loads → (last times : ℕ) → Report
report [] last times = record {
  lines = [];
  last = last;
  times = times;
  has_ended = false;
  has_stopped = false;
}
report (l ∷ ls) last times =
    let rest = report ls l.echoes ((times + 1) % int_mod) in
    if l.stop
    then record { lines = []; last = last; times = times; has_ended = true; has_stopped = false }
    else (if l.connected == 0
        then record { lines = []; last = last; times = times; has_ended = true; has_stopped = true }
        else print
            (record {
              active = l.active;
              failed = l.failed;
              echoes = l.echoes;
              rate = int_sub l.echoes last;
            })
            rest)

-- `a / b` of two `int`s of which the second is positive
abbrev pub int_div : ℕ → ℕ → ℕ
int_div a b = if ltb a 2147483648 then a / b else int_sub 0 ((int_mod - a) / b)

-- The line after the loop.
unfoldable pub summary : (times total active failed : ℕ) → Line
summary times total active failed = record {
  active = active;
  failed = failed;
  echoes = total;
  rate = if times == 0 then 0 else int_div total times;
}

length-make_sessions : (k n : ℕ) → length (make_sessions k n) ≡ k * conns n
unfolding make_sessions
length-make_sessions zero n = omega arith
length-make_sessions (suc k) n =
    length-append (make_sessions k n) (replicate (conns n) (8080 + k, make))
    ∙ omega (
      arith,
      length-make_sessions k n,
      length-replicate {A = ℕ × Session} (conns n) (8080 + k, make),
    )

pub conns-bounds : (n : ℕ) → (n ≤ 10 * conns n) × (10 * conns n < n + 10)
unfolding conns
conns-bounds n = ground arith

-- The threads make at least as many sessions as connections are asked for, and fewer than 10 more.
pub make_sessions-bounds :
    (n : ℕ) → (n ≤ length (make_sessions 10 n)) × (length (make_sessions 10 n) < n + 10)
make_sessions-bounds n =
    let e = length-make_sessions 10 n in
    let b = conns-bounds n in (omega (arith, e, b.0), omega (arith, e, b.1))

-- The sum of the rates that have been printed.
unfoldable pub total_rate : List Line → ℕ
total_rate [] = 0
total_rate (l ∷ ls) = l.rate + total_rate ls

unfoldable pub last_echoes : ℕ → List Line → ℕ
last_echoes last [] = last
last_echoes last (l ∷ ls) = last_echoes l.echoes ls

report-rates :
    (ls : List Loads) (last times : ℕ)
    → All (λ l. l.echoes < int_mod) ls
    → last < int_mod
    → ((last + total_rate (report ls last times).lines) % int_mod
        ≡ last_echoes last (report ls last times).lines)
unfolding report total_rate last_echoes
report-rates [] last times h lt = omega (arith, lt)
report-rates (l ∷ ls) last times h lt = elim (Bool-cases l.stop) [
  | inl stop ↦ rw stop (omega (arith, lt))
  | inr running ↦ elim (Bool-cases (l.connected == 0)) [
    | inl none_left ↦ rw (running, none_left) (omega (arith, lt))
    | inr some_left ↦
        let ih = report-rates ls l.echoes ((times + 1) % int_mod) h.1 h.0 in
        rw (running, some_left) (omega (arith, lt, h.0, ih))
  ]
]

-- When all the numbers of echoes that are loaded are below 2 ^ 32: from the start of the loop, the rates that it prints add
-- up, modulo 2 ^ 32, to the echoes in the last line that it prints, or to 0 if it prints none.
pub report-total_rate :
    (ls : List Loads)
    → All (λ l. l.echoes < int_mod) ls
    → total_rate (report ls 0 0).lines % int_mod ≡ last_echoes 0 (report ls 0 0).lines
report-total_rate ls h = omega (arith, report-rates ls 0 0 h (omega arith))

is_establishing-enough :
    (completed n : ℕ)
    → n ≤ completed
    → completed < 2147483648
    → is_establishing false completed n ≡ false
unfolding is_establishing
is_establishing-enough completed n le few = ground arith

-- For fewer than 2 ^ 31 - 10 connections, in whatever order the operations of the sessions complete: once none of the
-- sessions that the threads made is connecting, the condition of the loop that waits for the connections is false.
pub is_establishing-run :
    (n : ℕ) (cs : List (ℕ × Completion))
    → n < 2147483638
    → All
        (λ s. is_completed s.pending ≡ 1)
        (run cs (initial (length (make_sessions 10 n)))).sessions
    → is_establishing false (run cs (initial (length (make_sessions 10 n)))).statistics.completed n
      ≡ false
is_establishing-run n cs few done =
    let k = length (make_sessions 10 n) in
    let b = make_sessions-bounds n in
    let h = run-IsCounted k cs (omega (arith, b.1)) in
    let e = total-All is_completed (run cs (initial k)).sessions done in
    let m = length-run k cs in
    is_establishing-enough (run cs (initial k)).statistics.completed n
      (omega (arith, b.0, e, m, h.completed)) (omega (arith, b.1, e, m, h.completed))
