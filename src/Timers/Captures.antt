-- ===== src/Timers/Captures.antt =====
-- asio/basic/03/main.cc and 04/main.cc: a timer whose handler starts it again. In 03 the handler is a lambda that
-- captures by reference, in `main` the local variables and in `print` its parameters; a reference to a parameter of a
-- call that has returned dangles, and its use is a fault. In 04 the handler captures `this`, an object of `main`.
use mathlib.Core.Path.{subst}
use snippets_cc.Prelude.{
  ℕ, zero, suc, ◌+◌, ◌-◌, ◌≤◌, ◌≡◌, refl, Bool, true, false, ◌||◌, Option, none, some, ◌>>=◌, List,
  [], ◌∷◌, ◌++◌, ◌==◌, if◌then◌else◌, ltb, arith,
}

-- Whose variables the handler refers to: those of `main` or those of a call of `print`, by its number.
pub data Capture : Type 0 where
  of_main : Capture
  of_print : (call : ℕ) → Capture

-- `frames` are the calls of `print` that have not returned, `calls` is the number of calls so far.
pub record Process : Type 0 where
  pub count : ℕ
  pub expiry : ℕ
  pub output : List ℕ
  pub frames : List ℕ
  pub calls : ℕ
  pub handler : Option Capture

-- The body of `print (error, timer, count)`.
unfoldable pub print_body : Process → Process
print_body p =
    if ltb p.count 5
    then record p {
      output = p.output ++ p.count ∷ [];
      count = p.count + 1;
      expiry = p.expiry + 1;
      handler = some (of_print p.calls);
    }
    else p

-- A call of `print`: its parameters live until it returns.
unfoldable pub print : Process → Process
print p =
    let q = print_body (record p { frames = p.calls ∷ p.frames }) in
    record q { frames = p.frames; calls = p.calls + 1 }

abbrev pub is_live : ℕ → List ℕ → Bool
is_live call [] = false
is_live call (f ∷ fs) = (call == f) || is_live call fs

-- The lambda reads its captured `timer` and `count` and calls `print`. The variables of `main` live.
unfoldable pub invoke : Capture → Process → Option Process
invoke of_main p = some (print p)
invoke (of_print call) p = if is_live call p.frames then some (print p) else none

-- `main` up to `ctx.run ()`.
unfoldable pub start : (now : ℕ) → Process
start now = record {
  count = 0;
  expiry = now + 1;
  output = [];
  frames = [];
  calls = 0;
  handler = some of_main;
}

-- `ctx.run ()` calls the handler of the pending wait as long as there is one, at most `n` times.
unfoldable pub run : ℕ → Process → Option Process
run zero p = some p
run (suc n) p = elim p.handler [
  | none ↦ some p
  | some capture ↦ invoke capture (record p { handler = none }) >>= run n
]

-- The second handler reads the parameters of the first call of `print`, which has returned.
run-dangles : (now n : ℕ) → run (suc (suc n)) (start now) ≡ none
unfolding run start invoke print print_body
run-dangles now n = refl

-- The class `printer` of 04, and whether its wait is pending.
pub record Printer : Type 0 where
  pub m_count : ℕ
  pub m_expiry : ℕ
  pub waits : Bool
  pub printed : List ℕ

-- `printer (ctx)`
unfoldable pub printer : (now : ℕ) → Printer
printer now = record { m_count = 0; m_expiry = now + 1; waits = true; printed = [] }

-- `printer::print`
unfoldable pub print_member : Printer → Printer
print_member p =
    if ltb p.m_count 5
    then record p {
      printed = p.printed ++ p.m_count ∷ [];
      m_count = p.m_count + 1;
      m_expiry = p.m_expiry + 1;
      waits = true;
    }
    else p

-- `ctx.run ()` of 04, at most `n` calls.
unfoldable pub run_member : ℕ → Printer → Printer
run_member zero p = p
run_member (suc n) p =
    let rest = run_member n (print_member (record p { waits = false })) in
    if p.waits then rest else p

run_member-idle : (n : ℕ) (p : Printer) → p.waits ≡ false → run_member n p ≡ p
unfolding run_member
run_member-idle zero p e = refl
run_member-idle (suc n) p e = rw e refl

-- What six calls make of it.
abbrev ended : (now : ℕ) → Printer
ended now = record {
  m_count = 5;
  m_expiry = now + 1 + 1 + 1 + 1 + 1 + 1;
  waits = false;
  printed = 0 ∷ 1 ∷ 2 ∷ 3 ∷ 4 ∷ [];
}

run_member-six :
    (now k : ℕ) → run_member (suc (suc (suc (suc (suc (suc k)))))) (printer now) ≡ ended now
unfolding printer run_member print_member
run_member-six now k = run_member-idle k (ended now) refl

-- Six calls of the handler of 04 end the program, with the numbers 0 to 4 printed; a larger bound on the calls
-- changes nothing.
pub run_member-ends : (now n : ℕ) → 6 ≤ n → run_member n (printer now) ≡ ended now
run_member-ends now n le =
    subst (λ m. run_member m (printer now) ≡ ended now) (omega arith) (run_member-six now (n - 6))
