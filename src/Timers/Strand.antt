-- ===== src/Timers/Strand.antt =====
-- asio/basic/05/main.cc: two timers whose handlers run on one strand and share a count. Boost.Asio calls the
-- handler of a wait that is pending; which of two comes first is left open.
use snippets_cc.Prelude.{
  ℕ, zero, suc, ◌+◌, Bool, true, false, Option, none, some, ◌>>=◌, List, [], ◌∷◌, ◌++◌,
  if◌then◌else◌, ltb,
}

pub data Timer : Type 0 where
  timer1 timer2 : Timer

-- `waits1` and `waits2` tell whether an `async_wait` is pending; `output` is what has been printed.
pub record Printer : Type 0 where
  pub count : ℕ
  pub expiry1 : ℕ
  pub expiry2 : ℕ
  pub waits1 : Bool
  pub waits2 : Bool
  pub output : List (Timer × ℕ)

-- `printer (ctx)`
unfoldable pub make : (now : ℕ) → Printer
make now = record {
  count = 0;
  expiry1 = now + 1;
  expiry2 = now + 1;
  waits1 = true;
  waits2 = true;
  output = [];
}

unfoldable pub print1 : Printer → Printer
print1 p =
    if ltb p.count 10
    then record p {
      output = p.output ++ (timer1, p.count) ∷ [];
      count = p.count + 1;
      expiry1 = p.expiry1 + 1;
      waits1 = true;
    }
    else p

unfoldable pub print2 : Printer → Printer
print2 p =
    if ltb p.count 10
    then record p {
      output = p.output ++ (timer2, p.count) ∷ [];
      count = p.count + 1;
      expiry2 = p.expiry2 + 1;
      waits2 = true;
    }
    else p

-- The handler of a pending wait is called.
unfoldable pub fire : Timer → Printer → Option Printer
fire timer1 p = if p.waits1 then some (print1 (record p { waits1 = false })) else none
fire timer2 p = if p.waits2 then some (print2 (record p { waits2 = false })) else none

-- `ctx.run ()`, by the timers whose handlers it calls.
unfoldable pub run : List Timer → Printer → Option Printer
run [] p = some p
run (t ∷ ts) p = fire t p >>= run ts

abbrev pub numbers : List (Timer × ℕ) → List ℕ
numbers [] = []
numbers ((t, n) ∷ lines) = n ∷ numbers lines

-- The numbers below `n`, in order.
abbrev pub upto : ℕ → List ℕ
upto zero = []
upto (suc n) = upto n ++ n ∷ []

abbrev pub pending : Bool → ℕ
pending true = 1
pending false = 0
