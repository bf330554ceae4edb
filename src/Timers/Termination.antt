-- ===== src/Timers/Termination.antt =====
-- asio/basic/05/main.cc: how the two timers of Strand come to their end.
use mathlib.Core.Option.{some-injective}
use snippets_cc.Prelude.{
  ℕ, suc, ◌+◌, ◌-◌, ◌≤◌, ◌<◌, ◌≡◌, ◌⊎◌, refl, sym, ap, ◌∙◌, Bool, true, false, Bool-cases, inl, inr,
  some, Option-cases, none≢some, List, [], ◌∷◌, ◌++◌, ltb, length, arith,
}
use snippets_cc.Timers.Strand.{
  Timer, timer1, timer2, Printer, make, print1, print2, fire, run, numbers, upto, pending,
}

-- As long as the count is below 10 both waits are pending; the numbers below the count have been printed.
record IsCounting (p : Printer) : Type 0 where
  few : p.count ≤ 10
  waits : p.count < 10 → (p.waits1 ≡ true) × (p.waits2 ≡ true)
  printed : numbers p.output ≡ upto p.count

-- The calls of handlers that are still to come.
abbrev work : Printer → ℕ
work p = (10 - p.count) + pending p.waits1 + pending p.waits2

numbers-append :
    (xs : List (Timer × ℕ)) (t : Timer) (n : ℕ) → numbers (xs ++ (t, n) ∷ []) ≡ numbers xs ++ n ∷ []
numbers-append [] t n = refl
numbers-append ((u, m) ∷ xs) t n = ap (◌∷◌ m) (numbers-append xs t n)

pending-le : (b : Bool) → pending b ≤ 1
pending-le true = omega arith
pending-le false = omega arith

upto-succ : (n : ℕ) → upto (n + 1) ≡ upto n ++ n ∷ []
upto-succ n = rw (succ n) refl
  where
    succ : (n : ℕ) → n + 1 ≡ suc n
    succ n = omega arith

-- What a handler that is called makes of the state: the invariant, and one call fewer to come.
abbrev Progresses : Printer → Printer → Type 0
Progresses p q = IsCounting q × (work q + 1 ≡ work p)

print-printed :
    (p : Printer) (t : Timer)
    → IsCounting p
    → numbers (p.output ++ (t, p.count) ∷ []) ≡ upto (p.count + 1)
print-printed p t h =
    numbers-append p.output t p.count
    ∙ ap (λ ns. ns ++ p.count ∷ []) h.printed
    ∙ sym (upto-succ p.count)

print1-Progresses :
    (p : Printer)
    → IsCounting p
    → p.waits1 ≡ true
    → Progresses p (print1 (record p { waits1 = false }))
unfolding print1
print1-Progresses p h w = elim (Bool-cases (ltb p.count 10)) [
  | inl below ↦
      rw (below, w)
        (
          record {
            few = ground arith;
            waits = λ lt. (refl, (h.waits (ground arith)).1);
            printed = print-printed p timer1 h;
          },
          ground arith,
        )
  | inr over ↦
      rw (over, w)
        (
          record { few = h.few; waits = λ lt. absurd (ground arith); printed = h.printed },
          omega arith,
        )
]

print2-Progresses :
    (p : Printer)
    → IsCounting p
    → p.waits2 ≡ true
    → Progresses p (print2 (record p { waits2 = false }))
unfolding print2
print2-Progresses p h w = elim (Bool-cases (ltb p.count 10)) [
  | inl below ↦
      rw (below, w)
        (
          record {
            few = ground arith;
            waits = λ lt. ((h.waits (ground arith)).0, refl);
            printed = print-printed p timer2 h;
          },
          ground arith,
        )
  | inr over ↦
      rw (over, w)
        (
          record { few = h.few; waits = λ lt. absurd (ground arith); printed = h.printed },
          omega arith,
        )
]

fire-Progresses : (t : Timer) (p q : Printer) → IsCounting p → fire t p ≡ some q → Progresses p q
unfolding fire
fire-Progresses timer1 p q h e = elim (Bool-cases p.waits1) [
  | inl w ↦ rw⁻¹ (some-injective _ _ (rw w at e)) (print1-Progresses p h w)
  | inr idle ↦ absurd (none≢some (rw idle at e))
]
fire-Progresses timer2 p q h e = elim (Bool-cases p.waits2) [
  | inl w ↦ rw⁻¹ (some-injective _ _ (rw w at e)) (print2-Progresses p h w)
  | inr idle ↦ absurd (none≢some (rw idle at e))
]

run-Progresses :
    (ts : List Timer) (p q : Printer)
    → IsCounting p
    → run ts p ≡ some q
    → IsCounting q × (length ts + work q ≡ work p)
unfolding run
run-Progresses [] p q h e = rw⁻¹ (some-injective _ _ e) (h, omega arith)
run-Progresses (t ∷ ts) p q h e = elim (Option-cases (fire t p)) [
  | inl faults ↦ absurd (none≢some (rw faults at e))
  | inr (r, fires) ↦
      let (hr, one) = fire-Progresses t p r h fires in
      let (hq, rest) = run-Progresses ts r q hr (rw fires at e) in (hq, omega (arith, one, rest))
]

make-IsCounting : (now : ℕ) → IsCounting (make now)
unfolding make
make-IsCounting now = record { few = omega arith; waits = λ lt. (refl, refl); printed = refl }

all-counted : (p : Printer) → IsCounting p → p.waits1 ≡ false → p.count ≡ 10
all-counted p h idle = elim (Bool-cases (ltb p.count 10)) [
  | inl below ↦ let w = (h.waits (ground arith)).0 in absurd cc
  | inr over ↦ ground (arith, h.few)
]

-- In whatever order the handlers of the two timers are called, there are at most 12 calls. After fewer, one of the waits is
-- pending and its handler can be called; after 12, the numbers 0 to 9 have been printed in order and the count is 10.
pub run-ends :
    (now : ℕ) (ts : List Timer) (p : Printer)
    → run ts (make now) ≡ some p
    → ((length ts < 12) × ((t : Timer) × (q : Printer) × (fire t p ≡ some q)))
      ⊎ ((length ts ≡ 12) × (p.count ≡ 10) × (numbers p.output ≡ upto 10))
unfolding make fire
run-ends now ts p e =
    let (h, n) = run-Progresses ts (make now) p (make-IsCounting now) e in
    elim (Bool-cases p.waits1) [
      | inl w ↦ inl (
        omega (arith, n, ap pending w),
        (timer1, print1 (record p { waits1 = false }), rw w refl),
      )
      | inr idle1 ↦ elim (Bool-cases p.waits2) [
        | inl w ↦ inl (
          omega (arith, n, ap pending w),
          (timer2, print2 (record p { waits2 = false }), rw w refl),
        )
        | inr idle2 ↦
            let ten = all-counted p h idle1 in
            inr (
              omega (arith, n, ten, ap pending idle1, ap pending idle2),
              ten,
              h.printed ∙ ap upto ten,
            )
      ]
    ]
