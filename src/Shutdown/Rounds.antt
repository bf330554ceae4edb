-- ===== src/Shutdown/Rounds.antt =====
-- Threads that take turns. A step either changes nothing, its thread being blocked, or brings the program nearer to
-- its end.
use mathlib.Core.Path.{subst}
use snippets_cc.Prelude.{
  ℕ, ◌≤◌, ◌<◌, ◌≡◌, ◌⊎◌, sym, Bool, true, false, Bool-cases, if◌then◌else◌, inl, inr, List, [], ◌∷◌,
  length, All, arith,
}

-- A program by its states, the actions of its threads and what is left to do.
pub record Program (S A T : Type 0) : Type 0 where
  pub step : A → S → S
  pub left : S → ℕ
  -- whether the action is one of the thread
  pub is_of : T → A → Bool

module _ {S A T : Type 0} (p : Program S A T) where
  unfoldable pub run : List A → S → S
  run [] s = s
  run (a ∷ acts) s = run acts (p.step a s)

  unfoldable pub run_rounds : List (List A) → S → S
  run_rounds [] s = s
  run_rounds (r ∷ rs) s = run_rounds rs (run r s)

  -- An action of the thread is among these.
  unfoldable pub has : T → List A → Bool
  has t [] = false
  has t (a ∷ acts) = if p.is_of t a then true else has t acts

  -- What the program promises, in the states `I`: a step keeps to them, and changes nothing or leaves less to do; in a
  -- state that is not the last, any action of some thread leaves less to do.
  pub record Laws (I : S → Type 0) (Done : S → Type 0) (Valid : T → Type 0) : Type 0 where
    pub keeps : (a : A) (s : S) → I s → I (p.step a s)
    pub moves : (a : A) (s : S) → I s → (p.step a s ≡ s) ⊎ (p.left (p.step a s) < p.left s)
    pub goes_on :
        (s : S)
        → I s
        → Done s
          ⊎ ((t : T) × Valid t × ((a : A) → p.is_of t a ≡ true → p.left (p.step a s) < p.left s))
    pub stays_done : (a : A) (s : S) → I s → Done s → Done (p.step a s)

  module _ {I Done : S → Type 0} {Valid : T → Type 0} (laws : Laws I Done Valid) where
    run-keeps : (acts : List A) (s : S) → I s → I (run acts s)
    unfolding run
    run-keeps [] s i = i
    run-keeps (a ∷ acts) s i = run-keeps acts (p.step a s) (laws.keeps a s i)

    run-le : (acts : List A) (s : S) → I s → p.left (run acts s) ≤ p.left s
    unfolding run
    run-le [] s i = omega arith
    run-le (a ∷ acts) s i = elim (laws.moves a s i) [
      | inl same ↦ subst (λ t. p.left (run acts t) ≤ p.left s) (sym same) (run-le acts s i)
      | inr less ↦ omega (arith, less, run-le acts (p.step a s) (laws.keeps a s i))
    ]

    run-lt :
        (t : T) (acts : List A) (s : S)
        → I s
        → has t acts ≡ true
        → ((a : A) → p.is_of t a ≡ true → p.left (p.step a s) < p.left s)
        → p.left (run acts s) < p.left s
    unfolding run has
    run-lt t [] s i e go = absurd cc
    run-lt t (a ∷ acts) s i e go = elim (laws.moves a s i) [
      | inr less ↦ omega (arith, less, run-le acts (p.step a s) (laws.keeps a s i))
      | inl same ↦ elim (Bool-cases (p.is_of t a)) [
        | inl mine ↦ omega (arith, go a mine, run-le acts (p.step a s) (laws.keeps a s i))
        | inr other ↦
            subst (λ u. p.left (run acts u) < p.left s) (sym same)
              (run-lt t acts s i (rw other at e) go)
      ]
    ]

    run-done : (acts : List A) (s : S) → I s → Done s → Done (run acts s)
    unfolding run
    run-done [] s i d = d
    run-done (a ∷ acts) s i d =
        run-done acts (p.step a s) (laws.keeps a s i) (laws.stays_done a s i d)

    pub rounds-keep : (rs : List (List A)) (s : S) → I s → I (run_rounds rs s)
    unfolding run_rounds
    rounds-keep [] s i = i
    rounds-keep (r ∷ rs) s i = rounds-keep rs (run r s) (run-keeps r s i)

    rounds-done : (rs : List (List A)) (s : S) → I s → Done s → Done (run_rounds rs s)
    unfolding run_rounds
    rounds-done [] s i d = d
    rounds-done (r ∷ rs) s i d = rounds-done rs (run r s) (run-keeps r s i) (run-done r s i d)

    -- As many rounds as there is left to do, in each of which every thread has a turn, bring the program to its end.
    pub rounds_end :
        (rs : List (List A)) (s : S)
        → I s
        → All (λ r. (t : T) → Valid t → has t r ≡ true) rs
        → p.left s < length rs
        → Done (run_rounds rs s)
    unfolding run_rounds
    rounds_end [] s i h lt = absurd (omega arith)
    rounds_end (r ∷ rs) s i h lt = elim (laws.goes_on s i) [
      | inl done ↦ rounds-done rs (run r s) (run-keeps r s i) (run-done r s i done)
      | inr (t, valid, go) ↦
          rounds_end rs (run r s) (run-keeps r s i) h.1
            (omega (arith, lt, run-lt t r s i (h.0 t valid) go))
    ]
