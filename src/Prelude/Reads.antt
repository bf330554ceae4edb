-- ===== src/Prelude/Reads.antt =====
-- Reads of a list by its index, before and after a write.
use Prim.Native.Nat.{ℕ, zero, suc, ◌≤◌, ◌<◌}
use mathlib.Core.Path.{◌≡◌, refl, sym, ap, ◌∙◌, subst}
use mathlib.Core.Logic.{◌≢◌, inl, inr}
use mathlib.Core.List.{List, [], ◌∷◌}
use mathlib.Core.Option.{none, some, some-injective}
use native.Mathlib.Omega.{arith}
use snippets_cc.Prelude.Lists.{length, get_elem?, set, get_elem?-set_self, get_elem?-set_ne}
use snippets_cc.Prelude.Tests.{◌==◌, ==_iff, Bool-cases, none≢some}

module _ {ℓ} {A : Type ℓ} where
  pub get_elem?-some : (xs : List A) (i : ℕ) (e : A) → get_elem? xs i ≡ some e → i < length xs
  get_elem?-some [] i e h = absurd (none≢some h)
  get_elem?-some (x ∷ xs) zero e h = omega arith
  get_elem?-some (x ∷ xs) (suc i) e h = omega (arith, get_elem?-some xs i e h)

  pub get_elem?-none : (xs : List A) (i : ℕ) → get_elem? xs i ≡ none → length xs ≤ i
  get_elem?-none [] i h = omega arith
  get_elem?-none (x ∷ xs) zero h = absurd (none≢some (sym h))
  get_elem?-none (x ∷ xs) (suc i) h = omega (arith, get_elem?-none xs i h)

  -- A write at `i` in a list of which `P` holds, when the others go from `P` to `Q`.
  pub set-pointwise {κ} :
      (P Q : ℕ → A → Type κ) (xs : List A) (i : ℕ) (a : A)
      → i < length xs
      → ((j : ℕ) (e : A) → get_elem? xs j ≡ some e → P j e)
      → Q i a
      → ((j : ℕ) (e : A) → i ≢ j → P j e → Q j e)
      → (j : ℕ) (e : A) → get_elem? (set xs i a) j ≡ some e
      → Q j e
  set-pointwise P Q xs i a lt h at_i others j e k = elim (Bool-cases (i == j)) [
    | inl same ↦
        let ij : i ≡ j = (==_iff i j).0 same in
        let ea : a ≡ e =
          some-injective _ _
            (sym (get_elem?-set_self xs i a lt) ∙ ap (get_elem? (set xs i a)) ij ∙ k) in
        subst (λ x. Q j x) ea (subst (λ x. Q x a) ij at_i)
    | inr other ↦
        let ne : i ≢ j = λ p. ground (arith, (==_iff i j).1 p) in
        others j e ne (h j e (sym (get_elem?-set_ne xs i j a ne) ∙ k))
  ]

  pub set-same : (xs : List A) (i : ℕ) (e : A) → get_elem? xs i ≡ some e → set xs i e ≡ xs
  set-same [] i e h = refl
  set-same (x ∷ xs) zero e h = ap (λ y. y ∷ xs) (sym (some-injective _ _ h))
  set-same (x ∷ xs) (suc i) e h = ap (λ ys. x ∷ ys) (set-same xs i e h)
