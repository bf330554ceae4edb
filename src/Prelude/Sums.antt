-- ===== src/Prelude/Sums.antt =====
-- Sums over the elements of a list.
use Prim.Native.Nat.{ℕ, zero, suc, ◌+◌, ◌≤◌}
use mathlib.Core.Path.{◌≡◌}
use mathlib.Core.List.{List, [], ◌∷◌, ◌++◌}
use mathlib.Core.Option.{some, some-injective}
use native.Mathlib.Omega.{arith}
use snippets_cc.Prelude.Lists.{get_elem?, set}
use snippets_cc.Prelude.Tests.{none≢some}

module _ {ℓ} {A : Type ℓ} where
  unfoldable pub total : (A → ℕ) → List A → ℕ
  total w [] = 0
  total w (x ∷ xs) = w x + total w xs

  pub total-append : (w : A → ℕ) (xs ys : List A) → total w (xs ++ ys) ≡ total w xs + total w ys
  unfolding total
  total-append w [] ys = omega arith
  total-append w (x ∷ xs) ys = omega (arith, total-append w xs ys)

  pub total-set :
      (w : A → ℕ) (xs : List A) (i : ℕ) (a b : A)
      → get_elem? xs i ≡ some a
      → total w (set xs i b) + w a ≡ total w xs + w b
  unfolding total
  total-set w [] i a b e = absurd (none≢some e)
  total-set w (x ∷ xs) zero a b e = rw (some-injective _ _ e) (omega arith)
  total-set w (x ∷ xs) (suc i) a b e = omega (arith, total-set w xs i a b e)

  -- An element counts at most as much as the list.
  pub total-ge :
      (w : A → ℕ) (xs : List A) (i : ℕ) (a : A) → get_elem? xs i ≡ some a → w a ≤ total w xs
  unfolding total
  total-ge w [] i a e = absurd (none≢some e)
  total-ge w (x ∷ xs) zero a e = rw (some-injective _ _ e) (omega arith)
  total-ge w (x ∷ xs) (suc i) a e = omega (arith, total-ge w xs i a e)
