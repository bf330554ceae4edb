-- ===== src/SharedPtr/Variables.antt =====
-- The numbers of variables that refer to a block, after a variable is read, written or removed.
use mathlib.Core.Option.{some-injective}
use snippets_cc.Prelude.{
  ℕ, zero, suc, ◌+◌, ◌≤◌, ◌≡◌, some, List, [], ◌∷◌, get_elem?, set, none≢some, arith,
}
use snippets_cc.SharedPtr.Owner.{Ptr}
use snippets_cc.SharedPtr.Handles.{refers}
use snippets_cc.SharedPtr.Program.{remove}

-- How many of the variables refer to block `c`.
abbrev pub count : List Ptr → ℕ → ℕ
count [] c = 0
count (x ∷ xs) c = refers x c + count xs c

pub refers-le-count :
    (xs : List Ptr) (i : ℕ) (x : Ptr) → get_elem? xs i ≡ some x → (c : ℕ) → refers x c ≤ count xs c
refers-le-count [] i x e c = absurd (none≢some e)
refers-le-count (y ∷ xs) zero x e c = rw (some-injective _ _ e) (omega arith)
refers-le-count (y ∷ xs) (suc i) x e c = omega (arith, refers-le-count xs i x e c)

pub count-set :
    (xs : List Ptr) (i : ℕ) (x y : Ptr)
    → get_elem? xs i ≡ some x
    → (c : ℕ) → count (set xs i y) c + refers x c ≡ count xs c + refers y c
count-set [] i x y e c = absurd (none≢some e)
count-set (z ∷ xs) zero x y e c = rw (some-injective _ _ e) (omega arith)
count-set (z ∷ xs) (suc i) x y e c = omega (arith, count-set xs i x y e c)

pub count-remove :
    (xs : List Ptr) (i : ℕ) (x : Ptr)
    → get_elem? xs i ≡ some x
    → (c : ℕ) → count (remove xs i) c + refers x c ≡ count xs c
count-remove [] i x e c = absurd (none≢some e)
count-remove (z ∷ xs) zero x e c = rw (some-injective _ _ e) (omega arith)
count-remove (z ∷ xs) (suc i) x e c = omega (arith, count-remove xs i x e c)
