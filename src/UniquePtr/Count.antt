-- ===== src/UniquePtr/Count.antt =====
-- How often a pointer stands among the variables, in the log and in a list of pointers.
use mathlib.Core.Option.{some-injective}
use snippets_cc.Prelude.{
  ℕ, zero, suc, ◌+◌, ◌≡◌, refl, Option, none, some, List, [], ◌∷◌, ◌++◌, Option-cases, inl, inr,
  ◌==◌, if◌then◌else◌, get_elem?, set, none≢some, arith,
}
use snippets_cc.UniquePtr.{UniquePtr, Log, destruct}
use snippets_cc.UniquePtr.Program.{remove, to_list}

-- One if the pointer is `q`.
abbrev pub holds : Option ℕ → ℕ → ℕ
holds none q = 0
holds (some p) q = if p == q then 1 else 0

abbrev pub count : List ℕ → ℕ → ℕ
count [] q = 0
count (p ∷ ps) q = holds (some p) q + count ps q

pub count-to_list :
    (p : Option ℕ) (ps : List ℕ) (q : ℕ) → count (to_list p ++ ps) q ≡ holds p q + count ps q
count-to_list none ps q = omega arith
count-to_list (some p) ps q = refl

module _ {ℓ} {D : Type ℓ} where
  abbrev pub owned : List (UniquePtr D) → ℕ → ℕ
  owned [] q = 0
  owned (x ∷ xs) q = holds x.p q + owned xs q

  abbrev pub deletions : Log D → ℕ → ℕ
  deletions [] q = 0
  deletions ((d, p) ∷ log) q = holds (some p) q + deletions log q

  pub owned-set :
      (xs : List (UniquePtr D)) (i : ℕ) (x y : UniquePtr D) (q : ℕ)
      → get_elem? xs i ≡ some x
      → owned (set xs i y) q + holds x.p q ≡ owned xs q + holds y.p q
  owned-set [] i x y q e = absurd (none≢some e)
  owned-set (z ∷ xs) zero x y q e = rw (some-injective _ _ e) (omega arith)
  owned-set (z ∷ xs) (suc i) x y q e = omega (arith, owned-set xs i x y q e)

  pub owned-remove :
      (xs : List (UniquePtr D)) (i : ℕ) (x : UniquePtr D) (q : ℕ)
      → get_elem? xs i ≡ some x
      → owned (remove xs i) q + holds x.p q ≡ owned xs q
  owned-remove [] i x q e = absurd (none≢some e)
  owned-remove (z ∷ xs) zero x q e = rw (some-injective _ _ e) (omega arith)
  owned-remove (z ∷ xs) (suc i) x q e = omega (arith, owned-remove xs i x q e)

  deletions-append :
      (log : Log D) (d : D) (p q : ℕ)
      → deletions (log ++ (d, p) ∷ []) q ≡ deletions log q + holds (some p) q
  deletions-append [] d p q = omega arith
  deletions-append (e ∷ log) d p q = omega (arith, deletions-append log d p q)

  pub deletions-destruct :
      (x : UniquePtr D) (log : Log D) (q : ℕ)
      → deletions (destruct x log) q ≡ deletions log q + holds x.p q
  unfolding destruct
  deletions-destruct x log q = elim (Option-cases x.p) [
    | inl e ↦ rw e (omega arith)
    | inr (p, e) ↦ rw e (deletions-append log x.deleter p q)
  ]
