-- ===== src/SpscRingBuffer/Cells.antt =====
-- Items laid out round a ring of `n` cells, from the cell of a running index on.
use native.Mathlib.Nat.{add-mod_right, mod-add-mod, mod-eq_of_lt, mod-eq-sub-mod}
use native.Mathlib.Decide.{dec_lt}
use snippets_cc.Prelude.{
  ℕ, suc, ◌+◌, ◌-◌, ◌%◌, ◌<◌, ◌≡◌, ◌≢◌, sym, ◌∙◌, ap, some, List, [], ◌∷◌, ◌++◌, length, get_elem?,
  set, get_elem?-set_ne, arith,
}

-- Fewer than `n` steps round the ring do not come back to the start.
step-ne : (n h d : ℕ) → h < n → 0 < d → d < n → (h + d) % n ≢ h
step-ne n h d hh lo hi = elim (dec_lt (h + d) n) [
  | yes p ↦ omega (arith, mod-eq_of_lt p)
  | no p ↦ omega (
    arith,
    mod-eq-sub-mod {n = h + d} {m = n} (omega arith),
    mod-eq_of_lt {n = h + d - n} {m = n} (omega arith),
  )
]

module _ (n : ℕ) where
  pub mod-step : (i k : ℕ) → (i % n + k) % n ≡ (i + k) % n
  mod-step i k = rw mod-add-mod

  -- Running indices less than `n` apart have different cells.
  pub mod-ne : (i j : ℕ) → 0 < n → i < j → j < i + n → i % n ≢ j % n
  mod-ne i j pos lt near e =
      step-ne n (i % n) (j - i) (omega arith) (omega arith) (omega arith)
        (mod-step i (j - i) ∙ ap (λ k. k % n) (omega arith) ∙ sym e)

  -- Indices `n` apart have the same.
  pub mod-lap : (i : ℕ) → 0 < n → (i + n) % n ≡ i % n
  mod-lap i pos = rw add-mod_right

module _ {ℓ} {A : Type ℓ} (n : ℕ) (pos : 0 < n) where
  abbrev pub Holds : List A → ℕ → List A → Type ℓ
  Holds buffer i [] = Unit
  Holds buffer i (x ∷ q) = (get_elem? buffer (i % n) ≡ some x) × Holds buffer (suc i) q

  -- A write to the cell behind the items leaves them alone.
  pub Holds-set :
      (buffer : List A) (v : A) (i j : ℕ) (q : List A)
      → j ≡ i + length q
      → length q < n
      → Holds buffer i q
      → Holds (set buffer (j % n) v) i q
  Holds-set buffer v i j [] e lt h = tt
  Holds-set buffer v i j (x ∷ q) e lt h = (
    get_elem?-set_ne buffer (j % n) (i % n) v
          (λ s. mod-ne n i j pos (omega arith) (omega arith) (sym s))
        ∙ h.0,
    Holds-set buffer v (suc i) j q (omega arith) (omega arith) h.1,
  )

  pub Holds-snoc :
      (buffer : List A) (v : A) (i j : ℕ) (q : List A)
      → j ≡ i + length q
      → get_elem? buffer (j % n) ≡ some v
      → Holds buffer i q
      → Holds buffer i (q ++ v ∷ [])
  Holds-snoc buffer v i j [] e g h =
      let k : j ≡ i = omega arith in (ap (λ m. get_elem? buffer (m % n)) (sym k) ∙ g, tt)
  Holds-snoc buffer v i j (x ∷ q) e g h = (h.0, Holds-snoc buffer v (suc i) j q (omega arith) g h.1)
