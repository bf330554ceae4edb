-- ===== src/BlockingQueue/Counts.antt =====
-- How the counts of threads change in a step.
use snippets_cc.Prelude.{
  ℕ, zero, suc, ◌+◌, ◌≤◌, ◌≡◌, refl, List, [], ◌∷◌, ◌++◌, map, replicate, arith,
}
use snippets_cc.BlockingQueue.Threads.{
  Thread, outside, push_ready, pop_ready, closing_empty, closing_full, is_pop_blocked,
  is_push_blocked, wake_pop, wake_push, total,
}

module _ {ℓ} {A : Type ℓ} where
  abbrev pub is_pop_ready : Thread A → ℕ
  is_pop_ready (pop_ready d) = 1
  is_pop_ready t = 0

  abbrev pub is_push_ready : Thread A → ℕ
  is_push_ready (push_ready elem d) = 1
  is_push_ready t = 0

  -- Threads in `close` that have still to call `notify_all` on `not_empty_cv_`, or on either.
  abbrev pub is_closing_empty : Thread A → ℕ
  is_closing_empty closing_empty = 1
  is_closing_empty t = 0

  abbrev pub is_closing : Thread A → ℕ
  is_closing closing_empty = 1
  is_closing closing_full = 1
  is_closing t = 0

  pub total-append :
      (w : Thread A → ℕ) (xs : List (Thread A)) (t : Thread A) (ys : List (Thread A))
      → total w (xs ++ t ∷ ys) ≡ total w (xs ++ ys) + w t
  unfolding total
  total-append w [] t ys = omega arith
  total-append w (x ∷ xs) t ys = omega (arith, total-append w xs t ys)

  pub total-eq-zero :
      (w : Thread A → ℕ) → w outside ≡ 0 → (n : ℕ) → total w (replicate n outside) ≡ 0
  unfolding total
  total-eq-zero w e zero = refl
  total-eq-zero w e (suc n) = omega (arith, e, total-eq-zero w e n)

  pub closing_empty-le-closing :
      (ts : List (Thread A)) → total is_closing_empty ts ≤ total is_closing ts
  unfolding total
  closing_empty-le-closing [] = omega arith
  closing_empty-le-closing (t ∷ ts) = ground (arith, closing_empty-le-closing ts)

  -- `notify_all` on `not_empty_cv_` makes each blocked pop ready, and changes nothing else.
  pub wake_pop-tally :
      (ts : List (Thread A))
      → (total is_pop_blocked (map wake_pop ts) ≡ 0)
        × (total is_push_blocked (map wake_pop ts) ≡ total is_push_blocked ts)
        × (total is_pop_ready (map wake_pop ts) ≡ total is_pop_ready ts + total is_pop_blocked ts)
        × (total is_push_ready (map wake_pop ts) ≡ total is_push_ready ts)
        × (total is_closing_empty (map wake_pop ts) ≡ total is_closing_empty ts)
        × (total is_closing (map wake_pop ts) ≡ total is_closing ts)
  unfolding total wake_pop
  wake_pop-tally [] = omega arith
  wake_pop-tally (t ∷ ts) = ground (arith, wake_pop-tally ts)

  pub wake_push-tally :
      (ts : List (Thread A))
      → (total is_push_blocked (map wake_push ts) ≡ 0)
        × (total is_pop_blocked (map wake_push ts) ≡ total is_pop_blocked ts)
        × (total is_push_ready (map wake_push ts)
            ≡ total is_push_ready ts + total is_push_blocked ts)
        × (total is_pop_ready (map wake_push ts) ≡ total is_pop_ready ts)
        × (total is_closing_empty (map wake_push ts) ≡ total is_closing_empty ts)
        × (total is_closing (map wake_push ts) ≡ total is_closing ts)
  unfolding total wake_push
  wake_push-tally [] = omega arith
  wake_push-tally (t ∷ ts) = ground (arith, wake_push-tally ts)

  -- What one thread among the others adds to each count.
  pub tally-split :
      (xs : List (Thread A)) (t : Thread A) (ys : List (Thread A))
      → (total is_pop_blocked (xs ++ t ∷ ys) ≡ total is_pop_blocked (xs ++ ys) + is_pop_blocked t)
        × (total is_push_blocked (xs ++ t ∷ ys)
            ≡ total is_push_blocked (xs ++ ys) + is_push_blocked t)
        × (total is_pop_ready (xs ++ t ∷ ys) ≡ total is_pop_ready (xs ++ ys) + is_pop_ready t)
        × (total is_push_ready (xs ++ t ∷ ys) ≡ total is_push_ready (xs ++ ys) + is_push_ready t)
        × (total is_closing_empty (xs ++ t ∷ ys)
            ≡ total is_closing_empty (xs ++ ys) + is_closing_empty t)
        × (total is_closing (xs ++ t ∷ ys) ≡ total is_closing (xs ++ ys) + is_closing t)
  tally-split xs t ys = (
    total-append is_pop_blocked xs t ys,
    total-append is_push_blocked xs t ys,
    total-append is_pop_ready xs t ys,
    total-append is_push_ready xs t ys,
    total-append is_closing_empty xs t ys,
    total-append is_closing xs t ys,
  )
