-- ===== src/SpscRingBuffer/Index.antt =====
-- The indices of spsc_ring_buffer as running counts of the writes and reads so far.
use native.Mathlib.Nat.{mod-eq_of_lt, mod-eq-sub-mod}
use native.Mathlib.Decide.{dec_lt}
use snippets_cc.Prelude.{
  ℕ, suc, ◌+◌, ◌-◌, ◌⊎◌, inl, inr, ◌%◌, ◌≤◌, ◌<◌, ◌≡◌, ◌↔◌, sym, ◌∙◌, ap, arith,
}
use snippets_cc.SpscRingBuffer.{size_mod, cells, next}
use snippets_cc.SpscRingBuffer.Cells.{mod-step, mod-ne, mod-lap}

-- `Capacity + 1` is a std::size_t, so the ring has a cell to spare.
abbrev pub Fits : ℕ → Type 0
Fits capacity = capacity + 1 < size_mod

module _ (c : ℕ) (fits : Fits c) where
  pub cells_lem : cells c ≡ c + 1
  unfolding cells
  cells_lem = omega arith

  pub cells-pos : 0 < cells c
  cells-pos = omega (arith, cells_lem)

  -- The index of the cell of a count, and the cell after it.
  pub mod-cells-lt : (i : ℕ) → i % cells c < cells c
  mod-cells-lt i = let p = cells-pos in omega arith

  pub next-mod : (i : ℕ) → next c (i % cells c) ≡ suc i % cells c
  unfolding next
  next-mod i =
      let lt = mod-cells-lt i in
      let e = cells_lem in
      let small : (i % cells c + 1) % size_mod ≡ i % cells c + 1 = mod-eq_of_lt (omega arith) in
      ap (λ k. k % cells c) small ∙ mod-step (cells c) i 1 ∙ ap (λ k. k % cells c) (omega arith)

  -- `i` reads and `i + k` writes so far, at most `c` apart.
  module _ (i k : ℕ) (le : k ≤ c) where
    -- The ring is seen as full exactly with `Capacity` items in it.
    pub full_iff : (next c ((i + k) % cells c) ≡ i % cells c) ↔ (k ≡ c)
    full_iff =
        let n = cells_lem in
        (
          (λ e. elim (dec_lt k c) [
            | yes lt ↦ absurd (
                mod-ne (cells c) i (suc (i + k)) cells-pos (omega arith) (omega arith)
                  (sym e ∙ next-mod (i + k)))
            | no ge ↦ omega arith
          ]),
          (λ e.
              next-mod (i + k)
              ∙ ap (λ j. j % cells c) (omega arith)
              ∙ mod-lap (cells c) i cells-pos),
        )

    -- It is seen as empty exactly with no item in it.
    pub empty_iff : (i % cells c ≡ (i + k) % cells c) ↔ (k ≡ 0)
    empty_iff =
        let n = cells_lem in
        (
          (λ e. elim (dec_lt 0 k) [
            | yes lt ↦ absurd (mod-ne (cells c) i (i + k) cells-pos (omega arith) (omega arith) e)
            | no ge ↦ omega arith
          ]),
          (λ e. ap (λ j. j % cells c) (omega arith)),
        )

    -- The item count is the way from the index of the reads to that of the writes.
    pub distance :
        ((i + k) % cells c ≡ i % cells c + k) ⊎ ((i + k) % cells c + cells c ≡ i % cells c + k)
    distance =
        let n = cells_lem in
        let lt = mod-cells-lt i in
        let same = mod-step (cells c) i k in
        elim (dec_lt (i % cells c + k) (cells c)) [
          | yes p ↦ inl (sym same ∙ mod-eq_of_lt p)
          | no p ↦ inr (
              omega (
                arith,
                same,
                mod-eq-sub-mod {n = i % cells c + k} {m = cells c} (omega arith),
                mod-eq_of_lt {n = i % cells c + k - cells c} {m = cells c} (omega arith),
              ))
        ]
