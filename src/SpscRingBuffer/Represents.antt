-- ===== src/SpscRingBuffer/Represents.antt =====
-- What a spsc_ring_buffer holds, and how each access to it changes that.
use native.Mathlib.Decide.{dec_lt}
use snippets_cc.Prelude.{
  sym, ◌≢◌, ℕ, suc, ◌+◌, ◌%◌, ◌≤◌, ◌<◌, ◌≡◌, refl, ◌∙◌, ap, some, List, [], ◌∷◌, ◌++◌, ◌==◌,
  ==-congr, length, length-append, length-set, length-replicate, get_elem?, set, arith,
}
use snippets_cc.SpscRingBuffer.{Ring, cells, next, make}
use snippets_cc.SpscRingBuffer.Cells.{Holds, Holds-set, Holds-snoc}
use snippets_cc.SpscRingBuffer.Index.{
  Fits, cells_lem, cells-pos, mod-cells-lt, next-mod, full_iff, empty_iff,
}

-- The ring holds the items `q`, oldest first, after `reads` calls of `pop` that took one.
pub record Represents {ℓ} {A : Type ℓ} (r : Ring A) (reads : ℕ) (q : List A) : Type ℓ where
  pub fits : Fits r.capacity
  pub bounded : length q ≤ r.capacity
  pub allocated : length r.buffer ≡ cells r.capacity
  pub at_tail : r.tail ≡ reads % cells r.capacity
  pub at_head : r.head ≡ (reads + length q) % cells r.capacity
  pub holds : Holds (cells r.capacity) (cells-pos r.capacity fits) r.buffer reads q

pub make-Represents {ℓ} :
    {A : Type ℓ} (capacity : ℕ) (blank : A) → Fits capacity → Represents (make capacity blank) 0 []
unfolding make
make-Represents capacity blank fits = record {
  fits = fits;
  bounded = omega arith;
  allocated = length-replicate _ blank;
  at_tail = let p = cells-pos capacity fits in omega arith;
  at_head = let p = cells-pos capacity fits in omega arith;
  holds = tt;
}

module _ {ℓ} {A : Type ℓ} (r : Ring A) (reads : ℕ) (q : List A) (v : Represents r reads q) where
  pub full-test : (next r.capacity r.head == r.tail) ≡ (length q == r.capacity)
  full-test =
      rw (v.at_head, v.at_tail) (==-congr (full_iff r.capacity v.fits reads (length q) v.bounded))

  pub empty-test : (r.tail == r.head) ≡ (length q == 0)
  empty-test =
      rw (v.at_head, v.at_tail) (==-congr (empty_iff r.capacity v.fits reads (length q) v.bounded))

  pub empty_of_eq : r.tail ≡ r.head → length q ≡ 0
  empty_of_eq e =
      (empty_iff r.capacity v.fits reads (length q) v.bounded).0 (sym v.at_tail ∙ e ∙ v.at_head)

  -- A producer that does not see the ring as full has room.
  pub room : next r.capacity r.head ≢ r.tail → length q < r.capacity
  room ne = elim (dec_lt (length q) r.capacity) [
    | yes lt ↦ lt
    | no ge ↦
        let full : length q ≡ r.capacity = omega (arith, v.bounded) in
        absurd (
          ne (
            ap (next r.capacity) v.at_head
            ∙ (full_iff r.capacity v.fits reads (length q) v.bounded).1 full
            ∙ sym v.at_tail))
  ]

  pub head-inside : r.head < length r.buffer
  head-inside = rw (v.at_head, v.allocated) (mod-cells-lt r.capacity v.fits (reads + length q))

  -- The write of `push`, before the item is published.
  pub write-Represents :
      (item : A)
      → length q < r.capacity
      → Represents (record r { buffer = set r.buffer r.head item }) reads q
  write-Represents item lt = record {
    fits = v.fits;
    bounded = v.bounded;
    allocated = length-set r.buffer r.head item ∙ v.allocated;
    at_tail = v.at_tail;
    at_head = v.at_head;
    holds =
        let n = cells_lem r.capacity v.fits in
        rw v.at_head (
          Holds-set (cells r.capacity) (cells-pos r.capacity v.fits) r.buffer item reads
            (reads + length q) q refl (omega arith) v.holds);
  }

  -- The store to `head_`.
  pub publish-Represents :
      (item : A)
      → length q < r.capacity
      → get_elem? r.buffer r.head ≡ some item
      → Represents (record r { head = next r.capacity r.head }) reads (q ++ item ∷ [])
  publish-Represents item lt here = record {
    fits = v.fits;
    bounded = omega (arith, length-append q (item ∷ []));
    allocated = v.allocated;
    at_tail = v.at_tail;
    at_head =
        ap (next r.capacity) v.at_head
        ∙ next-mod r.capacity v.fits (reads + length q)
        ∙ ap (λ k. k % cells r.capacity) (omega (arith, length-append q (item ∷ [])));
    holds =
        Holds-snoc (cells r.capacity) (cells-pos r.capacity v.fits) r.buffer item reads
          (reads + length q) q refl (rw v.at_head at here) v.holds;
  }

module _ {ℓ} {A : Type ℓ} (r : Ring A) (reads : ℕ) (x : A) (q : List A)
    (v : Represents r reads (x ∷ q)) where
  -- The oldest item lies at `tail_`.
  pub get_elem?-tail : get_elem? r.buffer r.tail ≡ some x
  get_elem?-tail = ap (get_elem? r.buffer) v.at_tail ∙ v.holds.0

  -- The store to `tail_`.
  pub take-Represents : Represents (record r { tail = next r.capacity r.tail }) (suc reads) q
  take-Represents = record {
    fits = v.fits;
    bounded = omega (arith, v.bounded);
    allocated = v.allocated;
    at_tail = ap (next r.capacity) v.at_tail ∙ next-mod r.capacity v.fits reads;
    at_head = v.at_head ∙ ap (λ k. k % cells r.capacity) (omega arith);
    holds = v.holds.1;
  }

-- A consumer that does not see the ring as empty has an item to take.
pub oldest {ℓ} :
    {A : Type ℓ} (r : Ring A) (reads : ℕ) (q : List A)
    → Represents r reads q
    → r.tail ≢ r.head
    → (x : A) × (rest : List A) × (q ≡ x ∷ rest)
oldest r reads [] v ne =
    absurd (ne (v.at_tail ∙ (empty_iff r.capacity v.fits reads 0 v.bounded).1 refl ∙ sym v.at_head))
oldest r reads (x ∷ rest) v ne = (x, rest, refl)
