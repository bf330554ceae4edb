-- ===== src/SpscRingBuffer/Refine.antt =====
-- null/spsc_ring_buffer.h in one thread, against a queue of at most `Capacity` items.
use snippets_cc.Prelude.{
  ℕ, suc, ◌+◌, ◌<◌, ◌≡◌, refl, ◌∙◌, inl, inr, Bool, true, false, some, List, [], ◌∷◌, ◌++◌, ◌==◌,
  if◌then◌else◌, lt→ltb, suc-==-zero, ==-comm, Bool-cases, length, set, get_elem?-set_self, arith,
}
use snippets_cc.SpscRingBuffer.{Ring, next, write, push, pop, size, is_full, is_empty}
use snippets_cc.SpscRingBuffer.Index.{cells_lem, mod-cells-lt, distance}
use snippets_cc.SpscRingBuffer.Represents.{
  Represents, full-test, empty-test, head-inside, write-Represents, publish-Represents,
  get_elem?-tail, take-Represents,
}

-- The contract: a queue that refuses an item at its capacity.
unfoldable pub offer {ℓ} : {A : Type ℓ} → ℕ → List A → A → Bool × List A
offer capacity q item = if length q == capacity then (false, q) else (true, q ++ item ∷ [])

unfoldable pub poll {ℓ} : {A : Type ℓ} → List A → A → Bool × A × List A
poll [] elem = (false, elem, [])
poll (x ∷ q) elem = (true, x, q)

-- `push` stays within the buffer, and does what `offer` does.
pub push_refines {ℓ} :
    {A : Type ℓ} (r : Ring A) (reads : ℕ) (q : List A)
    → Represents r reads q
    → (item : A)
    → (r' : Ring A) × (push r item ≡ some ((offer r.capacity q item).0, r'))
      × Represents r' reads (offer r.capacity q item).1
      × (r'.capacity ≡ r.capacity)
unfolding push offer write
push_refines r reads q v item = elim (Bool-cases (length q == r.capacity)) [
  | inl full ↦ (r, rw (full-test r reads q v, full), rw full v, refl)
  | inr room ↦
      let lt : length q < r.capacity = ground (arith, v.bounded) in
      let inside = head-inside r reads q v in
      (
        record r { head = next r.capacity r.head; buffer = set r.buffer r.head item },
        rw (full-test r reads q v, room, lt→ltb inside),
        rw room (
            publish-Represents (record r { buffer = set r.buffer r.head item }) reads q
              (write-Represents r reads q v item lt) item lt
              (get_elem?-set_self r.buffer r.head item inside)),
        refl,
      )
]

-- `pop` stays within the buffer, and does what `poll` does.
pub pop_refines {ℓ} :
    {A : Type ℓ} (r : Ring A) (reads : ℕ) (q : List A)
    → Represents r reads q
    → (elem : A)
    → (r' : Ring A) × (pop r elem ≡ some ((poll q elem).0, (poll q elem).1, r'))
      × ((n : ℕ) × Represents r' n (poll q elem).2)
      × (r'.capacity ≡ r.capacity)
unfolding pop poll
pop_refines r reads [] v elem = (r, rw (empty-test r reads [] v), (reads, v), refl)
pop_refines r reads (x ∷ q) v elem = (
  record r { tail = next r.capacity r.tail },
  rw (empty-test r reads (x ∷ q) v, suc-==-zero, get_elem?-tail r reads x q v),
  (suc reads, take-Represents r reads x q v),
  refl,
)

size-eq-length {ℓ} :
    {A : Type ℓ} (r : Ring A) (reads : ℕ) (q : List A) → Represents r reads q → size r ≡ length q
unfolding size
size-eq-length r reads q v =
    let n = cells_lem r.capacity v.fits in
    let t = mod-cells-lt r.capacity v.fits reads in
    let h = mod-cells-lt r.capacity v.fits (reads + length q) in
    elim (distance r.capacity v.fits reads (length q) v.bounded) [
      | inl ahead ↦ ground (arith, v.at_head, v.at_tail, v.bounded, v.fits)
      | inr behind ↦ ground (arith, v.at_head, v.at_tail, v.bounded, v.fits)
    ]

-- `size` is the number of items, `is_empty` tells whether it is zero, and `is_full` whether it is
-- the capacity.
pub size-length-is_full {ℓ} :
    {A : Type ℓ} (r : Ring A) (reads : ℕ) (q : List A)
    → Represents r reads q
    → (size r ≡ length q) × (is_empty r ≡ (length q == 0)) × (is_full r ≡ (length q == r.capacity))
unfolding size is_empty is_full
size-length-is_full r reads q v = (
  size-eq-length r reads q v,
  ==-comm r.head r.tail ∙ empty-test r reads q v,
  full-test r reads q v,
)
