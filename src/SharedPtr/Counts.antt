-- ===== src/SharedPtr/Counts.antt =====
-- null/shared_ptr.h, control_block_base: the state of each block, for its numbers of owners and observers.
use snippets_cc.Prelude.{
  ℕ, ◌+◌, ◌≤◌, ◌<◌, ◌≡◌, refl, sym, ◌∙◌, ◌⊎◌, inl, inr, false, ◌==◌, if◌then◌else◌, Bool-cases,
  ==_iff, arith, ltb,
}
use mathlib.Core.Path.{subst}
use snippets_cc.SharedPtr.ControlBlock.{Block, Slot, unallocated, live, deleted, Heap, update}

-- A block with `s` owners and `w` observers: the owners together count as one observer more, and the
-- object is disposed of once, when the last owner has gone. A deleted block has neither, and was disposed of once.
abbrev pub BlockOk : Slot → ℕ → ℕ → Type 0
BlockOk unallocated s w = (s ≡ 0) × (w ≡ 0)
BlockOk (deleted k) s w = (s ≡ 0) × (w ≡ 0) × (k.disposals ≡ 1)
BlockOk (live k) s w =
    (k.use_count ≡ s)
    × (k.weak_count ≡ (if s == 0 then w else w + 1))
    × (k.disposals ≡ (if s == 0 then 1 else 0))
    × (0 < s + w)

-- An address that has been given out.
abbrev pub Allocated : Slot → Type 0
Allocated unallocated = ⊥
Allocated (live k) = Unit
Allocated (deleted k) = Unit

pub record HeapOk (h : Heap) (s w : ℕ → ℕ) : Type 0 where
  pub blocks : (b : ℕ) → BlockOk (h.block b) (s b) (w b)
  pub used : (b : ℕ) → b < h.fresh → Allocated (h.block b)
  pub unused : (b : ℕ) → h.fresh ≤ b → h.block b ≡ unallocated

-- One at `b`, zero elsewhere.
abbrev pub one : ℕ → ℕ → ℕ
one b c = if c == b then 1 else 0

pub one_self : (b : ℕ) → one b b ≡ 1
one_self b = ground arith

pub one_ne : (b c : ℕ) → (c == b) ≡ false → one b c ≡ 0
one_ne b c e = ground arith

-- `h'` has `k` at `b`, and otherwise what `h` has.
abbrev pub Changed : Heap → Heap → ℕ → Slot → Type 0
Changed h h' b k =
    (h'.fresh ≡ h.fresh) × (h'.block b ≡ k) × ((c : ℕ) → (c == b) ≡ false → h'.block c ≡ h.block c)

pub update-Changed : (h : Heap) (b : ℕ) (k : Slot) → Changed h (update h b k) b k
update-Changed h b k = (refl, rw ((==_iff b b).1 refl) refl, λ c ne. rw ne refl)

pub Changed-trans :
    {h h1 h2 : Heap} (b : ℕ) {j k : Slot} → Changed h h1 b j → Changed h1 h2 b k → Changed h h2 b k
Changed-trans b p q = (q.0 ∙ p.0, q.1, λ c ne. q.2 c ne ∙ p.2 c ne)

-- A change at one block keeps the rest.
pub Changed-HeapOk :
    {h h' : Heap} {s w : ℕ → ℕ} (s' w' : ℕ → ℕ) {b : ℕ} {k : Slot}
    → HeapOk h s w
    → Changed h h' b k
    → b < h.fresh
    → BlockOk k (s' b) (w' b)
    → Allocated k
    → ((c : ℕ) → (c == b) ≡ false → (s' c ≡ s c) × (w' c ≡ w c))
    → HeapOk h' s' w'
Changed-HeapOk {h} {h'} {s} {w} s' w' {b} {k} ok ch lt here there others = record {
  blocks = λ c. elim (Bool-cases (c == b)) [
    | inl e ↦ rw ((==_iff c b).0 e) (rw (ch.1) here)
    | inr e ↦ rw (ch.2 c e) (rw ((others c e).0) (rw ((others c e).1) (ok.blocks c)))
  ];
  used = λ c below. elim (Bool-cases (c == b)) [
    | inl e ↦ rw ((==_iff c b).0 e) (rw (ch.1) there)
    | inr e ↦ rw (ch.2 c e) (ok.used c (omega (arith, ch.0)))
  ];
  unused = λ c le. elim (Bool-cases (c == b)) [
    | inl e ↦ absurd (omega (arith, (==_iff c b).0 e, ch.0))
    | inr e ↦ ch.2 c e ∙ ok.unused c (omega (arith, ch.0))
  ];
}

live_ne : {k : Block} → unallocated ≡ live k → ⊥
live_ne e = cc

-- A block that is there has been allocated.
pub allocated :
    {h : Heap} {s w : ℕ → ℕ} {b : ℕ} {k : Block} → HeapOk h s w → h.block b ≡ live k → b < h.fresh
allocated {h} {s} {w} {b} ok e = elim (Bool-cases (ltb b h.fresh)) [
  | inl p ↦ ground arith
  | inr p ↦ absurd (live_ne (sym (ok.unused b (ground arith)) ∙ e))
]

Slot-cases :
    (o : Slot)
    → ((o ≡ unallocated) ⊎ ((k : Block) × (o ≡ deleted k))) ⊎ ((k : Block) × (o ≡ live k))
Slot-cases unallocated = inl (inl refl)
Slot-cases (deleted k) = inl (inr (k, refl))
Slot-cases (live k) = inr (k, refl)

-- A block with an owner or an observer is there.
pub held :
    {h : Heap} {s w : ℕ → ℕ} (b : ℕ)
    → HeapOk h s w
    → 0 < s b + w b
    → (k : Block) × (h.block b ≡ live k) × BlockOk (live k) (s b) (w b)
held {h} {s} {w} b ok pos = elim (Slot-cases (h.block b)) [
  | inl (inl e) ↦ absurd (let z = subst (λ o. BlockOk o (s b) (w b)) e (ok.blocks b) in omega arith)
  | inl (inr (k, e)) ↦
      absurd (let z = subst (λ o. BlockOk o (s b) (w b)) e (ok.blocks b) in omega arith)
  | inr (k, e) ↦ (k, e, subst (λ o. BlockOk o (s b) (w b)) e (ok.blocks b))
]
