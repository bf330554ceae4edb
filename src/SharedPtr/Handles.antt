-- ===== src/SharedPtr/Handles.antt =====
-- What the operations of shared_ptr and weak_ptr do to the numbers of owners and observers.
use snippets_cc.Prelude.{
  ℕ, ◌+◌, ◌-◌, ◌≤◌, ◌≡◌, refl, inl, inr, Bool, true, false, Option, Option-cases, none, some, arith,
}
use snippets_cc.SharedPtr.ControlBlock.{Heap}
use snippets_cc.SharedPtr.Counts.{HeapOk, one, one_self}
use snippets_cc.SharedPtr.Steps.{
  Leaves, inc_use_count-Leaves, dec_use_count-Leaves, new_block-Leaves,
}
use snippets_cc.SharedPtr.Owner
use snippets_cc.SharedPtr.Owner.{Ptr, null, Made, constructed, threw}

-- Whether a pointer refers to block `c`, as a number.
abbrev pub refers : Ptr → ℕ → ℕ
refers x c = elim x.pb [ none ↦ 0 | some b ↦ one b c ]

-- The heap depends on the numbers pointwise.
pub HeapOk-congr :
    {h : Heap} {s w : ℕ → ℕ} (s' w' : ℕ → ℕ)
    → HeapOk h s w
    → ((c : ℕ) → s c ≡ s' c)
    → ((c : ℕ) → w c ≡ w' c)
    → HeapOk h s' w'
HeapOk-congr s' w' ok es ew = record {
  blocks = λ c. rw⁻¹ (es c) (rw⁻¹ (ew c) (ok.blocks c));
  used = ok.used;
  unused = ok.unused;
}

-- The operation gives `x` and a heap for `s` owners and `w` observers.
abbrev pub Gives : Option (Ptr × Heap) → Ptr → (ℕ → ℕ) → (ℕ → ℕ) → Type 0
Gives o x s w = (h' : Heap) × (o ≡ some (x, h')) × HeapOk h' s w

pub copy-Gives :
    (h : Heap) (s w : ℕ → ℕ) (x : Ptr)
    → HeapOk h s w
    → ((c : ℕ) → refers x c ≤ s c)
    → Gives (Owner.copy x h) x (λ c. s c + refers x c) w
unfolding Owner.copy
copy-Gives h s w x ok le = elim (Option-cases x.pb) [
  | inl e ↦ rw e (h, refl, HeapOk-congr _ _ ok (λ c. omega arith) (λ c. refl))
  | inr (b, e) ↦
      let owned : one b b ≤ s b = rw e at (le b) in
      let (h', run, ok') = inc_use_count-Leaves h s w b ok (omega (arith, owned, one_self b)) in
      rw e (h', rw run refl, ok')
]

pub destruct-Leaves :
    (h : Heap) (s w : ℕ → ℕ) (x : Ptr)
    → HeapOk h s w
    → ((c : ℕ) → refers x c ≤ s c)
    → Leaves (Owner.destruct x h) (λ c. s c - refers x c) w
unfolding Owner.destruct
destruct-Leaves h s w x ok le = elim (Option-cases x.pb) [
  | inl e ↦ rw e (h, refl, HeapOk-congr _ _ ok (λ c. omega arith) (λ c. refl))
  | inr (b, e) ↦
      let owned : one b b ≤ s b = rw e at (le b) in
      rw e (dec_use_count-Leaves h s w b ok (omega (arith, owned, one_self b)))
]

pub swap_in-Gives :
    (h : Heap) (s w : ℕ → ℕ) (this t : Ptr)
    → HeapOk h s w
    → ((c : ℕ) → refers this c ≤ s c)
    → Gives (Owner.swap_in this t h) t (λ c. s c - refers this c) w
unfolding Owner.swap_in Owner.swap
swap_in-Gives h s w this t ok le =
    let (h', run, ok') = destruct-Leaves h s w this ok le in (h', rw run refl, ok')

pub copy_assign-Gives :
    (h : Heap) (s w : ℕ → ℕ) (this other : Ptr)
    → HeapOk h s w
    → ((c : ℕ) → refers this c ≤ s c)
    → ((c : ℕ) → refers other c ≤ s c)
    → Gives (Owner.copy_assign this other h) other (λ c. (s c + refers other c) - refers this c) w
unfolding Owner.copy_assign
copy_assign-Gives h s w this other ok le le' =
    let (h1, run1, ok1) = copy-Gives h s w other ok le' in
    let (h2, run2, ok2) = swap_in-Gives h1 _ w this other ok1 (λ c. omega (arith, le c)) in
    (h2, rw run1 run2, ok2)

-- `reset` keeps the number of owners of the other blocks, or changes nothing when its allocation throws.
pub reset-Gives :
    (h : Heap) (s w : ℕ → ℕ) (fails : Bool) (p : Option ℕ) (this : Ptr)
    → HeapOk h s w
    → ((c : ℕ) → refers this c ≤ s c)
    → (x : Ptr) × Gives (Owner.reset fails p this h) x (λ c. (s c + refers x c) - refers this c) w
unfolding Owner.reset Owner.from_pointer
reset-Gives h s w false p this ok le =
    let (b, h1, made, ok1) = new_block-Leaves h s w p ok in
    let x : Ptr = record { px = p; pb = some b } in
    let (h2, run, ok2) = swap_in-Gives h1 _ w this x ok1 (λ c. omega (arith, le c)) in
    (x, (h2, rw made run, ok2))
reset-Gives h s w true p this ok le =
    (this, (h, refl, HeapOk-congr _ _ ok (λ c. omega arith) (λ c. refl)))
