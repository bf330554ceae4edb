-- ===== src/SharedPtr/WeakHandles.antt =====
-- What the operations of weak_ptr do to the numbers of owners and observers.
use snippets_cc.Prelude.{
  ℕ, ◌+◌, ◌-◌, ◌≤◌, ◌<◌, ◌≡◌, refl, inl, inr, false, Option-cases, none, some, ◌==◌, if◌then◌else◌,
  arith,
}
use snippets_cc.SharedPtr.ControlBlock.{Heap}
use snippets_cc.SharedPtr.Counts.{HeapOk, one, one_self}
use snippets_cc.SharedPtr.Steps.{
  Leaves, inc_weak_count-Leaves, dec_weak_count-Leaves, lock_use_count_lem,
}
use snippets_cc.SharedPtr.Owner
use snippets_cc.SharedPtr.Observer
use snippets_cc.SharedPtr.Owner.{Ptr, null}
use snippets_cc.SharedPtr.Handles.{refers, HeapOk-congr, Gives}

pub copy-Gives :
    (h : Heap) (s w : ℕ → ℕ) (x : Ptr)
    → HeapOk h s w
    → ((c : ℕ) → refers x c ≤ s c + w c)
    → Gives (Observer.copy x h) x s (λ c. w c + refers x c)
unfolding Observer.copy
copy-Gives h s w x ok le = elim (Option-cases x.pb) [
  | inl e ↦ rw e (h, refl, HeapOk-congr _ _ ok (λ c. refl) (λ c. omega arith))
  | inr (b, e) ↦
      let referred : one b b ≤ s b + w b = rw e at (le b) in
      let (h', run, ok') = inc_weak_count-Leaves h s w b ok (omega (arith, referred, one_self b)) in
      rw e (h', rw run refl, ok')
]

pub destruct-Leaves :
    (h : Heap) (s w : ℕ → ℕ) (x : Ptr)
    → HeapOk h s w
    → ((c : ℕ) → refers x c ≤ w c)
    → Leaves (Observer.destruct x h) s (λ c. w c - refers x c)
unfolding Observer.destruct
destruct-Leaves h s w x ok le = elim (Option-cases x.pb) [
  | inl e ↦ rw e (h, refl, HeapOk-congr _ _ ok (λ c. refl) (λ c. omega arith))
  | inr (b, e) ↦
      let observed : one b b ≤ w b = rw e at (le b) in
      rw e (dec_weak_count-Leaves h s w b ok (omega (arith, observed, one_self b)))
]

pub swap_in-Gives :
    (h : Heap) (s w : ℕ → ℕ) (this t : Ptr)
    → HeapOk h s w
    → ((c : ℕ) → refers this c ≤ w c)
    → Gives (Observer.swap_in this t h) t s (λ c. w c - refers this c)
unfolding Observer.swap_in Owner.swap
swap_in-Gives h s w this t ok le =
    let (h', run, ok') = destruct-Leaves h s w this ok le in (h', rw run refl, ok')

pub copy_assign-Gives :
    (h : Heap) (s w : ℕ → ℕ) (this other : Ptr)
    → HeapOk h s w
    → ((c : ℕ) → refers this c ≤ w c)
    → ((c : ℕ) → refers other c ≤ s c + w c)
    → Gives
        (Observer.copy_assign this other h)
        other
        s
        (λ c. (w c + refers other c) - refers this c)
unfolding Observer.copy_assign
copy_assign-Gives h s w this other ok le le' =
    let (h1, run1, ok1) = copy-Gives h s w other ok le' in
    let (h2, run2, ok2) = swap_in-Gives h1 s _ this other ok1 (λ c. omega (arith, le c)) in
    (h2, rw run1 run2, ok2)

-- `lock` on a pointer to `b` gives one owner more when there is one, and else the null pointer.
pub lock_lem :
    (h : Heap) (s w : ℕ → ℕ) (spurious : ℕ) (x : Ptr) (b : ℕ)
    → HeapOk h s w
    → 0 < s b + w b
    → x.pb ≡ some b
    → (y : Ptr) × (y ≡ (if s b == 0 then null else x))
      × Gives (Observer.lock spurious x h) y (λ c. s c + refers y c) w
unfolding Observer.lock
lock_lem h s w spurious x b ok pos e = elim (lock_use_count_lem spurious h s w b ok pos) [
  | inl (z, run) ↦
      (null, rw z refl, (h, rw e (rw run refl), HeapOk-congr _ _ ok (λ c. omega arith) (λ c. refl)))
  | inr (more, h', run, ok') ↦
      let z : (s b == 0) ≡ false = ground arith in
      (record { px = x.px; pb = some b }, rw z (rw e refl), (h', rw e (rw run refl), ok'))
]

lock-null-Gives :
    (h : Heap) (s w : ℕ → ℕ) (spurious : ℕ) (x : Ptr)
    → HeapOk h s w
    → x.pb ≡ none
    → Gives (Observer.lock spurious x h) null (λ c. s c + refers null c) w
unfolding Observer.lock
lock-null-Gives h s w spurious x ok e =
    (h, rw e refl, HeapOk-congr _ _ ok (λ c. omega arith) (λ c. refl))

-- `lock` gives one owner more, or the null pointer.
pub lock-Gives :
    (h : Heap) (s w : ℕ → ℕ) (spurious : ℕ) (x : Ptr)
    → HeapOk h s w
    → ((c : ℕ) → refers x c ≤ w c)
    → (y : Ptr) × Gives (Observer.lock spurious x h) y (λ c. s c + refers y c) w
lock-Gives h s w spurious x ok le = elim (Option-cases x.pb) [
  | inl e ↦ (null, lock-null-Gives h s w spurious x ok e)
  | inr (b, e) ↦
      let observed : one b b ≤ w b = rw e at (le b) in
      let (y, _, given) = lock_lem h s w spurious x b ok (omega (arith, observed, one_self b)) e in
      (y, given)
]
