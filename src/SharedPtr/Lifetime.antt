-- ===== src/SharedPtr/Lifetime.antt =====
-- null/shared_ptr.h and null/weak_ptr.h: when the objects and the blocks of shared_ptr and weak_ptr end.
use mathlib.Core.Path.{subst}
use mathlib.Core.Option.{some-injective}
use snippets_cc.Prelude.{
  ℕ, ◌+◌, ◌≤◌, ◌<◌, ◌≡◌, refl, sym, ap, ◌∙◌, Bool, true, false, some, ◌==◌, if◌then◌else◌, List, [],
  ◌∷◌, get_elem?, ltb, ◌&&◌, Bool-cases, inl, inr, lt→ltb, arith,
}
use snippets_cc.SharedPtr.ControlBlock.{Slot, unallocated, live, deleted, Heap}
use snippets_cc.SharedPtr.Counts.{BlockOk, one, Allocated, one_self, held}
use snippets_cc.SharedPtr.Owner
use snippets_cc.SharedPtr.Observer
use snippets_cc.SharedPtr.Owner.{Ptr, null}
use snippets_cc.SharedPtr.WeakHandles.{lock_lem}
use snippets_cc.SharedPtr.Variables.{count, refers-le-count}
use snippets_cc.SharedPtr.Program.{Program, with_variable, Call, lock, call, run, initial}
use snippets_cc.SharedPtr.Safety.{IsValid, call-Continues}

initial-IsValid : IsValid initial
unfolding IsValid
initial-IsValid = record {
  blocks = λ b. (refl, refl);
  used = λ b below. absurd (omega arith);
  unused = λ b le. refl;
}

run-IsValid :
    (cs : List Call) (st : Program)
    → IsValid st
    → (st' : Program) × (run cs st ≡ some st') × IsValid st'
unfolding run
run-IsValid [] st ok = (st, refl, ok)
run-IsValid (c ∷ cs) st ok =
    let (st1, e1, ok1) = call-Continues c st ok in
    let (st2, e2, ok2) = run-IsValid cs st1 ok1 in (st2, rw e1 e2, ok2)

reached-IsValid : (cs : List Call) (st : Program) → run cs initial ≡ some st → IsValid st
reached-IsValid cs st e =
    let (st', e', ok) = run-IsValid cs initial initial-IsValid in
    subst IsValid (some-injective st' st (sym e' ∙ e)) ok

-- A variable counts for the block that it refers to.
counted :
    (xs : List Ptr) (i : ℕ) (x : Ptr) (b : ℕ)
    → get_elem? xs i ≡ some x
    → x.pb ≡ some b
    → 0 < count xs b
counted xs i x b e pb =
    let le : one b b ≤ count xs b = rw pb at (refers-le-count xs i x e b) in
    omega (arith, le, one_self b)

-- The calls of a slot's deleter, and whether its block is there.
abbrev pub disposals : Slot → ℕ
disposals unallocated = 0
disposals (live k) = k.disposals
disposals (deleted k) = k.disposals

abbrev pub is_live : Slot → Bool
is_live unallocated = false
is_live (live k) = true
is_live (deleted k) = false

given_out :
    (o : Slot) (s w : ℕ)
    → BlockOk o s w
    → Allocated o
    → (disposals o ≡ (if s == 0 then 1 else 0)) × (is_live o ≡ ltb 0 (s + w))
given_out unallocated s w ok there = absurd there
given_out (live k) s w ok there = (ok.2, sym (lt→ltb ok.3))
given_out (deleted k) s w ok there = ground (arith, ok.0, ok.1, ok.2)

-- The state of the slot at `b`, given out or not.
slot_lem :
    (st : Program) (b : ℕ)
    → IsValid st
    → (disposals (st.heap.block b)
        ≡ (if ltb b st.heap.fresh && count st.owners b == 0 then 1 else 0))
      × (is_live (st.heap.block b) ≡ ltb 0 (count st.owners b + count st.observers b))
unfolding IsValid
slot_lem st b ok = elim (Bool-cases (ltb b st.heap.fresh)) [
  | inl below ↦ rw below (given_out _ _ _ (ok.blocks b) (ok.used b (ground arith)))
  | inr above ↦
      let e = ok.unused b (ground arith) in
      let (s0, w0) =
        subst (λ o. BlockOk o (count st.owners b) (count st.observers b)) e (ok.blocks b) in
      rw above (rw e (rw s0 (rw w0 (refl, refl))))
]

-- Any sequence of calls of shared_ptr and weak_ptr on variables, in which allocations may throw and
-- compare_exchange_weak may fail spuriously, self-assignments included, meets no access to a deleted
-- block. After it, at each address `b`, the object of the block has been disposed of exactly once if the
-- block was made and no shared_ptr variable refers to it, and not at all otherwise; and the block is
-- there exactly when a shared_ptr or a weak_ptr variable refers to it.
pub run_lem :
    (cs : List Call) (b : ℕ)
    → (st : Program) × (run cs initial ≡ some st)
      × (disposals (st.heap.block b)
          ≡ (if ltb b st.heap.fresh && count st.owners b == 0 then 1 else 0))
      × (is_live (st.heap.block b) ≡ ltb 0 (count st.owners b + count st.observers b))
run_lem cs b =
    let (st, e, ok) = run-IsValid cs initial initial-IsValid in
    let (d, l) = slot_lem st b ok in (st, e, d, l)

-- In a state that a sequence of calls reaches, a shared_ptr variable `x` with block `b` has its block,
-- whose object has not been disposed of, and its use_count is the number of shared_ptr variables with
-- that block.
pub use_count-count :
    (cs : List Call) (st : Program) (i : ℕ) (x : Ptr) (b : ℕ)
    → run cs initial ≡ some st
    → get_elem? st.owners i ≡ some x
    → x.pb ≡ some b
    → (is_live (st.heap.block b) ≡ true)
      × (disposals (st.heap.block b) ≡ 0)
      × (Owner.use_count x st.heap ≡ some (count st.owners b))
unfolding IsValid Owner.use_count
use_count-count cs st i x b reached at pb =
    let ok : IsValid st = reached-IsValid cs st reached in
    let owned : 0 < count st.owners b = counted st.owners i x b at pb in
    let (k, e, here) = held b ok (omega (arith, owned)) in
    let disposed : k.disposals ≡ 0 = ground (arith, here.2, owned) in
    rw e (refl, disposed, rw pb (rw e (ap some (here.0))))

-- In a state that a sequence of calls reaches, `lock` on a weak_ptr variable `x` with block `b` declares
-- a shared_ptr: the null one if no shared_ptr variable has that block, and otherwise one that refers to
-- it with the pointer of `x`. `expired` tells which, and spurious failures do not matter.
pub lock-expired :
    (cs : List Call) (st : Program) (spurious j : ℕ) (x : Ptr) (b : ℕ)
    → run cs initial ≡ some st
    → get_elem? st.observers j ≡ some x
    → x.pb ≡ some b
    → (Observer.expired x st.heap ≡ some (count st.owners b == 0))
      × (h : Heap) × (call (lock spurious j) st
          ≡ some (record {
            heap = h;
            owners = (if count st.owners b == 0 then null else x) ∷ st.owners;
            observers = st.observers;
          }))
unfolding IsValid call Observer.expired Observer.use_count
lock-expired cs st spurious j x b reached at pb =
    let ok : IsValid st = reached-IsValid cs st reached in
    let observed : 0 < count st.observers b = counted st.observers j x b at pb in
    let (k, e, here) = held b ok (omega (arith, observed)) in
    let (y, which, (h, locked, _)) = lock_lem _ _ _ spurious x b ok (omega (arith, observed)) pb in
    (rw pb (rw e (rw (here.0) refl)), h, rw (at, with_variable) (rw locked (rw which refl)))
