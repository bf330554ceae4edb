-- ===== src/SharedPtr/Safety.antt =====
-- null/shared_ptr.h and null/weak_ptr.h: each call of a program, on the counts of the blocks.
use snippets_cc.Prelude.{
  ℕ, ◌+◌, ◌-◌, ◌≡◌, refl, inl, inr, Bool, true, false, Option, some, ◌>>=◌, List, ◌∷◌, get_elem?,
  set, Option-cases, arith,
}
use snippets_cc.SharedPtr.ControlBlock.{Heap}
use snippets_cc.SharedPtr.Counts.{HeapOk}
use snippets_cc.SharedPtr.Steps.{Leaves, new_block-Leaves}
use snippets_cc.SharedPtr.Owner
use snippets_cc.SharedPtr.Observer
use snippets_cc.SharedPtr.Owner.{Ptr, null}
use snippets_cc.SharedPtr.Handles
use snippets_cc.SharedPtr.Handles.{refers, Gives, HeapOk-congr}
use snippets_cc.SharedPtr.WeakHandles
use snippets_cc.SharedPtr.Variables.{count, refers-le-count, count-set, count-remove}
use snippets_cc.SharedPtr.Program.{
  Program, Call, construct_null, construct, construct_copy, construct_move, assign_copy,
  assign_move, reset, drop, weak_null, weak_from, weak_copy, weak_move, weak_assign_from,
  weak_assign_copy, weak_assign_move, weak_reset, weak_drop, lock, with_variable, remove, declare,
  assigned, weak_declare, weak_assigned, move_assign, weak_move_assign, call, run,
}

-- Every block is in the state that its numbers of shared_ptr and of weak_ptr variables call for.
unfoldable pub IsValid : Program → Type 0
IsValid st = HeapOk st.heap (count st.owners) (count st.observers)

-- The program goes on, in a valid state.
abbrev pub Continues : Option Program → Type 0
Continues o = (st' : Program) × (o ≡ some st') × IsValid st'

with_variable-Continues :
    (xs : List Ptr) (i : ℕ) (st : Program) (f : Ptr → Option Program)
    → IsValid st
    → ((x : Ptr) → get_elem? xs i ≡ some x → Continues (f x))
    → Continues (with_variable xs i st f)
with_variable-Continues xs i st f ok go = elim (Option-cases (get_elem? xs i)) [
  | inl e ↦ (st, rw (e, with_variable) refl, ok)
  | inr (x, e) ↦ rw (e, with_variable) (go x e)
]

-- A step that gives a pointer and leaves the numbers of variables right.
then-Continues :
    {o : Option (Ptr × Heap)} {x : Ptr} {s w : ℕ → ℕ} (owners observers : List Ptr)
    (f : Ptr × Heap → Option Program)
    → Gives o x s w
    → ((h : Heap) → f (x, h) ≡ some (record { heap = h; owners = owners; observers = observers }))
    → ((c : ℕ) → s c ≡ count owners c)
    → ((c : ℕ) → w c ≡ count observers c)
    → Continues (o >>= f)
unfolding IsValid
then-Continues owners observers f (h, run, ok) last es ew = (
  record { heap = h; owners = owners; observers = observers },
  rw run (last h),
  HeapOk-congr _ _ ok es ew,
)

after-Continues :
    {o : Option Heap} {s w : ℕ → ℕ} (owners observers : List Ptr)
    → Leaves o s w
    → ((c : ℕ) → s c ≡ count owners c)
    → ((c : ℕ) → w c ≡ count observers c)
    → Continues (o >>= λ h. some (record { heap = h; owners = owners; observers = observers }))
unfolding IsValid
after-Continues owners observers (h, run, ok) es ew = (
  record { heap = h; owners = owners; observers = observers },
  rw run refl,
  HeapOk-congr _ _ ok es ew,
)

-- A new value for variable `i`, made with the others as they are.
assign-Continues :
    (st : Program) (i : ℕ) (x : Ptr) {o : Option (Ptr × Heap)} (this : Ptr)
    → get_elem? st.owners i ≡ some this
    → Gives o x (λ c. (count st.owners c + refers x c) - refers this c) (count st.observers)
    → Continues (o >>= assigned st i)
assign-Continues st i x this e given =
    then-Continues (set st.owners i x) st.observers (assigned st i) given (λ h. refl)
      (λ c. omega (arith, count-set st.owners i this x e c)) (λ c. refl)

weak_assign-Continues :
    (st : Program) (i : ℕ) (x : Ptr) {o : Option (Ptr × Heap)} (this : Ptr)
    → get_elem? st.observers i ≡ some this
    → Gives o x (count st.owners) (λ c. (count st.observers c + refers x c) - refers this c)
    → Continues (o >>= weak_assigned st i)
weak_assign-Continues st i x this e given =
    then-Continues st.owners (set st.observers i x) (weak_assigned st i) given (λ h. refl)
      (λ c. refl) (λ c. omega (arith, count-set st.observers i this x e c))

construct-Continues :
    (st : Program) (fails : Bool) (p : Option ℕ)
    → IsValid st
    → Continues (call (construct fails p) st)
unfolding call IsValid Owner.from_pointer
construct-Continues st true p ok = (_, refl, ok)
construct-Continues st false p ok =
    let (b, h, made, ok') = new_block-Leaves _ _ _ p ok in
    (
      record {
        heap = h;
        owners = (record { px = p; pb = some b }) ∷ st.owners;
        observers = st.observers;
      },
      rw made refl,
      HeapOk-congr _ _ ok' (λ c. omega arith) (λ c. refl),
    )

construct_move-Continues :
    (st : Program) (j : ℕ) → IsValid st → Continues (call (construct_move j) st)
unfolding call IsValid Owner.move
construct_move-Continues st j ok = with_variable-Continues st.owners j st _ ok (λ x e. (
  _,
  refl,
  HeapOk-congr _ _ ok (λ c. omega (arith, count-set st.owners j x null e c)) (λ c. refl),
))

weak_move-Continues : (st : Program) (j : ℕ) → IsValid st → Continues (call (weak_move j) st)
unfolding call IsValid Observer.move
weak_move-Continues st j ok = with_variable-Continues st.observers j st _ ok (λ x e. (
  _,
  refl,
  HeapOk-congr _ _ ok (λ c. refl) (λ c. omega (arith, count-set st.observers j x null e c)),
))

assign_move-Continues :
    (st : Program) (i j : ℕ) → IsValid st → Continues (call (assign_move i j) st)
unfolding call IsValid Owner.move move_assign
assign_move-Continues st i j ok = with_variable-Continues st.owners j st _ ok (λ x e.
    let left = count-set st.owners j x null e in
    let owners' = set st.owners j null in
    with_variable-Continues owners' i st _ ok (λ this e'.
      then-Continues (set owners' i x) st.observers _
        (Handles.swap_in-Gives _ _ _ this x ok
          (λ c. omega (arith, refers-le-count owners' i this e' c, left c)))
        (λ h. refl)
        (λ c.
          omega
            (arith, left c, count-set owners' i this x e' c, refers-le-count owners' i this e' c))
        (λ c. refl)))

weak_assign_move-Continues :
    (st : Program) (i j : ℕ) → IsValid st → Continues (call (weak_assign_move i j) st)
unfolding call IsValid Observer.move weak_move_assign
weak_assign_move-Continues st i j ok = with_variable-Continues st.observers j st _ ok (λ x e.
    let left = count-set st.observers j x null e in
    let observers' = set st.observers j null in
    with_variable-Continues observers' i st _ ok (λ this e'.
      then-Continues st.owners (set observers' i x) _
        (WeakHandles.swap_in-Gives _ _ _ this x ok
          (λ c. omega (arith, refers-le-count observers' i this e' c, left c)))
        (λ h. refl) (λ c. refl)
        (λ c. omega (
          arith,
          left c,
          count-set observers' i this x e' c,
          refers-le-count observers' i this e' c,
        ))))

pub call-Continues : (c : Call) (st : Program) → IsValid st → Continues (call c st)
unfolding call IsValid Observer.reset
call-Continues construct_null st ok = (_, refl, HeapOk-congr _ _ ok (λ c. omega arith) (λ c. refl))
call-Continues (construct fails p) st ok = construct-Continues st fails p ok
call-Continues (construct_copy j) st ok = with_variable-Continues st.owners j st _ ok (λ x e.
    then-Continues (x ∷ st.owners) st.observers (declare st)
      (Handles.copy-Gives _ _ _ x ok (refers-le-count _ j x e)) (λ h. refl) (λ c. omega arith)
      (λ c. refl))
call-Continues (construct_move j) st ok = construct_move-Continues st j ok
call-Continues (assign_copy i j) st ok = with_variable-Continues st.owners i st _ ok (λ this e.
    with_variable-Continues st.owners j st _ ok (λ x e'. assign-Continues st i x this e (
      Handles.copy_assign-Gives _ _ _ this x ok (refers-le-count _ i this e)
        (refers-le-count _ j x e'))))
call-Continues (assign_move i j) st ok = assign_move-Continues st i j ok
call-Continues (reset i fails p) st ok = with_variable-Continues st.owners i st _ ok (λ this e.
    let (x, given) = Handles.reset-Gives _ _ _ fails p this ok (refers-le-count _ i this e) in
    assign-Continues st i x this e given)
call-Continues (drop i) st ok = with_variable-Continues st.owners i st _ ok (λ x e.
    after-Continues (remove st.owners i) st.observers
      (Handles.destruct-Leaves _ _ _ x ok (refers-le-count _ i x e))
      (λ c. omega (arith, count-remove st.owners i x e c)) (λ c. refl))
call-Continues weak_null st ok = (_, refl, HeapOk-congr _ _ ok (λ c. refl) (λ c. omega arith))
call-Continues (weak_from j) st ok = with_variable-Continues st.owners j st _ ok (λ x e.
    then-Continues st.owners (x ∷ st.observers) (weak_declare st)
      (WeakHandles.copy-Gives _ _ _ x ok (λ c. omega (arith, refers-le-count _ j x e c)))
      (λ h. refl) (λ c. refl) (λ c. omega arith))
call-Continues (weak_copy j) st ok = with_variable-Continues st.observers j st _ ok (λ x e.
    then-Continues st.owners (x ∷ st.observers) (weak_declare st)
      (WeakHandles.copy-Gives _ _ _ x ok (λ c. omega (arith, refers-le-count _ j x e c)))
      (λ h. refl) (λ c. refl) (λ c. omega arith))
call-Continues (weak_move j) st ok = weak_move-Continues st j ok
call-Continues (weak_assign_from i j) st ok =
    with_variable-Continues st.observers i st _ ok (λ this e.
      with_variable-Continues st.owners j st _ ok (λ x e'. weak_assign-Continues st i x this e (
        WeakHandles.copy_assign-Gives _ _ _ this x ok (refers-le-count _ i this e)
          (λ c. omega (arith, refers-le-count _ j x e' c)))))
call-Continues (weak_assign_copy i j) st ok =
    with_variable-Continues st.observers i st _ ok (λ this e.
      with_variable-Continues st.observers j st _ ok (λ x e'. weak_assign-Continues st i x this e (
        WeakHandles.copy_assign-Gives _ _ _ this x ok (refers-le-count _ i this e)
          (λ c. omega (arith, refers-le-count _ j x e' c)))))
call-Continues (weak_assign_move i j) st ok = weak_assign_move-Continues st i j ok
call-Continues (weak_reset i) st ok = with_variable-Continues st.observers i st _ ok (λ this e.
    then-Continues st.owners (set st.observers i null) (weak_assigned st i)
      (WeakHandles.swap_in-Gives _ _ _ this null ok (refers-le-count _ i this e)) (λ h. refl)
      (λ c. refl) (λ c. omega (arith, count-set st.observers i this null e c)))
call-Continues (weak_drop i) st ok = with_variable-Continues st.observers i st _ ok (λ x e.
    after-Continues st.owners (remove st.observers i)
      (WeakHandles.destruct-Leaves _ _ _ x ok (refers-le-count _ i x e)) (λ c. refl)
      (λ c. omega (arith, count-remove st.observers i x e c)))
call-Continues (lock spurious j) st ok = with_variable-Continues st.observers j st _ ok (λ x e.
    let (y, given) = WeakHandles.lock-Gives _ _ _ spurious x ok (refers-le-count _ j x e) in
    then-Continues (y ∷ st.owners) st.observers (declare st) given (λ h. refl) (λ c. omega arith)
      (λ c. refl))
