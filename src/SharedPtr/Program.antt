-- ===== src/SharedPtr/Program.antt =====
-- Programs over variables of types shared_ptr and weak_ptr. A call on a variable that is not there
-- is no call. `none` is a fault of the heap: an access to a deleted block, or a count below zero.
use snippets_cc.Prelude.{
  ℕ, zero, suc, Bool, Option, none, some, ◌>>=◌, List, [], ◌∷◌, get_elem?, set,
}
use snippets_cc.SharedPtr.ControlBlock.{Heap, unallocated}
use snippets_cc.SharedPtr.Owner
use snippets_cc.SharedPtr.Observer
use snippets_cc.SharedPtr.Owner.{Ptr, null, constructed, threw}

pub record Program : Type 0 where
  pub heap : Heap
  pub owners : List Ptr
  pub observers : List Ptr

-- The variable that goes out of scope.
abbrev pub remove : List Ptr → ℕ → List Ptr
remove [] i = []
remove (x ∷ xs) zero = xs
remove (x ∷ xs) (suc i) = x ∷ remove xs i

-- What is done with the variable at an index, if there is one.
abbrev pub with_variable : List Ptr → ℕ → Program → (Ptr → Option Program) → Option Program
with_variable xs i st f = elim (get_elem? xs i) [ none ↦ some st | some x ↦ f x ]

-- `construct` and `weak_...` declare a variable; `drop` ends one. The arguments `i` and `j` are indices of
-- variables, `i` of the one assigned to.
pub data Call : Type 0 where
  construct_null : Call
  construct : (fails : Bool) (p : Option ℕ) → Call
  construct_copy : (j : ℕ) → Call
  construct_move : (j : ℕ) → Call
  assign_copy : (i j : ℕ) → Call
  assign_move : (i j : ℕ) → Call
  reset : (i : ℕ) (fails : Bool) (p : Option ℕ) → Call
  drop : (i : ℕ) → Call
  weak_null : Call
  weak_from : (j : ℕ) → Call
  weak_copy : (j : ℕ) → Call
  weak_move : (j : ℕ) → Call
  weak_assign_from : (i j : ℕ) → Call
  weak_assign_copy : (i j : ℕ) → Call
  weak_assign_move : (i j : ℕ) → Call
  weak_reset : (i : ℕ) → Call
  weak_drop : (i : ℕ) → Call
  lock : (spurious j : ℕ) → Call

-- `other` is moved from before `*this` is read, so that a self-assignment reads what the move left.
unfoldable pub move_assign : ℕ → ℕ → Program → Option Program
move_assign i j st = with_variable st.owners j st (λ other.
    let (t, left) = Owner.move other in
    let owners' = set st.owners j left in
    with_variable owners' i st (λ this. Owner.swap_in this t st.heap >>= λ (this', h).
    some (record { heap = h; owners = set owners' i this'; observers = st.observers })))

unfoldable pub weak_move_assign : ℕ → ℕ → Program → Option Program
weak_move_assign i j st = with_variable st.observers j st (λ other.
    let (t, left) = Observer.move other in
    let observers' = set st.observers j left in
    with_variable observers' i st (λ this. Observer.swap_in this t st.heap >>= λ (this', h).
    some (record { heap = h; owners = st.owners; observers = set observers' i this' })))

-- A new variable of each type, and a new value of one.
abbrev pub declare : Program → Ptr × Heap → Option Program
declare st (x, h) = some (record { heap = h; owners = x ∷ st.owners; observers = st.observers })

abbrev pub assigned : Program → ℕ → Ptr × Heap → Option Program
assigned st i (x, h) =
    some (record { heap = h; owners = set st.owners i x; observers = st.observers })

abbrev pub weak_declare : Program → Ptr × Heap → Option Program
weak_declare st (x, h) =
    some (record { heap = h; owners = st.owners; observers = x ∷ st.observers })

abbrev pub weak_assigned : Program → ℕ → Ptr × Heap → Option Program
weak_assigned st i (x, h) =
    some (record { heap = h; owners = st.owners; observers = set st.observers i x })

unfoldable pub call : Call → Program → Option Program
call construct_null st = declare st (null, st.heap)
call (construct fails p) st = elim (Owner.from_pointer fails p st.heap) [
  | constructed x h ↦ declare st (x, h)
  | threw deleted h ↦ some (record st { heap = h })
]
call (construct_copy j) st =
    with_variable st.owners j st (λ other. Owner.copy other st.heap >>= declare st)
call (construct_move j) st = with_variable st.owners j st (λ other.
    let (x, left) = Owner.move other in
    some (record { heap = st.heap; owners = x ∷ set st.owners j left; observers = st.observers }))
call (assign_copy i j) st = with_variable st.owners i st (λ this.
    with_variable st.owners j st (λ other. Owner.copy_assign this other st.heap >>= assigned st i))
call (assign_move i j) st = move_assign i j st
call (reset i fails p) st =
    with_variable st.owners i st (λ this. Owner.reset fails p this st.heap >>= assigned st i)
call (drop i) st = with_variable st.owners i st (λ x. Owner.destruct x st.heap >>= λ h.
    some (record { heap = h; owners = remove st.owners i; observers = st.observers }))
call weak_null st = weak_declare st (null, st.heap)
call (weak_from j) st =
    with_variable st.owners j st (λ sp. Observer.copy sp st.heap >>= weak_declare st)
call (weak_copy j) st =
    with_variable st.observers j st (λ other. Observer.copy other st.heap >>= weak_declare st)
call (weak_move j) st = with_variable st.observers j st (λ other.
    let (x, left) = Observer.move other in
    some (record { heap = st.heap; owners = st.owners; observers = x ∷ set st.observers j left }))
call (weak_assign_from i j) st = with_variable st.observers i st (λ this.
    with_variable st.owners j st
      (λ sp. Observer.copy_assign this sp st.heap >>= weak_assigned st i))
call (weak_assign_copy i j) st = with_variable st.observers i st (λ this.
    with_variable st.observers j st
      (λ other. Observer.copy_assign this other st.heap >>= weak_assigned st i))
call (weak_assign_move i j) st = weak_move_assign i j st
call (weak_reset i) st =
    with_variable st.observers i st (λ this. Observer.reset this st.heap >>= weak_assigned st i)
call (weak_drop i) st = with_variable st.observers i st (λ x. Observer.destruct x st.heap >>= λ h.
    some (record { heap = h; owners = st.owners; observers = remove st.observers i }))
call (lock spurious j) st =
    with_variable st.observers j st (λ x. Observer.lock spurious x st.heap >>= declare st)

-- The calls in order.
unfoldable pub run : List Call → Program → Option Program
run [] st = some st
run (c ∷ cs) st = call c st >>= run cs

abbrev pub initial : Program
initial = record {
  heap = record { block = λ b. unallocated; fresh = 0 };
  owners = [];
  observers = [];
}
