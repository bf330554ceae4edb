-- ===== src/SharedPtr/Units.antt =====
-- null/shared_ptr.h and weak_ptr.h under threads: what each thread holds of a control block, and the sums of it.
use snippets_cc.Prelude.{
  ℕ, ◌+◌, ◌≤◌, ◌≡◌, some, List, [], ◌∷◌, ◌++◌, ◌==◌, if◌then◌else◌, get_elem?, set, total,
  total-append, total-set, total-ge, arith,
}
use snippets_cc.SharedPtr.ControlBlock.{Block, Slot, unallocated, live, deleted}
use snippets_cc.SharedPtr.Threads.{
  Agent, owner, observer, locking, disposing, releasing, destroying, gone,
}

-- What an agent holds: a unit of `use_count`; a unit of `weak_count` of its own or, once the last owner is gone, the one
-- that the owners shared; the duty to call the deleter; the duty to delete the block.
abbrev pub use_units : Agent → ℕ
use_units owner = 1
use_units _ = 0

abbrev pub weak_units : Agent → ℕ
weak_units observer = 1
weak_units (locking n) = 1
weak_units disposing = 1
weak_units releasing = 1
weak_units _ = 0

abbrev pub is_disposing : Agent → ℕ
is_disposing disposing = 1
is_disposing _ = 0

abbrev pub is_destroying : Agent → ℕ
is_destroying destroying = 1
is_destroying _ = 0

abbrev pub is_present : Agent → ℕ
is_present gone = 0
is_present _ = 1

abbrev pub positive : ℕ → ℕ
positive n = if n == 0 then 0 else 1

-- `use_count` is the number of shared_ptrs and `weak_count` that of weak_ptrs, with one more for the shared_ptrs together.
-- The object has been disposed of, or there is a shared_ptr, or one thread is about to dispose of it; the block is
-- counted, or one thread is about to delete it.
abbrev pub IsCounted : Block → List Agent → Type 0
IsCounted k gs =
    (k.use_count ≡ total use_units gs)
    × (k.weak_count ≡ total weak_units gs + positive k.use_count)
    × (k.disposals + positive k.use_count + total is_disposing gs ≡ 1)
    × (positive k.weak_count + total is_destroying gs ≡ 1)

-- A live block is counted; a deleted one has no pointer left, and its object was disposed of once.
abbrev pub IsSafe : Slot → List Agent → Type 0
IsSafe unallocated gs = ⊥
IsSafe (live k) gs = IsCounted k gs
IsSafe (deleted k) gs = (total is_present gs ≡ 0) × (k.disposals ≡ 1)

-- Every agent that is present holds something.
pub total-is_present :
    (gs : List Agent)
    → total is_present gs ≡ total use_units gs + total weak_units gs + total is_destroying gs
unfolding total
total-is_present [] = omega arith
total-is_present (owner ∷ gs) = omega (arith, total-is_present gs)
total-is_present (observer ∷ gs) = omega (arith, total-is_present gs)
total-is_present (locking n ∷ gs) = omega (arith, total-is_present gs)
total-is_present (disposing ∷ gs) = omega (arith, total-is_present gs)
total-is_present (releasing ∷ gs) = omega (arith, total-is_present gs)
total-is_present (destroying ∷ gs) = omega (arith, total-is_present gs)
total-is_present (gone ∷ gs) = omega (arith, total-is_present gs)

pub total-is_disposing-le : (gs : List Agent) → total is_disposing gs ≤ total weak_units gs
unfolding total
total-is_disposing-le [] = omega arith
total-is_disposing-le (g ∷ gs) = omega (arith, le g, total-is_disposing-le gs)
  where
    le : (g : Agent) → is_disposing g ≤ weak_units g
    le disposing = omega arith
    le owner = omega arith
    le observer = omega arith
    le (locking n) = omega arith
    le releasing = omega arith
    le destroying = omega arith
    le gone = omega arith

-- The agent `g` is one of `gs`, and has become `g'` in `bs`, with new ones.
abbrev pub Becomes : Agent → Agent → (new gs bs : List Agent) → (Agent → ℕ) → Type 0
Becomes g g' new gs bs w = (w g ≤ total w gs) × (total w bs + w g ≡ total w gs + w g' + total w new)

abbrev pub AllBecome : Agent → Agent → (new gs bs : List Agent) → Type 0
AllBecome g g' new gs bs =
    Becomes g g' new gs bs use_units
    × Becomes g g' new gs bs weak_units
    × Becomes g g' new gs bs is_disposing
    × Becomes g g' new gs bs is_destroying
    × (total is_present bs ≡ total use_units bs + total weak_units bs + total is_destroying bs)
    × (total is_disposing bs ≤ total weak_units bs)

pub set-AllBecome :
    (i : ℕ) (g g' : Agent) (new gs : List Agent)
    → get_elem? gs i ≡ some g
    → AllBecome g g' new gs (set gs i g' ++ new)
set-AllBecome i g g' new gs e = (
  become use_units,
  become weak_units,
  become is_disposing,
  become is_destroying,
  total-is_present _,
  total-is_disposing-le _,
)
  where
    become : (w : Agent → ℕ) → Becomes g g' new gs (set gs i g' ++ new) w
    become w = (
      total-ge w gs i g e,
      omega (arith, total-append w (set gs i g') new, total-set w gs i g g' e),
    )
