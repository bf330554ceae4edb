-- ===== src/SharedPtr/Owner.antt =====
-- null/shared_ptr.h, class shared_ptr: its operations on a heap of control blocks. A conversion from
-- shared_ptr<U> runs the same code as the copy or the move within one type. `none` is a fault of the
-- heap.
use snippets_cc.Prelude.{ℕ, Bool, true, false, Option, none, some, ◌>>=◌}
use snippets_cc.SharedPtr.ControlBlock.{content, Heap, new_block, inc_use_count, dec_use_count}

-- The members px_ and pb_ of a shared_ptr, and of a weak_ptr.
pub record Ptr : Type 0 where
  pub px : Option ℕ
  pub pb : Option ℕ

abbrev pub null : Ptr
null = record { px = none; pb = none }

unfoldable pub swap : Ptr → Ptr → Ptr × Ptr
swap a b = (record { px = b.px; pb = b.pb }, record { px = a.px; pb = a.pb })

-- A constructor that allocates ends with a pointer, or throws after the deleter was called.
pub data Made : Type 0 where
  constructed : Ptr → Heap → Made
  threw : (deleted : Option ℕ) → Heap → Made

-- `shared_ptr (U *p, Deleter d)`; the first argument tells whether `new` throws.
unfoldable pub from_pointer : Bool → Option ℕ → Heap → Made
from_pointer false p h =
    let (b, h') = new_block p h in constructed (record { px = p; pb = some b }) h'
from_pointer true p h = threw p h

-- `~shared_ptr ()`
unfoldable pub destruct : Ptr → Heap → Option Heap
destruct x h = elim x.pb [ none ↦ some h | some b ↦ dec_use_count b h ]

-- `shared_ptr (const shared_ptr &other)`
unfoldable pub copy : Ptr → Heap → Option (Ptr × Heap)
copy other h =
    let x : Ptr = record { px = other.px; pb = other.pb } in
    elim other.pb [ none ↦ some (x, h) | some b ↦ inc_use_count b h >>= λ h'. some (x, h') ]

-- `shared_ptr (shared_ptr &&other)`: the new pointer, and what is left of `other`.
unfoldable pub move : Ptr → Ptr × Ptr
move other = (record { px = other.px; pb = other.pb }, record { px = none; pb = none })

-- `swap (*this, t)` and the destructor of the temporary `t`, with which every assignment ends.
unfoldable pub swap_in : Ptr → Ptr → Heap → Option (Ptr × Heap)
swap_in this t h = let (this', t') = swap this t in destruct t' h >>= λ h'. some (this', h')

-- `operator= (const shared_ptr &other)`
unfoldable pub copy_assign : Ptr → Ptr → Heap → Option (Ptr × Heap)
copy_assign this other h = copy other h >>= λ (t, h'). swap_in this t h'

-- `reset (U *p, E d)`.
unfoldable pub reset : Bool → Option ℕ → Ptr → Heap → Option (Ptr × Heap)
reset fails p this h = elim (from_pointer fails p h) [
  | constructed t h' ↦ swap_in this t h'
  | threw deleted h' ↦ some (this, h')
]

-- `operator bool`, `get` and `use_count`
unfoldable pub is_set : Ptr → Bool
is_set x = elim x.px [ none ↦ false | some p ↦ true ]

unfoldable pub get : Ptr → Option ℕ
get x = x.px

unfoldable pub use_count : Ptr → Heap → Option ℕ
use_count x h = elim x.pb [ none ↦ some 0 | some b ↦ content (h.block b) >>= λ k. some k.use_count ]
