-- ===== src/SharedPtr/Observer.antt =====
-- null/weak_ptr.h, class weak_ptr: its operations on a heap of control blocks. A conversion from
-- weak_ptr<U> runs the same code as the copy or the move within one type.
use snippets_cc.Prelude.{ℕ, Bool, Option, none, some, ◌>>=◌, ◌==◌, if◌then◌else◌}
use snippets_cc.SharedPtr.ControlBlock.{
  content, Heap, inc_weak_count, dec_weak_count, lock_use_count,
}
use snippets_cc.SharedPtr.Owner.{Ptr, null, swap}

-- `~weak_ptr ()`
unfoldable pub destruct : Ptr → Heap → Option Heap
destruct x h = elim x.pb [ none ↦ some h | some b ↦ dec_weak_count b h ]

-- `weak_ptr (const weak_ptr &other)`, and `weak_ptr (const shared_ptr<U> &sp)`
unfoldable pub copy : Ptr → Heap → Option (Ptr × Heap)
copy other h =
    let x : Ptr = record { px = other.px; pb = other.pb } in
    elim other.pb [ none ↦ some (x, h) | some b ↦ inc_weak_count b h >>= λ h'. some (x, h') ]

-- `weak_ptr (weak_ptr &&other)`
unfoldable pub move : Ptr → Ptr × Ptr
move other = (record { px = other.px; pb = other.pb }, record { px = none; pb = none })

unfoldable pub swap_in : Ptr → Ptr → Heap → Option (Ptr × Heap)
swap_in this t h = let (this', t') = swap this t in destruct t' h >>= λ h'. some (this', h')

-- `operator=` from a weak_ptr or a shared_ptr
unfoldable pub copy_assign : Ptr → Ptr → Heap → Option (Ptr × Heap)
copy_assign this other h = copy other h >>= λ (t, h'). swap_in this t h'

unfoldable pub reset : Ptr → Heap → Option (Ptr × Heap)
reset this h = swap_in this null h

-- `lock ()`, in which compare_exchange_weak fails `spurious` times: the new shared_ptr.
unfoldable pub lock : ℕ → Ptr → Heap → Option (Ptr × Heap)
lock spurious x h = elim x.pb [
  | none ↦ some (null, h)
  | some b ↦ lock_use_count spurious b h >>= λ (locked, h').
      some (if locked then record { px = x.px; pb = some b } else null, h')
]

unfoldable pub use_count : Ptr → Heap → Option ℕ
use_count x h = elim x.pb [ none ↦ some 0 | some b ↦ content (h.block b) >>= λ k. some k.use_count ]

unfoldable pub expired : Ptr → Heap → Option Bool
expired x h = use_count x h >>= λ n. some (n == 0)
