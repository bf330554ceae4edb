-- ===== src/SharedPtr/OneBlock.antt =====
-- null/shared_ptr.h, control_block_base: the counts of one block with an owner or an observer more or less.
use snippets_cc.Prelude.{
  ℕ, ◌+◌, ◌-◌, ◌<◌, ◌≡◌, inl, inr, Bool, true, false, ◌==◌, if◌then◌else◌, Bool-cases, arith,
}
use snippets_cc.SharedPtr.ControlBlock.{Block, live, deleted}
use snippets_cc.SharedPtr.Counts.{BlockOk, Allocated, one, one_ne}

-- What one owner or observer more or less does to a block that is there.
pub owner_added :
    (k : Block) (s w : ℕ)
    → BlockOk (live k) s w
    → 0 < s
    → BlockOk (live (record k { use_count = k.use_count + 1 })) (s + 1) w
owner_added k s w (u, v, d, p) pos = ground arith

pub observer_added :
    (k : Block) (s w : ℕ)
    → BlockOk (live k) s w
    → BlockOk (live (record k { weak_count = k.weak_count + 1 })) s (w + 1)
observer_added k s w (u, v, d, p) = ground arith

pub observer_removed :
    (k : Block) (s w : ℕ)
    → BlockOk (live k) s w
    → 0 < w
    → BlockOk
        (if k.weak_count == 1
          then deleted (record k { weak_count = k.weak_count - 1 })
          else live (record k { weak_count = k.weak_count - 1 }))
        s
        (w - 1)
observer_removed k s w (u, v, d, p) pos = elim (Bool-cases (k.weak_count == 1)) [
  | inl e ↦ rw e ground arith
  | inr e ↦ rw e ground arith
]

pub owner_removed :
    (k : Block) (s w : ℕ)
    → BlockOk (live k) s w
    → 1 < s
    → BlockOk (live (record k { use_count = k.use_count - 1 })) (s - 1) w
owner_removed k s w (u, v, d, p) pos = ground arith

pub last_owner_removed :
    (k : Block) (w : ℕ)
    → BlockOk (live k) 1 w
    → BlockOk
        (if k.weak_count == 1
          then deleted (record {
            use_count = k.use_count - 1;
            weak_count = k.weak_count - 1;
            pointer = k.pointer;
            disposals = k.disposals + 1;
          })
          else live (record {
            use_count = k.use_count - 1;
            weak_count = k.weak_count - 1;
            pointer = k.pointer;
            disposals = k.disposals + 1;
          }))
        0
        w
last_owner_removed k w (u, v, d, p) = elim (Bool-cases (k.weak_count == 1)) [
  | inl e ↦ rw e ground arith
  | inr e ↦ rw e ground arith
]

-- A change of the numbers at `b` alone.
pub elsewhere_added : (s : ℕ → ℕ) (b c : ℕ) → (c == b) ≡ false → s c + one b c ≡ s c
elsewhere_added s b c ne = omega (arith, one_ne b c ne)

pub elsewhere_removed : (s : ℕ → ℕ) (b c : ℕ) → (c == b) ≡ false → s c - one b c ≡ s c
elsewhere_removed s b c ne = omega (arith, one_ne b c ne)

pub Allocated-if : (t : Bool) (j k : Block) → Allocated (if t then deleted j else live k)
Allocated-if true j k = tt
Allocated-if false j k = tt
