-- ===== src/SharedPtr/Threads.antt =====
-- null/shared_ptr.h and weak_ptr.h under threads: one control block, and what the threads hold of it. Each atomic
-- operation, each call of the deleter and each deletion of the block is one step; the steps of the threads are in any
-- order. `none` is an access to the block after its deletion.
use snippets_cc.Prelude.{
  ℕ, ◌+◌, ◌-◌, Bool, not, ◌&&◌, Option, none, some, ◌>>=◌, List, [], ◌∷◌, ◌++◌, ◌==◌, if◌then◌else◌,
  get_elem?, set,
}
use snippets_cc.SharedPtr.ControlBlock.{Block, Slot, live, deleted, content}

-- A shared_ptr or a weak_ptr, or the call that a thread is in with it, by what it does next.
pub data Agent : Type 0 where
  owner : Agent
  observer : Agent
  -- in `lock_use_count`, with `n` loaded
  locking : (n : ℕ) → Agent
  -- in `dec_use_count` before `dispose`, and before `dec_weak_count`
  disposing : Agent
  releasing : Agent
  -- in `dec_weak_count` before `destroy`
  destroying : Agent
  gone : Agent

-- A thread copies a shared_ptr, makes a weak_ptr of a pointer, destructs a pointer, calls `lock`, or goes on in its call;
-- a compare_exchange_weak may fail spuriously.
pub data Action : Type 0 where
  copy observe destruct lock : Action
  go_on : (spurious : Bool) → Action

-- `fetch_sub` of `dec_use_count` and of `dec_weak_count`
unfoldable pub sub_use_count : Block → Agent × List Agent × Slot
sub_use_count k = (
  if k.use_count == 1 then disposing else gone,
  [],
  live (record k { use_count = k.use_count - 1 }),
)

unfoldable pub sub_weak_count : Block → Agent × List Agent × Slot
sub_weak_count k = (
  if k.weak_count == 1 then destroying else gone,
  [],
  live (record k { weak_count = k.weak_count - 1 }),
)

-- `compare_exchange_weak (n, n + 1)` of `lock_use_count`
unfoldable pub exchange : ℕ → (spurious : Bool) → Block → Agent × List Agent × Slot
exchange n spurious k =
    if n == 0
    then (observer, [], live k)
    else (if (k.use_count == n) && not spurious
        then (observer, owner ∷ [], live (record k { use_count = n + 1 }))
        else (locking k.use_count, [], live k))

-- What becomes of the agent, the pointers that it makes, and the block.
unfoldable pub act : Action → Agent → Block → Agent × List Agent × Slot
act copy owner k = (owner, owner ∷ [], live (record k { use_count = k.use_count + 1 }))
act observe owner k = (owner, observer ∷ [], live (record k { weak_count = k.weak_count + 1 }))
act observe observer k =
    (observer, observer ∷ [], live (record k { weak_count = k.weak_count + 1 }))
act destruct owner k = sub_use_count k
act destruct observer k = sub_weak_count k
act lock observer k = (locking k.use_count, [], live k)
act (go_on spurious) (locking n) k = exchange n spurious k
act (go_on spurious) disposing k = (releasing, [], live (record k { disposals = k.disposals + 1 }))
act (go_on spurious) releasing k = sub_weak_count k
act (go_on spurious) destroying k = (gone, [], deleted k)
act _ a k = (a, [], live k)

pub record System : Type 0 where
  pub block : Slot
  pub agents : List Agent

-- The agent `i` acts on the block. One that is gone does nothing.
unfoldable pub access : Action → ℕ → Agent → System → Option System
access a i g s = content s.block >>= λ k.
    let (g', new, block) = act a g k in
    some (record { block = block; agents = set s.agents i g' ++ new })

unfoldable pub step_agent : Action → ℕ → Agent → System → Option System
step_agent a i gone s = some s
step_agent a i g s = access a i g s

unfoldable pub step : Action → ℕ → System → Option System
step a i s = elim (get_elem? s.agents i) [ none ↦ some s | some g ↦ step_agent a i g s ]

unfoldable pub run : List (Action × ℕ) → System → Option System
run [] s = some s
run ((a, i) ∷ acts) s = step a i s >>= run acts

-- One shared_ptr to a new object.
abbrev pub start : Option ℕ → System
start p = record {
  block = live (record { use_count = 1; weak_count = 1; pointer = p; disposals = 0 });
  agents = owner ∷ [];
}
