-- ===== src/SharedPtr/ControlBlock.antt =====
-- null/shared_ptr.h, struct control_block_base and control_block: the two counts of a control block,
-- on a heap of blocks. `none` is a fault: an access to a block that has been deleted, or a count that
-- would go below zero. A `long` holds every count that arises, since each unit of it is a live handle.
use snippets_cc.Prelude.{
  ℕ, zero, suc, ◌+◌, ◌-◌, Bool, true, false, Option, none, some, ◌==◌, if◌then◌else◌, ◌>>=◌,
}

-- A block with the managed pointer `p` (`none` is nullptr). `disposals` counts the calls of
-- `dispose`, that is of the deleter on `p`.
pub record Block : Type 0 where
  pub use_count : ℕ
  pub weak_count : ℕ
  pub pointer : Option ℕ
  pub disposals : ℕ

-- What an address holds: nothing yet, a block, or what a block was when it was deleted.
pub data Slot : Type 0 where
  unallocated : Slot
  live : Block → Slot
  deleted : Block → Slot

-- An access faults unless the block is there.
abbrev pub content : Slot → Option Block
content unallocated = none
content (live k) = some k
content (deleted k) = none

-- The slots by address, and the address of the next block.
pub record Heap : Type 0 where
  pub block : ℕ → Slot
  pub fresh : ℕ

abbrev pub update : Heap → ℕ → Slot → Heap
update h b k = record h { block = λ c. if c == b then k else h.block c }

-- `new control_block{ p, d }`
unfoldable pub new_block : Option ℕ → Heap → ℕ × Heap
new_block p h = (
  h.fresh,
  record (update h h.fresh
      (live (record { use_count = 1; weak_count = 1; pointer = p; disposals = 0 }))) {
        fresh = h.fresh + 1;
      },
)

unfoldable pub inc_use_count : ℕ → Heap → Option Heap
inc_use_count b h =
    content (h.block b) >>= λ k. some (update h b (live (record k { use_count = k.use_count + 1 })))

unfoldable pub inc_weak_count : ℕ → Heap → Option Heap
inc_weak_count b h = content (h.block b) >>= λ k.
    some (update h b (live (record k { weak_count = k.weak_count + 1 })))

-- `dispose`: the deleter is called on the pointer. `destroy`: `delete this`.
unfoldable pub dispose : ℕ → Heap → Option Heap
dispose b h =
    content (h.block b) >>= λ k. some (update h b (live (record k { disposals = k.disposals + 1 })))

unfoldable pub destroy : ℕ → Heap → Option Heap
destroy b h = content (h.block b) >>= λ k. some (update h b (deleted k))

unfoldable pub dec_weak_count : ℕ → Heap → Option Heap
dec_weak_count b h = content (h.block b) >>= λ k.
    if k.weak_count == 0
    then none
    else (let h' = update h b (live (record k { weak_count = k.weak_count - 1 })) in
        if k.weak_count == 1 then destroy b h' else some h')

unfoldable pub dec_use_count : ℕ → Heap → Option Heap
dec_use_count b h = content (h.block b) >>= λ k.
    if k.use_count == 0
    then none
    else (let h' = update h b (live (record k { use_count = k.use_count - 1 })) in
        if k.use_count == 1 then (dispose b h' >>= dec_weak_count b) else some h')

-- The loop of `lock_use_count`, entered with `n` loaded: compare_exchange_weak fails `spurious` times
-- though the count is `n`, each time loading it again, and then succeeds.
unfoldable pub lock_loop : ℕ → ℕ → ℕ → Heap → Option (Bool × Heap)
lock_loop zero n b h =
    if n == 0
    then some (false, h)
    else (content (h.block b) >>= λ k.
        some (true, update h b (live (record k { use_count = n + 1 }))))
lock_loop (suc spurious) n b h =
    let retry = content (h.block b) >>= λ k. lock_loop spurious k.use_count b h in
    if n == 0 then some (false, h) else retry

unfoldable pub lock_use_count : ℕ → ℕ → Heap → Option (Bool × Heap)
lock_use_count spurious b h = content (h.block b) >>= λ k. lock_loop spurious k.use_count b h
