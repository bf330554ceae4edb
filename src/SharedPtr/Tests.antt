-- ===== src/SharedPtr/Tests.antt =====
-- A run of shared_ptr and weak_ptr, and the theorems at its states.
use snippets_cc.Prelude.{
  ℕ, total, ◌&&◌, ltb, ◌+◌, ◌≡◌, refl, true, false, Option, none, some, List, [], ◌∷◌,
  if◌then◌else◌, ◌==◌,
}
use snippets_cc.SharedPtr.Threads as Threads
use snippets_cc.SharedPtr.Concurrent.{SafeStep, run-IsSafe, run-deleted}
use snippets_cc.SharedPtr.ControlBlock.{
  Heap, new_block, inc_use_count, inc_weak_count, dispose, dec_weak_count, dec_use_count, Block,
  deleted,
}
use snippets_cc.SharedPtr.Owner
use snippets_cc.SharedPtr.Observer
use snippets_cc.SharedPtr.Owner.{Ptr, null}
use snippets_cc.SharedPtr.Variables.{count}
use snippets_cc.SharedPtr.Program.{
  Program, Call, construct, construct_copy, assign_copy, assign_move, drop, weak_from, lock,
  move_assign, call, run, initial,
}
use snippets_cc.SharedPtr.Lifetime.{disposals, is_live, run_lem, use_count-count, lock-expired}

-- One object with two shared_ptr and one weak_ptr, assigned to themselves.
abbrev calls : List Call
calls =
    construct false (some 7)
    ∷ weak_from 0
    ∷ construct_copy 0
    ∷ assign_copy 0 0
    ∷ assign_move 1 1
    ∷ []

abbrev here : Ptr
here = record { px = some 7; pb = some 0 }

abbrev after : Program
unfolding run call Owner.from_pointer Owner.copy Owner.move Owner.copy_assign Owner.swap_in
    Owner.swap Owner.destruct Observer.copy new_block inc_use_count inc_weak_count dec_use_count
    move_assign
after = elim (run calls initial) [ none ↦ initial | some st ↦ st ]

after_lem : run calls initial ≡ some after
unfolding run call Owner.from_pointer Owner.copy Owner.move Owner.copy_assign Owner.swap_in
    Owner.swap Owner.destruct Observer.copy new_block inc_use_count inc_weak_count dec_use_count
    move_assign
after_lem = refl

run_lem_example :
    (st : Program) × (run calls initial ≡ some st)
    × (disposals (st.heap.block 0)
        ≡ (if ltb 0 st.heap.fresh && count st.owners 0 == 0 then 1 else 0))
    × (is_live (st.heap.block 0) ≡ ltb 0 (count st.owners 0 + count st.observers 0))
run_lem_example = run_lem calls 0

use_count-count_example :
    (is_live (after.heap.block 0) ≡ true)
    × (disposals (after.heap.block 0) ≡ 0)
    × (Owner.use_count here after.heap ≡ some (count after.owners 0))
unfolding after
use_count-count_example = use_count-count calls after 0 here 0 after_lem refl refl

lock-expired_example :
    (Observer.expired here after.heap ≡ some (count after.owners 0 == 0))
    × (h : Heap) × (call (lock 2 0) after
        ≡ some (record {
          heap = h;
          owners = (if count after.owners 0 == 0 then null else here) ∷ after.owners;
          observers = after.observers;
        }))
unfolding after
lock-expired_example = lock-expired calls after 2 0 here 0 after_lem refl refl

-- When both owners have gone, the object has been disposed of and the block waits for the weak_ptr.
abbrev dropped : Option Program
unfolding run call Owner.destruct dec_use_count dispose dec_weak_count
dropped = run (drop 0 ∷ drop 0 ∷ []) after

dropped_lem :
    (st : Program) × (dropped ≡ some st)
    × (disposals (st.heap.block 0) ≡ 1)
    × (is_live (st.heap.block 0) ≡ true)
unfolding run call Owner.destruct dec_use_count dispose dec_weak_count after dropped
dropped_lem = (_, refl, refl, refl)

-- Two threads: one locks a weak_ptr while the other destructs the shared_ptr, and both go on until all is gone.
abbrev interleaving : List (Threads.Action × ℕ)
interleaving =
    (Threads.observe, 0)
    ∷ (Threads.lock, 1)
    ∷ (Threads.go_on true, 1)
    ∷ (Threads.go_on false, 1)
    ∷ (Threads.destruct, 0)
    ∷ (Threads.destruct, 2)
    ∷ (Threads.destruct, 1)
    ∷ (Threads.go_on false, 2)
    ∷ (Threads.go_on false, 2)
    ∷ (Threads.go_on false, 2)
    ∷ []

abbrev all_gone : Threads.System
all_gone = record {
  block = deleted (record { use_count = 0; weak_count = 0; pointer = some 7; disposals = 1 });
  agents = Threads.gone ∷ Threads.gone ∷ Threads.gone ∷ [];
}

interleaving_lem : Threads.run interleaving (Threads.start (some 7)) ≡ some all_gone
unfolding Threads.run Threads.step Threads.step_agent Threads.access Threads.act
    Threads.sub_use_count Threads.sub_weak_count Threads.exchange
interleaving_lem = refl

run-IsSafe_example : SafeStep (Threads.run interleaving (Threads.start (some 7)))
run-IsSafe_example = run-IsSafe interleaving (some 7)

run-deleted_example : (k : Block) × (all_gone.block ≡ deleted k) × (k.disposals ≡ 1)
unfolding total
run-deleted_example = run-deleted interleaving (some 7) all_gone interleaving_lem refl
