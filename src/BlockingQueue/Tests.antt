-- ===== src/BlockingQueue/Tests.antt =====
-- Runs of concurrent_blocking_queue, and the theorems at concrete states.
use snippets_cc.Prelude.{ℕ, ◌≤◌, ◌≡◌, refl, true, false, none, some, [], ◌∷◌, ◌++◌, length, arith}
use snippets_cc.BlockingQueue.{
  Queue, wait, return, make, push, try_push, pop, try_pop, take_front, close, size, empty,
  is_closed,
}
use snippets_cc.BlockingQueue.Threads.{
  never, outside, push_ready, pop_ready, push_blocked, pop_blocked, total, nobody, somebody,
  push_call, pop_call, System, start, begin, push_wait, push_accept, pop_wait, Reach, here,
  then_step, push_attempt, pop_attempt,
}
use snippets_cc.BlockingQueue.Safety.{delivered_in_order, pop_blocked-empty, push_blocked-full}

code : Unit {0}
unfolding push try_push pop try_pop take_front close make push_attempt pop_attempt start total
code = tt

abbrev one : Queue ℕ
one = record { capacity = 1; queue = 7 ∷ []; closed = false }

abbrev none_left : Queue ℕ
none_left = record one { queue = [] }

attempts :
    (push one 8 ≡ wait)
    × (try_push true one 8 ≡ return false one false)
    × (pop one ≡ some (return (some 7) none_left true))
    × (pop none_left ≡ some wait)
    × (try_pop true none_left ≡ some (return none none_left false))
    × (push (close one) 8 ≡ return false (close one) false)
    × (pop (close none_left) ≡ some (return none (close none_left) false))
unfolding code
attempts = (refl, refl, refl, refl, refl, refl, refl)

observers : (size one ≡ 1) × (empty one ≡ false) × (is_closed (close one) ≡ true)
unfolding size empty is_closed close
observers = (refl, refl, refl)

-- A pop blocks; then a push wakes it.
abbrev pop_sleeps : System ℕ
pop_sleeps = record {
  shared = none_left;
  threads = pop_blocked never ∷ outside ∷ [];
  accepted = [];
  delivered = [];
}

pop_sleeps-Reach : Reach 1 2 pop_sleeps
unfolding code
pop_sleeps-Reach =
    then_step (then_step here (begin [] (outside ∷ []) (pop_ready never) refl pop_call))
      (pop_wait [] (outside ∷ []) never refl refl)

abbrev pop_woken : System ℕ
pop_woken = record {
  shared = one;
  threads = pop_ready never ∷ outside ∷ [];
  accepted = 7 ∷ [];
  delivered = [];
}

pop_woken-Reach : Reach 1 2 pop_woken
unfolding code
pop_woken-Reach =
    then_step
      (then_step pop_sleeps-Reach
        (begin (pop_blocked never ∷ []) [] (push_ready 7 never) refl (push_call 7)))
      (push_accept (pop_blocked never ∷ []) [] (pop_ready never ∷ outside ∷ []) 7 never one true
        refl refl (somebody [] (outside ∷ []) never))

-- A push fills the queue, and the next one blocks.
abbrev push_sleeps : System ℕ
push_sleeps = record {
  shared = one;
  threads = push_blocked 8 never ∷ outside ∷ [];
  accepted = 7 ∷ [];
  delivered = [];
}

push_sleeps-Reach : Reach 1 2 push_sleeps
unfolding code
push_sleeps-Reach =
    then_step
      (then_step
        (then_step
          (then_step here (begin [] (outside ∷ []) (push_ready 7 never) refl (push_call 7)))
          (push_accept [] (outside ∷ []) (outside ∷ outside ∷ []) 7 never one true refl refl
            (nobody (outside ∷ outside ∷ []) refl)))
        (begin [] (outside ∷ []) (push_ready 8 never) refl (push_call 8)))
      (push_wait [] (outside ∷ []) 8 never refl refl)

delivered_in_order_example :
    (pop_woken.accepted ≡ pop_woken.delivered ++ pop_woken.shared.queue)
    × (length pop_woken.shared.queue ≤ 1)
delivered_in_order_example = delivered_in_order pop_woken-Reach

pop_blocked-empty_example : (none_left.closed ≡ false) × (length none_left.queue ≡ 0)
unfolding code
pop_blocked-empty_example = pop_blocked-empty pop_sleeps-Reach refl refl (omega arith)

push_blocked-full_example : (one.closed ≡ false) × (length one.queue ≡ 1)
unfolding code
push_blocked-full_example = push_blocked-full push_sleeps-Reach refl refl (omega arith)
