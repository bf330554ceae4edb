-- ===== src/BlockingQueue.antt =====
-- null/concurrent_blocking_queue.h, class concurrent_blocking_queue: what a thread does each time it
-- holds the mutex. A method that waits is an attempt: it returns, or it waits on its condition
-- variable and makes the attempt again when it is woken. (For the threads see
-- BlockingQueue/Threads.antt.)
pub mod Threads
pub mod Counts
pub mod Attempts
pub mod Wakeups
pub mod Safety
mod Tests
use snippets_cc.Prelude.{
  ℕ, zero, suc, Bool, true, false, not, ◌&&◌, ◌||◌, Option, none, some, List, [], ◌∷◌, ◌++◌, ltb,
  if◌then◌else◌, length,
}

-- The members that the mutex guards.
pub record Queue {ℓ} (A : Type ℓ) : Type ℓ where
  pub capacity : ℕ
  pub queue : List A
  pub closed : Bool

unfoldable pub make {ℓ} : {A : Type ℓ} → ℕ → Queue A
make capacity = record { capacity = capacity; queue = []; closed = false }

-- An attempt waits, or returns a result with the queue that it leaves. `notify` says whether it
-- called `notify_one` on the other side's condition variable.
pub data Attempt {ℓ κ} (R : Type ℓ) (A : Type κ) : Type (ℓ ⊔ κ) where
  wait : Attempt R A
  return : (result : R) (left : Queue A) (notify : Bool) → Attempt R A

abbrev pub is_nil {ℓ} : {A : Type ℓ} → List A → Bool
is_nil [] = true
is_nil (x ∷ xs) = false

module _ {ℓ} {A : Type ℓ} where
  -- The predicates of the two waits.
  abbrev pub can_push : Queue A → Bool
  can_push q = ltb (length q.queue) q.capacity || q.closed

  abbrev pub can_pop : Queue A → Bool
  can_pop q = not (is_nil q.queue) || q.closed

  -- `queue_.push_back (elem); not_empty_cv_.notify_one (); return true;`
  abbrev pub accept : Queue A → A → Attempt Bool A
  accept q elem = return true (record q { queue = q.queue ++ elem ∷ [] }) true

  unfoldable pub push : Queue A → A → Attempt Bool A
  push q elem =
      if can_push q then (if q.closed then return false q false else accept q elem) else wait

  -- `expired` tells whether the wait has timed out.
  unfoldable pub try_push : Bool → Queue A → A → Attempt Bool A
  try_push expired q elem =
      let success = can_push q in
      if not success && not expired
      then wait
      else (if not success || q.closed then return false q false else accept q elem)

-- `elem = queue_.front (); queue_.pop_front (); not_full_cv_.notify_one (); return elem;`. At an
-- empty queue `front` is undefined behaviour: `none`.
unfoldable pub take_front {ℓ} : {A : Type ℓ} → Queue A → List A → Option (Attempt (Option A) A)
take_front q [] = none
take_front q (x ∷ rest) = some (return (some x) (record q { queue = rest }) true)

module _ {ℓ} {A : Type ℓ} where
  unfoldable pub pop : Queue A → Option (Attempt (Option A) A)
  pop q =
      if can_pop q
      then (if is_nil q.queue && q.closed then some (return none q false) else take_front q q.queue)
      else some wait

  unfoldable pub try_pop : Bool → Queue A → Option (Attempt (Option A) A)
  try_pop expired q =
      let success = can_pop q in
      if not success && not expired
      then some wait
      else (if not success || (is_nil q.queue && q.closed)
          then some (return none q false)
          else take_front q q.queue)

  -- `close`, up to the end of its critical section; the calls of `notify_all` come after it.
  unfoldable pub close : Queue A → Queue A
  close q = record q { closed = true }

  unfoldable pub size : Queue A → ℕ
  size q = length q.queue

  unfoldable pub empty : Queue A → Bool
  empty q = is_nil q.queue

  unfoldable pub is_closed : Queue A → Bool
  is_closed q = q.closed
