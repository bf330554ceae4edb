-- ===== src/BlockingQueue/Attempts.antt =====
-- What an attempt of each method tells of the queue.
use snippets_cc.Prelude.{
  ◌≤◌, ◌<◌, ◌≡◌, ◌≢◌, ◌⊎◌, if◌then◌else◌, Bool, true, false, none, some, List, [], ◌∷◌, ◌++◌,
  length, arith,
}
use snippets_cc.BlockingQueue.{
  is_nil, Queue, wait, return, push, try_push, pop, try_pop, take_front,
}
use snippets_cc.BlockingQueue.Threads.{Deadline, never, pending, expired, push_attempt, pop_attempt}

module _ {ℓ} {A : Type ℓ} (q : Queue A) where
  -- A push waits only on an open, full queue.
  pub push_attempt-wait :
      (d : Deadline) (elem : A)
      → push_attempt d q elem ≡ wait
      → (q.closed ≡ false) × (q.capacity ≤ length q.queue)
  unfolding push_attempt push try_push
  push_attempt-wait never elem e = ground arith
  push_attempt-wait pending elem e = ground arith
  push_attempt-wait expired elem e = ground arith

  -- It returns true only on an open queue with room, and puts the element at the end.
  pub push_attempt-true :
      (d : Deadline) (elem : A) (q' : Queue A) (notify : Bool)
      → push_attempt d q elem ≡ return true q' notify
      → (q.closed ≡ false)
        × (length q.queue < q.capacity)
        × (notify ≡ true)
        × (q' ≡ record q { queue = q.queue ++ elem ∷ [] })
  unfolding push_attempt push try_push
  push_attempt-true never elem q' notify e = ground arith
  push_attempt-true pending elem q' notify e = ground arith
  push_attempt-true expired elem q' notify e = ground arith

  -- It returns false only on a closed queue, or on a full one after a timeout.
  pub push_attempt-false :
      (d : Deadline) (elem : A) (q' : Queue A) (notify : Bool)
      → push_attempt d q elem ≡ return false q' notify
      → (q' ≡ q) × ((q.closed ≡ true) ⊎ (q.capacity ≤ length q.queue)) × (notify ≡ false)
  unfolding push_attempt push try_push
  push_attempt-false never elem q' notify e = ground arith
  push_attempt-false pending elem q' notify e = ground arith
  push_attempt-false expired elem q' notify e = ground arith

  pub pop_attempt-wait :
      (d : Deadline) → pop_attempt d q ≡ some wait → (q.closed ≡ false) × (q.queue ≡ [])
  unfolding pop_attempt pop try_pop take_front
  pop_attempt-wait never e = ground arith
  pop_attempt-wait pending e = ground arith
  pop_attempt-wait expired e = ground arith

  take_front-some :
      (l : List A) (elem : A) (q' : Queue A) (notify : Bool)
      → take_front q l ≡ some (return (some elem) q' notify)
      → (rest : List A) × (l ≡ elem ∷ rest) × (q' ≡ record q { queue = rest }) × (notify ≡ true)
  unfolding take_front
  take_front-some [] elem q' notify e = absurd (ground arith)
  take_front-some (x ∷ rest) elem q' notify e = (rest, ground arith, ground arith, ground arith)

  pop_attempt-take_front :
      (d : Deadline) (elem : A) (q' : Queue A) (notify : Bool)
      → pop_attempt d q ≡ some (return (some elem) q' notify)
      → take_front q q.queue ≡ some (return (some elem) q' notify)
  unfolding pop_attempt pop try_pop
  pop_attempt-take_front never elem q' notify e = ground arith
  pop_attempt-take_front pending elem q' notify e = ground arith
  pop_attempt-take_front expired elem q' notify e = ground arith

  -- A pop that returns an element takes it from the front.
  pub pop_attempt-some :
      (d : Deadline) (elem : A) (q' : Queue A) (notify : Bool)
      → pop_attempt d q ≡ some (return (some elem) q' notify)
      → (rest : List A) × (q.queue ≡ elem ∷ rest)
        × (q' ≡ record q { queue = rest })
        × (notify ≡ true)
  pop_attempt-some d elem q' notify e =
      take_front-some q.queue elem q' notify (pop_attempt-take_front d elem q' notify e)

  pub pop_attempt-none :
      (d : Deadline) (q' : Queue A) (notify : Bool)
      → pop_attempt d q ≡ some (return none q' notify)
      → (q' ≡ q) × (q.queue ≡ []) × (notify ≡ false)
  unfolding pop_attempt pop try_pop take_front
  pop_attempt-none never q' notify e = ground arith
  pop_attempt-none pending q' notify e = ground arith
  pop_attempt-none expired q' notify e = ground arith

  -- No pop looks at the front of an empty queue.
  pub pop_attempt-ne-none : (d : Deadline) → pop_attempt d q ≢ none
  unfolding pop_attempt pop try_pop take_front
  pop_attempt-ne-none never e = ground arith
  pop_attempt-ne-none pending e = ground arith
  pop_attempt-ne-none expired e = ground arith

  -- On a closed queue no call waits: a push returns false, and a pop the front if there is one.
  pub closed_attempts :
      (d : Deadline) (elem : A)
      → q.closed ≡ true
      → (push_attempt d q elem ≡ return false q false)
        × (pop_attempt d q
            ≡ (if is_nil q.queue then some (return none q false) else take_front q q.queue))
  unfolding push_attempt push try_push pop_attempt pop try_pop
  closed_attempts never elem h = ground arith
  closed_attempts pending elem h = ground arith
  closed_attempts expired elem h = ground arith
