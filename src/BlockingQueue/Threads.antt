-- ===== src/BlockingQueue/Threads.antt =====
-- The threads that call concurrent_blocking_queue. The mutex makes each critical section one step;
-- `wait` gives the mutex up and blocks in one step, and `notify_one` wakes one blocked thread if
-- there is any. A blocked thread may also wake with no call of notify, and the wait of `try_push` and
-- `try_pop` may time out.
use snippets_cc.Prelude.{
  ℕ, ◌+◌, ◌≡◌, Bool, true, false, Option, none, some, List, [], ◌∷◌, ◌++◌, map, replicate,
}
use snippets_cc.BlockingQueue.{
  Queue, make, Attempt, wait, return, push, try_push, pop, try_pop, close,
}

-- How long a call waits: without end (`push`, `pop`), until a time that has not come yet, or no
-- longer (`try_push`, `try_pop`).
pub data Deadline : Type 0 where
  never pending expired : Deadline

-- Where a thread stands.
pub data Thread {ℓ} (A : Type ℓ) : Type ℓ where
  outside : Thread A
  -- before the mutex and the test of the predicate
  push_ready : A → Deadline → Thread A
  pop_ready : Deadline → Thread A
  -- blocked on `not_full_cv_`, on `not_empty_cv_`
  push_blocked : A → Deadline → Thread A
  pop_blocked : Deadline → Thread A
  -- in `close`, before the first and before the second `notify_all`
  closing_empty : Thread A
  closing_full : Thread A

module _ {ℓ} {A : Type ℓ} where
  -- A call with a deadline, in the words of the class.
  unfoldable pub push_attempt : Deadline → Queue A → A → Attempt Bool A
  push_attempt never q elem = push q elem
  push_attempt pending q elem = try_push false q elem
  push_attempt expired q elem = try_push true q elem

  unfoldable pub pop_attempt : Deadline → Queue A → Option (Attempt (Option A) A)
  pop_attempt never q = pop q
  pop_attempt pending q = try_pop false q
  pop_attempt expired q = try_pop true q

  -- `not_empty_cv_.notify_all ()` and `not_full_cv_.notify_all ()`, at each thread.
  unfoldable pub wake_pop : Thread A → Thread A
  wake_pop (pop_blocked d) = pop_ready d
  wake_pop t = t

  unfoldable pub wake_push : Thread A → Thread A
  wake_push (push_blocked elem d) = push_ready elem d
  wake_push t = t

  abbrev pub is_pop_blocked : Thread A → ℕ
  is_pop_blocked (pop_blocked d) = 1
  is_pop_blocked t = 0

  abbrev pub is_push_blocked : Thread A → ℕ
  is_push_blocked (push_blocked elem d) = 1
  is_push_blocked t = 0

  -- How many threads stand as `w` counts.
  unfoldable pub total : (Thread A → ℕ) → List (Thread A) → ℕ
  total w [] = 0
  total w (t ∷ ts) = w t + total w ts

  -- `not_empty_cv_.notify_one ()`
  pub data NotifyPop : List (Thread A) → List (Thread A) → Type ℓ where
    nobody : (ts : List (Thread A)) → total is_pop_blocked ts ≡ 0 → NotifyPop ts ts
    somebody :
        (xs ys : List (Thread A)) (d : Deadline)
        → NotifyPop (xs ++ pop_blocked d ∷ ys) (xs ++ pop_ready d ∷ ys)

  -- `not_full_cv_.notify_one ()`
  pub data NotifyPush : List (Thread A) → List (Thread A) → Type ℓ where
    nobody : (ts : List (Thread A)) → total is_push_blocked ts ≡ 0 → NotifyPush ts ts
    somebody :
        (xs ys : List (Thread A)) (elem : A) (d : Deadline)
        → NotifyPush (xs ++ push_blocked elem d ∷ ys) (xs ++ push_ready elem d ∷ ys)

module _ {ℓ} {A : Type ℓ} where
  -- The threads after an attempt that has called `notify_one` or not.
  abbrev pub NotifiedPop : (notify : Bool) → List (Thread A) → List (Thread A) → Type ℓ
  NotifiedPop true ts ts' = NotifyPop ts ts'
  NotifiedPop false ts ts' = ts' ≡ ts

  abbrev pub NotifiedPush : (notify : Bool) → List (Thread A) → List (Thread A) → Type ℓ
  NotifiedPush true ts ts' = NotifyPush ts ts'
  NotifiedPush false ts ts' = ts' ≡ ts

-- The queue, the threads, and in order the elements of the pushes that returned true and of the pops
-- that returned one.
pub record System {ℓ} (A : Type ℓ) : Type ℓ where
  pub shared : Queue A
  pub threads : List (Thread A)
  pub accepted : List A
  pub delivered : List A

module _ {ℓ} {A : Type ℓ} where
  -- `n` threads share a queue of the given capacity.
  unfoldable pub start : ℕ → ℕ → System A
  start capacity n = record {
    shared = make capacity;
    threads = replicate n outside;
    accepted = [];
    delivered = [];
  }

  -- A thread outside, anywhere among the others, begins a call.
  pub data Begins : Thread A → Type ℓ where
    push_call : (elem : A) → Begins (push_ready elem never)
    try_push_call : (elem : A) → Begins (push_ready elem pending)
    pop_call : Begins (pop_ready never)
    try_pop_call : Begins (pop_ready pending)

  -- A blocked thread wakes with no notify.
  pub data Wakes : Thread A → Thread A → Type ℓ where
    push_spurious : (elem : A) (d : Deadline) → Wakes (push_blocked elem d) (push_ready elem d)
    pop_spurious : (d : Deadline) → Wakes (pop_blocked d) (pop_ready d)
    push_timeout : (elem : A) → Wakes (push_blocked elem pending) (push_ready elem expired)
    pop_timeout : Wakes (pop_blocked pending) (pop_ready expired)

  pub data Step (s : System A) : System A → Type ℓ where
    begin :
        (xs ys : List (Thread A)) (t : Thread A)
        → s.threads ≡ xs ++ outside ∷ ys
        → Begins t
        → Step s (record s { threads = xs ++ t ∷ ys })
    wake :
        (xs ys : List (Thread A)) (t t' : Thread A)
        → s.threads ≡ xs ++ t ∷ ys
        → Wakes t t'
        → Step s (record s { threads = xs ++ t' ∷ ys })
    push_wait :
        (xs ys : List (Thread A)) (elem : A) (d : Deadline)
        → s.threads ≡ xs ++ push_ready elem d ∷ ys
        → push_attempt d s.shared elem ≡ wait
        → Step s (record s { threads = xs ++ push_blocked elem d ∷ ys })
    push_accept :
        (xs ys ts : List (Thread A)) (elem : A) (d : Deadline) (q : Queue A) (notify : Bool)
        → s.threads ≡ xs ++ push_ready elem d ∷ ys
        → push_attempt d s.shared elem ≡ return true q notify
        → NotifiedPop notify (xs ++ outside ∷ ys) ts
        → Step s (record s { shared = q; threads = ts; accepted = s.accepted ++ elem ∷ [] })
    push_refuse :
        (xs ys ts : List (Thread A)) (elem : A) (d : Deadline) (q : Queue A) (notify : Bool)
        → s.threads ≡ xs ++ push_ready elem d ∷ ys
        → push_attempt d s.shared elem ≡ return false q notify
        → NotifiedPop notify (xs ++ outside ∷ ys) ts
        → Step s (record s { shared = q; threads = ts })
    pop_wait :
        (xs ys : List (Thread A)) (d : Deadline)
        → s.threads ≡ xs ++ pop_ready d ∷ ys
        → pop_attempt d s.shared ≡ some wait
        → Step s (record s { threads = xs ++ pop_blocked d ∷ ys })
    pop_deliver :
        (xs ys ts : List (Thread A)) (elem : A) (d : Deadline) (q : Queue A) (notify : Bool)
        → s.threads ≡ xs ++ pop_ready d ∷ ys
        → pop_attempt d s.shared ≡ some (return (some elem) q notify)
        → NotifiedPush notify (xs ++ outside ∷ ys) ts
        → Step s (record s { shared = q; threads = ts; delivered = s.delivered ++ elem ∷ [] })
    pop_nothing :
        (xs ys ts : List (Thread A)) (d : Deadline) (q : Queue A) (notify : Bool)
        → s.threads ≡ xs ++ pop_ready d ∷ ys
        → pop_attempt d s.shared ≡ some (return none q notify)
        → NotifiedPush notify (xs ++ outside ∷ ys) ts
        → Step s (record s { shared = q; threads = ts })
    close_section :
        (xs ys : List (Thread A))
        → s.threads ≡ xs ++ outside ∷ ys
        → Step s (record s { shared = close s.shared; threads = xs ++ closing_empty ∷ ys })
    close_notify_empty :
        (xs ys : List (Thread A))
        → s.threads ≡ xs ++ closing_empty ∷ ys
        → Step s (record s { threads = map wake_pop (xs ++ closing_full ∷ ys) })
    close_notify_full :
        (xs ys : List (Thread A))
        → s.threads ≡ xs ++ closing_full ∷ ys
        → Step s (record s { threads = map wake_push (xs ++ outside ∷ ys) })

  pub data Reach (capacity n : ℕ) : System A → Type ℓ where
    here : Reach capacity n (start capacity n)
    then_step : {s t : System A} → Reach capacity n s → Step s t → Reach capacity n t
