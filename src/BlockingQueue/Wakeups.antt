-- ===== src/BlockingQueue/Wakeups.antt =====
-- null/concurrent_blocking_queue.h: the invariant that relates blocked threads to the queue.
use mathlib.Core.Path.{subst}
use snippets_cc.Prelude.{
  ℕ, ◌+◌, ◌≤◌, ◌<◌, ◌≡◌, refl, ap, ◌⊎◌, inl, inr, true, false, some, List, [], ◌∷◌, ◌++◌, map,
  length, length-append, arith,
}
use snippets_cc.BlockingQueue.{Queue, make, wait, close}
use snippets_cc.BlockingQueue.Threads.{
  Deadline, never, pending, expired, Thread, outside, push_ready, pop_ready, push_blocked,
  pop_blocked, closing_empty, closing_full, is_pop_blocked, is_push_blocked, wake_pop, wake_push,
  total, NotifyPop, NotifyPush, NotifiedPop, NotifiedPush, nobody, somebody, Wakes, push_spurious,
  pop_spurious, push_timeout, pop_timeout, Begins, push_call, try_push_call, pop_call, try_pop_call,
  System, start, Step, begin, wake, push_wait, push_accept, push_refuse, pop_wait, pop_deliver,
  pop_nothing, close_section, close_notify_empty, close_notify_full, Reach, here, then_step,
  push_attempt, pop_attempt,
}
use snippets_cc.BlockingQueue.Counts.{
  is_pop_ready, is_push_ready, is_closing_empty, is_closing, total-eq-zero, tally-split,
  wake_pop-tally, wake_push-tally,
}
use snippets_cc.BlockingQueue.Attempts.{
  push_attempt-wait, push_attempt-true, push_attempt-false, pop_attempt-wait, pop_attempt-some,
  pop_attempt-none,
}

module _ {ℓ} {A : Type ℓ} where
  -- While the queue is open, a blocked pop means that the pops on their way can take all elements,
  -- and a blocked push that the pushes on their way can fill the room. When it is closed, a blocked
  -- thread means that a thread in `close` has still to wake it.
  pub record Inv (q : Queue A) (ts : List (Thread A)) : Type ℓ where
    pub pops :
        (q.closed ≡ true) ⊎ (total is_pop_blocked ts ≡ 0) ⊎ (length q.queue ≤ total is_pop_ready ts)
    pub pushes :
        (q.closed ≡ true)
        ⊎ (total is_push_blocked ts ≡ 0)
        ⊎ (q.capacity ≤ length q.queue + total is_push_ready ts)
    pub shut_pops :
        (q.closed ≡ false) ⊎ (total is_pop_blocked ts ≡ 0) ⊎ (0 < total is_closing_empty ts)
    pub shut_pushes :
        (q.closed ≡ false) ⊎ (total is_push_blocked ts ≡ 0) ⊎ (0 < total is_closing ts)
    pub bounded : length q.queue ≤ q.capacity

  NotifyPop-tally :
      {ts ts' : List (Thread A)}
      → NotifyPop ts ts'
      → (((total is_pop_blocked ts ≡ 0)
            × (total is_pop_blocked ts' ≡ 0)
            × (total is_pop_ready ts' ≡ total is_pop_ready ts))
          ⊎ ((total is_pop_blocked ts' + 1 ≡ total is_pop_blocked ts)
              × (total is_pop_ready ts' ≡ total is_pop_ready ts + 1)))
        × (total is_push_blocked ts' ≡ total is_push_blocked ts)
        × (total is_push_ready ts' ≡ total is_push_ready ts)
        × (total is_closing_empty ts' ≡ total is_closing_empty ts)
        × (total is_closing ts' ≡ total is_closing ts)
  NotifyPop-tally (nobody ts e) = (inl (e, e, refl), refl, refl, refl, refl)
  NotifyPop-tally (somebody xs ys d) =
      ground (arith, tally-split xs (pop_blocked d) ys, tally-split xs (pop_ready d) ys)

  NotifyPush-tally :
      {ts ts' : List (Thread A)}
      → NotifyPush ts ts'
      → (((total is_push_blocked ts ≡ 0)
            × (total is_push_blocked ts' ≡ 0)
            × (total is_push_ready ts' ≡ total is_push_ready ts))
          ⊎ ((total is_push_blocked ts' + 1 ≡ total is_push_blocked ts)
              × (total is_push_ready ts' ≡ total is_push_ready ts + 1)))
        × (total is_pop_blocked ts' ≡ total is_pop_blocked ts)
        × (total is_pop_ready ts' ≡ total is_pop_ready ts)
        × (total is_closing_empty ts' ≡ total is_closing_empty ts)
        × (total is_closing ts' ≡ total is_closing ts)
  NotifyPush-tally (nobody ts e) = (inl (e, e, refl), refl, refl, refl, refl)
  NotifyPush-tally (somebody xs ys elem d) =
      ground (arith, tally-split xs (push_blocked elem d) ys, tally-split xs (push_ready elem d) ys)

  module _ (q : Queue A) (xs ys : List (Thread A)) where
    Inv-begin : {t : Thread A} → Begins t → Inv q (xs ++ outside ∷ ys) → Inv q (xs ++ t ∷ ys)
    Inv-begin (push_call elem) v =
        ground (arith, tally-split xs outside ys, tally-split xs (push_ready elem never) ys)
    Inv-begin (try_push_call elem) v =
        ground (arith, tally-split xs outside ys, tally-split xs (push_ready elem pending) ys)
    Inv-begin pop_call v =
        ground (arith, tally-split xs outside ys, tally-split xs (pop_ready never) ys)
    Inv-begin try_pop_call v =
        ground (arith, tally-split xs outside ys, tally-split xs (pop_ready pending) ys)

    Inv-wake : {t t' : Thread A} → Wakes t t' → Inv q (xs ++ t ∷ ys) → Inv q (xs ++ t' ∷ ys)
    Inv-wake (push_spurious elem d) v =
        ground
          (arith, tally-split xs (push_blocked elem d) ys, tally-split xs (push_ready elem d) ys)
    Inv-wake (pop_spurious d) v =
        ground (arith, tally-split xs (pop_blocked d) ys, tally-split xs (pop_ready d) ys)
    Inv-wake (push_timeout elem) v = ground (
      arith,
      tally-split xs (push_blocked elem pending) ys,
      tally-split xs (push_ready elem expired) ys,
    )
    Inv-wake pop_timeout v =
        ground
          (arith, tally-split xs (pop_blocked pending) ys, tally-split xs (pop_ready expired) ys)

    Inv-push_wait :
        (elem : A) (d : Deadline)
        → push_attempt d q elem ≡ wait
        → Inv q (xs ++ push_ready elem d ∷ ys)
        → Inv q (xs ++ push_blocked elem d ∷ ys)
    Inv-push_wait elem d e v = ground (
      arith,
      push_attempt-wait q d elem e,
      tally-split xs (push_ready elem d) ys,
      tally-split xs (push_blocked elem d) ys,
    )

    Inv-pop_wait :
        (d : Deadline)
        → pop_attempt d q ≡ some wait
        → Inv q (xs ++ pop_ready d ∷ ys)
        → Inv q (xs ++ pop_blocked d ∷ ys)
    Inv-pop_wait d e v = ground (
      arith,
      (pop_attempt-wait q d e).0,
      ap length (pop_attempt-wait q d e).1,
      tally-split xs (pop_ready d) ys,
      tally-split xs (pop_blocked d) ys,
    )

    Inv-accept :
        (elem : A) (d : Deadline) {ts : List (Thread A)}
        → (q.closed ≡ false) × (length q.queue < q.capacity)
        → NotifyPop (xs ++ outside ∷ ys) ts
        → Inv q (xs ++ push_ready elem d ∷ ys)
        → Inv (record q { queue = q.queue ++ elem ∷ [] }) ts
    Inv-accept elem d h n v = ground (
      arith,
      NotifyPop-tally n,
      length-append q.queue (elem ∷ []),
      tally-split xs outside ys,
      tally-split xs (push_ready elem d) ys,
    )

    Inv-deliver :
        (elem : A) (rest : List A) (d : Deadline) {ts : List (Thread A)}
        → q.queue ≡ elem ∷ rest
        → NotifyPush (xs ++ outside ∷ ys) ts
        → Inv q (xs ++ pop_ready d ∷ ys)
        → Inv (record q { queue = rest }) ts
    Inv-deliver elem rest d e n v = ground (
      arith,
      NotifyPush-tally n,
      ap length e,
      tally-split xs outside ys,
      tally-split xs (pop_ready d) ys,
    )

    Inv-refuse :
        (elem : A) (d : Deadline)
        → (q.closed ≡ true) ⊎ (q.capacity ≤ length q.queue)
        → Inv q (xs ++ push_ready elem d ∷ ys)
        → Inv q (xs ++ outside ∷ ys)
    Inv-refuse elem d h v =
        ground (arith, tally-split xs outside ys, tally-split xs (push_ready elem d) ys)

    Inv-nothing :
        (d : Deadline) → q.queue ≡ [] → Inv q (xs ++ pop_ready d ∷ ys) → Inv q (xs ++ outside ∷ ys)
    Inv-nothing d e v =
        ground (arith, ap length e, tally-split xs outside ys, tally-split xs (pop_ready d) ys)

    Inv-close : Inv q (xs ++ outside ∷ ys) → Inv (close q) (xs ++ closing_empty ∷ ys)
    unfolding close
    Inv-close v = ground (arith, tally-split xs outside ys, tally-split xs closing_empty ys)

    Inv-notify_empty :
        Inv q (xs ++ closing_empty ∷ ys) → Inv q (map wake_pop (xs ++ closing_full ∷ ys))
    Inv-notify_empty v = ground (
      arith,
      tally-split xs closing_empty ys,
      tally-split xs closing_full ys,
      wake_pop-tally (xs ++ closing_full ∷ ys),
    )

    Inv-notify_full : Inv q (xs ++ closing_full ∷ ys) → Inv q (map wake_push (xs ++ outside ∷ ys))
    Inv-notify_full v = ground (
      arith,
      tally-split xs closing_full ys,
      tally-split xs outside ys,
      wake_push-tally (xs ++ outside ∷ ys),
    )

  -- Every step of every thread keeps the invariant.
  pub Step-Inv : {s t : System A} → Step s t → Inv s.shared s.threads → Inv t.shared t.threads
  Step-Inv {s} (begin xs ys t e b) v = Inv-begin s.shared xs ys b (rw e at v)
  Step-Inv {s} (wake xs ys t t' e w) v = Inv-wake s.shared xs ys w (rw e at v)
  Step-Inv {s} (push_wait xs ys elem d e a) v = Inv-push_wait s.shared xs ys elem d a (rw e at v)
  Step-Inv {s} (push_accept xs ys ts elem d q notify e a n) v =
      let (open_, room, on, left) = push_attempt-true s.shared d elem q notify a in
      rw left (
        Inv-accept s.shared xs ys elem d (open_, room)
          (subst (λ b. NotifiedPop b (xs ++ outside ∷ ys) ts) on n) (rw e at v))
  Step-Inv {s} (push_refuse xs ys ts elem d q notify e a n) v =
      let (left, why, off) = push_attempt-false s.shared d elem q notify a in
      rw (left, subst (λ b. NotifiedPop b (xs ++ outside ∷ ys) ts) off n)
        (Inv-refuse s.shared xs ys elem d why (rw e at v))
  Step-Inv {s} (pop_wait xs ys d e a) v = Inv-pop_wait s.shared xs ys d a (rw e at v)
  Step-Inv {s} (pop_deliver xs ys ts elem d q notify e a n) v =
      let (rest, items, left, on) = pop_attempt-some s.shared d elem q notify a in
      rw left (
        Inv-deliver s.shared xs ys elem rest d items
          (subst (λ b. NotifiedPush b (xs ++ outside ∷ ys) ts) on n) (rw e at v))
  Step-Inv {s} (pop_nothing xs ys ts d q notify e a n) v =
      let (left, items, off) = pop_attempt-none s.shared d q notify a in
      rw (left, subst (λ b. NotifiedPush b (xs ++ outside ∷ ys) ts) off n)
        (Inv-nothing s.shared xs ys d items (rw e at v))
  Step-Inv {s} (close_section xs ys e) v = Inv-close s.shared xs ys (rw e at v)
  Step-Inv {s} (close_notify_empty xs ys e) v = Inv-notify_empty s.shared xs ys (rw e at v)
  Step-Inv {s} (close_notify_full xs ys e) v = Inv-notify_full s.shared xs ys (rw e at v)

  pub Reach-Inv : {capacity n : ℕ} {s : System A} → Reach capacity n s → Inv s.shared s.threads
  unfolding start make
  Reach-Inv {capacity} {n} here =
      let p = total-eq-zero {A = A} is_pop_blocked refl n in
      let q = total-eq-zero {A = A} is_push_blocked refl n in
      record {
        pops = inr (inl p);
        pushes = inr (inl q);
        shut_pops = inl refl;
        shut_pushes = inl refl;
        bounded = omega arith;
      }
  Reach-Inv (then_step r st) = Step-Inv st (Reach-Inv r)
