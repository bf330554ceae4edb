-- ===== src/BlockingQueue/Safety.antt =====
-- What the threads that call concurrent_blocking_queue can rely on.
use snippets_cc.Prelude.{
  ℕ, ◌≤◌, ◌<◌, ◌≡◌, refl, sym, ap, ◌∙◌, ◌⊎◌, true, false, [], ◌∷◌, ◌++◌, append_assoc, length,
  arith,
}
use snippets_cc.BlockingQueue.{make, close}
use snippets_cc.BlockingQueue.Threads.{
  is_pop_blocked, is_push_blocked, total, System, start, Step, begin, wake, push_wait, push_accept,
  push_refuse, pop_wait, pop_deliver, pop_nothing, close_section, close_notify_empty,
  close_notify_full, Reach, here, then_step,
}
use snippets_cc.BlockingQueue.Counts.{
  closing_empty-le-closing, is_pop_ready, is_push_ready, is_closing,
}
use snippets_cc.BlockingQueue.Attempts.{
  push_attempt-true, push_attempt-false, pop_attempt-some, pop_attempt-none,
}
use snippets_cc.BlockingQueue.Wakeups.{Reach-Inv}

module _ {ℓ} {A : Type ℓ} where
  abbrev History : System A → Type ℓ
  History s = s.accepted ≡ s.delivered ++ s.shared.queue

  Step-History : {s t : System A} → Step s t → History s → History t
  unfolding close
  Step-History {s} (begin xs ys t e b) v = v
  Step-History {s} (wake xs ys t t' e w) v = v
  Step-History {s} (push_wait xs ys elem d e a) v = v
  Step-History {s} (push_accept xs ys ts elem d q notify e a n) v =
      let (_, _, _, left) = push_attempt-true s.shared d elem q notify a in
      rw left (ap (λ l. l ++ elem ∷ []) v ∙ append_assoc s.delivered s.shared.queue (elem ∷ []))
  Step-History {s} (push_refuse xs ys ts elem d q notify e a n) v =
      rw (push_attempt-false s.shared d elem q notify a).0 v
  Step-History {s} (pop_wait xs ys d e a) v = v
  Step-History {s} (pop_deliver xs ys ts elem d q notify e a n) v =
      let (rest, items, left, _) = pop_attempt-some s.shared d elem q notify a in
      rw left
        (v ∙ ap (λ l. s.delivered ++ l) items ∙ sym (append_assoc s.delivered (elem ∷ []) rest))
  Step-History {s} (pop_nothing xs ys ts d q notify e a n) v =
      rw (pop_attempt-none s.shared d q notify a).0 v
  Step-History {s} (close_section xs ys e) v = v
  Step-History {s} (close_notify_empty xs ys e) v = v
  Step-History {s} (close_notify_full xs ys e) v = v

  Reach-History : {capacity n : ℕ} {s : System A} → Reach capacity n s → History s
  unfolding start make
  Reach-History here = refl
  Reach-History (then_step r st) = Step-History st (Reach-History r)

  Step-capacity : {s t : System A} → Step s t → t.shared.capacity ≡ s.shared.capacity
  unfolding close
  Step-capacity {s} (push_accept xs ys ts elem d q notify e a n) =
      let (_, _, _, left) = push_attempt-true s.shared d elem q notify a in
      ap (λ x. x.capacity) left
  Step-capacity {s} (push_refuse xs ys ts elem d q notify e a n) =
      ap (λ x. x.capacity) (push_attempt-false s.shared d elem q notify a).0
  Step-capacity {s} (pop_deliver xs ys ts elem d q notify e a n) =
      let (rest, items, left, _) = pop_attempt-some s.shared d elem q notify a in
      ap (λ x. x.capacity) left
  Step-capacity {s} (pop_nothing xs ys ts d q notify e a n) =
      ap (λ x. x.capacity) (pop_attempt-none s.shared d q notify a).0
  Step-capacity _ = refl

  Reach-capacity : {c n : ℕ} {s : System A} → Reach c n s → s.shared.capacity ≡ c
  unfolding start make
  Reach-capacity here = refl
  Reach-capacity (then_step r st) = Step-capacity st ∙ Reach-capacity r

  module _ {c n : ℕ} {s : System A} (r : Reach c n s) where
    -- Whatever the interleaving, the pops have returned the accepted elements in the order in which
    -- they were accepted, but for at most `capacity` that the queue still holds.
    pub delivered_in_order :
        (s.accepted ≡ s.delivered ++ s.shared.queue) × (length s.shared.queue ≤ c)
    delivered_in_order = (Reach-History r, omega (arith, Reach-Inv r, Reach-capacity r))

    -- No pop sleeps beside an element: if no thread is in `close` and no pop is on its way to its
    -- test, then a pop is blocked only while the queue is open and empty.
    pub pop_blocked-empty :
        total is_closing s.threads ≡ 0
        → total is_pop_ready s.threads ≡ 0
        → 0 < total is_pop_blocked s.threads
        → (s.shared.closed ≡ false) × (length s.shared.queue ≡ 0)
    pop_blocked-empty quiet none_ready some_blocked =
        let v = Reach-Inv r in
        ground (arith, v.pops, v.shut_pops, closing_empty-le-closing s.threads)

    -- No push sleeps beside free room: if no thread is in `close` and no push is on its way to its
    -- test, then a push is blocked only while the queue is open and full.
    pub push_blocked-full :
        total is_closing s.threads ≡ 0
        → total is_push_ready s.threads ≡ 0
        → 0 < total is_push_blocked s.threads
        → (s.shared.closed ≡ false) × (length s.shared.queue ≡ c)
    push_blocked-full quiet none_ready some_blocked =
        let v = Reach-Inv r in
        let e = Reach-capacity r in ground (arith, v.pushes, v.shut_pushes, v.bounded)

    -- With a positive capacity, pushes and pops are never blocked at once with no thread on its way
    -- to a test or in `close`.
    pub no_deadlock :
        0 < c
        → total is_closing s.threads ≡ 0
        → total is_pop_ready s.threads ≡ 0
        → total is_push_ready s.threads ≡ 0
        → (total is_pop_blocked s.threads ≡ 0) ⊎ (total is_push_blocked s.threads ≡ 0)
    no_deadlock pos quiet no_pop no_push =
        ground (arith, pop_blocked-empty quiet no_pop, push_blocked-full quiet no_push)

  -- A closed queue stays closed, and accepts nothing more.
  pub closed_accepts_nothing :
      {s t : System A}
      → Step s t
      → s.shared.closed ≡ true
      → (t.shared.closed ≡ true) × (t.accepted ≡ s.accepted)
  unfolding close
  closed_accepts_nothing {s} (push_accept xs ys ts elem d q notify e a n) h =
      absurd (ground (arith, (push_attempt-true s.shared d elem q notify a).0))
  closed_accepts_nothing {s} (push_refuse xs ys ts elem d q notify e a n) h =
      (ap (λ x. x.closed) (push_attempt-false s.shared d elem q notify a).0 ∙ h, refl)
  closed_accepts_nothing {s} (pop_deliver xs ys ts elem d q notify e a n) h =
      let (rest, items, left, _) = pop_attempt-some s.shared d elem q notify a in
      (ap (λ x. x.closed) left ∙ h, refl)
  closed_accepts_nothing {s} (pop_nothing xs ys ts d q notify e a n) h =
      (ap (λ x. x.closed) (pop_attempt-none s.shared d q notify a).0 ∙ h, refl)
  closed_accepts_nothing (close_section xs ys e) h = (refl, refl)
  closed_accepts_nothing _ h = (h, refl)
