-- ===== src/SpscRingBuffer/Observers.antt =====
-- null/spsc_ring_buffer.h: size, is_full and is_empty, called while the other thread runs. Each loads `head_` and
-- `tail_` one after the other, and the steps of the other thread may come between.
use snippets_cc.Prelude.{
  ℕ, ◌+◌, ◌%◌, ◌≤◌, ◌≡◌, refl, sym, ap, ◌∙◌, true, false, ◌==◌, [], ◌∷◌, length, length-append,
  ==_iff, ==-congr, ◌≢◌, arith,
}
use snippets_cc.SpscRingBuffer.{Ring, cells, size, is_full, is_empty, next}
use snippets_cc.SpscRingBuffer.Index.{Fits}
use snippets_cc.SpscRingBuffer.Refine.{size-length-is_full}
use snippets_cc.SpscRingBuffer.Threads.{
  Producer, System, Step, Reach, then_step, push_begin, push_full, push_room, push_write,
  push_publish, pop_begin, pop_empty, pop_some, pop_read, pop_publish,
}
use snippets_cc.SpscRingBuffer.Fifo.{Reach-Inv, ProducerKnows}
use snippets_cc.SpscRingBuffer.Safety.{Reach-capacity, fifo}

-- The steps of both threads from one state to a later one.
pub data Later {ℓ} {A : Type ℓ} (s : System A) : System A → Type ℓ where
  now : Later s s
  after : {t u : System A} → Later s t → Step t u → Later s u

-- What a call sees that loads `head_` in `s` and `tail_` in `t`.
unfoldable pub loaded {ℓ} : {A : Type ℓ} → System A → System A → Ring A
loaded s t = record (t.ring) { head = s.ring.head }

module _ {ℓ} {A : Type ℓ} where
  pub Later-Reach :
      {c : ℕ} {blank : A} {s t : System A} → Reach c blank s → Later s t → Reach c blank t
  Later-Reach r now = r
  Later-Reach r (after l st) = then_step (Later-Reach r l) st

  Step-delivered : {s t : System A} → Step s t → length s.delivered ≤ length t.delivered
  Step-delivered (push_begin item e) = omega arith
  Step-delivered (push_full item h e f) = omega arith
  Step-delivered (push_room item h e f) = omega arith
  Step-delivered (push_write item h buffer e w) = omega arith
  Step-delivered (push_publish item h e) = omega arith
  Step-delivered (pop_begin e) = omega arith
  Step-delivered (pop_empty t e f) = omega arith
  Step-delivered (pop_some t e f) = omega arith
  Step-delivered (pop_read t elem e g) = omega arith
  Step-delivered {s} (pop_publish elem t e) = omega (arith, length-append s.delivered (elem ∷ []))

  Later-delivered : {s t : System A} → Later s t → length s.delivered ≤ length t.delivered
  Later-delivered now = omega arith
  Later-delivered (after l st) = omega (arith, Later-delivered l, Step-delivered st)

  -- `size`, `is_empty` and `is_full` of a ring tell how many accepted items have not been delivered.
  abbrev pub Sees : Ring A → (delivered accepted capacity : ℕ) → Type 0
  Sees r delivered accepted capacity =
      (size r + delivered ≡ accepted)
      × (is_empty r ≡ (delivered == accepted))
      × (is_full r ≡ (delivered + capacity == accepted))

  module _ {c : ℕ} {blank : A} {s : System A} (fits : Fits c) (r : Reach c blank s) where
    head-accepted : s.ring.head ≡ length s.accepted % cells c
    head-accepted =
        let (q, v) = Reach-Inv fits r in
        let n : length s.accepted ≡ length s.delivered + length q =
          ap length v.history ∙ length-append s.delivered q in
        v.represents.at_head ∙ rw (Reach-capacity r, n) refl

    tail-delivered : s.ring.tail ≡ length s.delivered % cells c
    tail-delivered =
        let (q, v) = Reach-Inv fits r in v.represents.at_tail ∙ rw (Reach-capacity r) refl

    -- The three calls, with no step between their loads.
    Sees-at_once : Sees s.ring (length s.delivered) (length s.accepted) c
    Sees-at_once =
        let (q, v) = Reach-Inv fits r in
        let n : length s.accepted ≡ length s.delivered + length q =
          ap length v.history ∙ length-append s.delivered q in
        let k : s.ring.capacity ≡ c = Reach-capacity r in
        let (a, b, f) = size-length-is_full s.ring (length s.delivered) q v.represents in
        (
          omega (arith, a, n),
          b ∙ ==-congr (λ e. omega (arith, n, e), λ e. omega (arith, n, e)),
          f ∙ ==-congr (λ e. omega (arith, n, k, e), λ e. omega (arith, n, k, e)),
        )

  -- What a call sees depends on the capacity and the two indices.
  same-Sees :
      (x y : Ring A) (delivered accepted c : ℕ)
      → x.capacity ≡ y.capacity
      → x.head ≡ y.head
      → x.tail ≡ y.tail
      → Sees x delivered accepted c
      → Sees y delivered accepted c
  unfolding size is_empty is_full
  same-Sees x y delivered accepted c k h t v = rw⁻¹ (k, h, t) v

  module _ {c : ℕ} {blank : A} {s t : System A} (fits : Fits c) (r : Reach c blank s)
      (l : Later s t) where
    same_capacity : s.ring.capacity ≡ t.ring.capacity
    same_capacity = Reach-capacity r ∙ sym (Reach-capacity (Later-Reach r l))

    -- Called by the producer, which publishes no item meanwhile, size, is_empty and is_full tell how many items wait
    -- at the load of `tail_`, whatever the consumer does between the loads.
    pub producer-Sees :
        s.accepted ≡ t.accepted → Sees (loaded s t) (length t.delivered) (length t.accepted) c
    unfolding loaded
    producer-Sees e =
        let r' = Later-Reach r l in
        let heads =
          head-accepted fits r ∙ ap (λ xs. length xs % cells c) e ∙ sym (head-accepted fits r') in
        same-Sees t.ring (loaded s t) _ _ c refl (sym heads) refl (Sees-at_once fits r')

    -- Called by the consumer, which takes no item meanwhile, they tell how many waited at the load of `head_`.
    pub consumer-Sees :
        s.delivered ≡ t.delivered → Sees (loaded s t) (length s.delivered) (length s.accepted) c
    unfolding loaded
    consumer-Sees e =
        let r' = Later-Reach r l in
        let tails =
          tail-delivered fits r ∙ ap (λ xs. length xs % cells c) e ∙ sym (tail-delivered fits r') in
        same-Sees s.ring (loaded s t) _ _ c same_capacity refl tails (Sees-at_once fits r)

  module _ {c : ℕ} {blank : A} {s t u : System A} (fits : Fits c) (r : Reach c blank s)
      (l : Later s t) (m : Later t u) where
    -- When is_full, called by the producer, has returned false, the next push does not find the ring full, whatever the
    -- consumer does before it and during it.
    pub push_finds_room :
        (item : A) (h : ℕ)
        → is_full (loaded s t) ≡ false
        → s.accepted ≡ t.accepted
        → t.accepted ≡ u.accepted
        → u.producer ≡ Producer.loaded item h
        → next u.ring.capacity h ≢ u.ring.tail
    unfolding is_full
    push_finds_room item h room e e' p full =
        let at_t = Later-Reach r l in
        let at_u = Later-Reach at_t m in
        let (q, v) = Reach-Inv fits at_u in
        let (at_head, _) : ProducerKnows u.ring q (Producer.loaded item h) = rw p at v.producer in
        let (q', history, bounded) = fifo fits at_t in
        let n : length t.accepted ≡ length t.delivered + length q' =
          ap length history ∙ length-append t.delivered q' in
        let same : length t.accepted ≡ length u.accepted = ap length e' in
        let is_full_u : is_full u.ring ≡ true =
          (==_iff _ _).1 (ap (next u.ring.capacity) (sym at_head) ∙ full) in
        let at_limit : length u.delivered + c ≡ length u.accepted =
          (==_iff _ _).0 (sym (Sees-at_once fits at_u).2 ∙ is_full_u) in
        let below : (length t.delivered + c == length t.accepted) ≡ false =
          sym (producer-Sees fits r l e).2 ∙ room in
        absurd (ground (arith, n, same, at_limit, below, bounded, Later-delivered m))
