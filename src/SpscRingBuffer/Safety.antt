-- ===== src/SpscRingBuffer/Safety.antt =====
-- What holds of spsc_ring_buffer in every state that a producer and a consumer can reach.
use snippets_cc.Prelude.{
  ℕ, ◌≤◌, ◌≡◌, ◌≢◌, refl, sym, ◌∙◌, ap, some, List, ◌∷◌, ◌++◌, lt→ltb, length, set, get_elem?,
  arith,
}
use snippets_cc.SpscRingBuffer.{write, make}
use snippets_cc.SpscRingBuffer.Index.{Fits}
use snippets_cc.SpscRingBuffer.Represents.{Represents, empty_of_eq, head-inside, get_elem?-tail}
use snippets_cc.SpscRingBuffer.Threads.{
  Producer, Consumer, System, start, Step, push_begin, push_full, push_room, push_write,
  push_publish, pop_begin, pop_empty, pop_some, pop_read, pop_publish, Reach, begin, then_step,
}
use snippets_cc.SpscRingBuffer.Fifo.{ProducerKnows, ConsumerKnows, Reach-Inv}

module _ {ℓ} {A : Type ℓ} where
  Step-capacity : {s t : System A} → Step s t → t.ring.capacity ≡ s.ring.capacity
  Step-capacity (push_begin item e) = refl
  Step-capacity (push_full item h e f) = refl
  Step-capacity (push_room item h e f) = refl
  Step-capacity (push_write item h buffer e w) = refl
  Step-capacity (push_publish item h e) = refl
  Step-capacity (pop_begin e) = refl
  Step-capacity (pop_empty t e f) = refl
  Step-capacity (pop_some t e f) = refl
  Step-capacity (pop_read t elem e g) = refl
  Step-capacity (pop_publish elem t e) = refl

  pub Reach-capacity : {c : ℕ} {blank : A} {s : System A} → Reach c blank s → s.ring.capacity ≡ c
  unfolding start make
  Reach-capacity begin = refl
  Reach-capacity (then_step r st) = Step-capacity st ∙ Reach-capacity r

  module _ {c : ℕ} {blank : A} {s : System A} (fits : Fits c) (r : Reach c blank s) where
    -- Whatever the interleaving, the consumer has received the accepted items in the order in which
    -- the producer gave them, none lost or doubled, but for at most `Capacity` that still wait.
    pub fifo : (q : List A) × (s.accepted ≡ s.delivered ++ q) × (length q ≤ c)
    fifo =
        let (q, v) = Reach-Inv fits r in
        (q, v.history, rw (← Reach-capacity r) v.represents.bounded)

    -- The two threads never access one cell at the same time, so the accesses to `buffer_`, which
    -- are not atomic, do not race.
    pub no_race :
        (item : A) (h t : ℕ)
        → s.producer ≡ Producer.writing item h
        → s.consumer ≡ Consumer.reading t
        → h ≢ t
    no_race item h t p e =
        let (q, v) = Reach-Inv fits r in
        let (at_head, lt, _) : ProducerKnows s.ring q (Producer.writing item h) =
          rw p at v.producer in
        let (at_tail, x, rest, items) : ConsumerKnows s.ring.tail q (Consumer.reading t) =
          rw e at v.consumer in
        λ same.
          let empty =
            empty_of_eq s.ring (length s.delivered) q v.represents
              (sym at_tail ∙ sym same ∙ at_head) in
          absurd (omega (arith, empty, ap length items))

    -- The producer's write stays within `buffer_`.
    pub write_inside :
        (item : A) (h : ℕ)
        → s.producer ≡ Producer.writing item h
        → (buffer : List A) × (write s.ring.buffer h item ≡ some buffer)
    unfolding write
    write_inside item h p =
        let (q, v) = Reach-Inv fits r in
        let (at, _, _) : ProducerKnows s.ring q (Producer.writing item h) = rw p at v.producer in
        let inside = head-inside s.ring (length s.delivered) q v.represents in
        (set s.ring.buffer h item, rw (at, lt→ltb inside))

    -- The consumer's read stays within `buffer_`, and finds the oldest accepted item that it has not
    -- yet delivered.
    pub read_oldest :
        (t : ℕ)
        → s.consumer ≡ Consumer.reading t
        → (elem : A) × (rest : List A) × (get_elem? s.ring.buffer t ≡ some elem)
          × (s.accepted ≡ s.delivered ++ elem ∷ rest)
    read_oldest t e =
        let (q, v) = Reach-Inv fits r in
        let (at, x, rest, p) : ConsumerKnows s.ring.tail q (Consumer.reading t) =
          rw e at v.consumer in
        let before : Represents s.ring (length s.delivered) (x ∷ rest) = rw p at v.represents in
        (
          x,
          rest,
          ap (get_elem? s.ring.buffer) at
              ∙ get_elem?-tail s.ring (length s.delivered) x rest before,
          v.history ∙ ap (λ l. s.delivered ++ l) p,
        )
