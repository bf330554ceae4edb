-- ===== src/SpscRingBuffer/Fifo.antt =====
-- null/spsc_ring_buffer.h: the cells, the items accepted and the items delivered, kept step by step.
use mathlib.Core.Option.{some-injective}
use snippets_cc.Prelude.{
  suc, ◌≢◌, sym, ap, ◌∙◌, append_assoc, length-append, set, get_elem?-set_self, arith, ℕ, ◌<◌, ◌≡◌,
  refl, some, List, [], ◌∷◌, ◌++◌, length, get_elem?,
}
use snippets_cc.SpscRingBuffer.{Ring, next, write}
use snippets_cc.SpscRingBuffer.Index.{Fits}
use snippets_cc.SpscRingBuffer.Represents.{
  Represents, make-Represents, head-inside, write-Represents, publish-Represents, get_elem?-tail,
  take-Represents,
}
use snippets_cc.SpscRingBuffer.Represents.{room, oldest}
use snippets_cc.SpscRingBuffer.Threads.{Reach, begin, then_step, start}
use snippets_cc.SpscRingBuffer.Threads.{
  Producer, Consumer, System, Step, push_begin, push_full, push_room, push_write, push_publish,
  pop_begin, pop_empty, pop_some, pop_read, pop_publish,
}

module _ {ℓ} {A : Type ℓ} where
  -- What the producer's locals say, with the items `q` in the ring.
  abbrev pub ProducerKnows : Ring A → List A → Producer A → Type ℓ
  ProducerKnows r q Producer.idle = Unit
  ProducerKnows r q (Producer.loaded item h) = (h ≡ r.head) × Unit {ℓ}
  ProducerKnows r q (Producer.writing item h) = (h ≡ r.head) × (length q < r.capacity) × Unit {ℓ}
  ProducerKnows r q (Producer.publishing item h) =
      (h ≡ r.head) × (length q < r.capacity) × (get_elem? r.buffer r.head ≡ some item)

  -- What the consumer's say.
  abbrev pub ConsumerKnows : ℕ → List A → Consumer A → Type ℓ
  ConsumerKnows tail q Consumer.idle = Unit
  ConsumerKnows tail q (Consumer.loaded t) = (t ≡ tail) × Unit {ℓ}
  ConsumerKnows tail q (Consumer.reading t) =
      (t ≡ tail) × (x : A) × (rest : List A) × (q ≡ x ∷ rest)
  ConsumerKnows tail q (Consumer.publishing elem t) =
      (t ≡ tail) × (rest : List A) × (q ≡ elem ∷ rest)

  ConsumerKnows-snoc :
      (tail : ℕ) (q : List A) (y : A) (c : Consumer A)
      → ConsumerKnows tail q c
      → ConsumerKnows tail (q ++ y ∷ []) c
  ConsumerKnows-snoc tail q y Consumer.idle h = tt
  ConsumerKnows-snoc tail q y (Consumer.loaded t) h = h
  ConsumerKnows-snoc tail q y (Consumer.reading t) h =
      let (e, x, rest, p) = h in (e, x, rest ++ y ∷ [], ap (λ l. l ++ y ∷ []) p)
  ConsumerKnows-snoc tail q y (Consumer.publishing x t) h =
      let (e, rest, p) = h in (e, rest ++ y ∷ [], ap (λ l. l ++ y ∷ []) p)

  ProducerKnows-take :
      (r : Ring A) (tail : ℕ) (x : A) (q : List A) (p : Producer A)
      → ProducerKnows r (x ∷ q) p
      → ProducerKnows (record r { tail = tail }) q p
  ProducerKnows-take r tail x q Producer.idle h = tt
  ProducerKnows-take r tail x q (Producer.loaded y i) h = h
  ProducerKnows-take r tail x q (Producer.writing y i) h = (h.0, omega (arith, h.1), tt)
  ProducerKnows-take r tail x q (Producer.publishing y i) h = (h.0, omega (arith, h.1), h.2)

  pub record Inv (s : System A) (q : List A) : Type ℓ where
    pub represents : Represents s.ring (length s.delivered) q
    pub history : s.accepted ≡ s.delivered ++ q
    pub producer : ProducerKnows s.ring q s.producer
    pub consumer : ConsumerKnows s.ring.tail q s.consumer

  write-eq-set :
      (buffer buffer' : List A) (i : ℕ) (x : A)
      → write buffer i x ≡ some buffer'
      → set buffer i x ≡ buffer'
  unfolding write
  write-eq-set buffer buffer' i x e = ground arith

  module _ (s : System A) (q : List A) (v : Inv s q) where
    open v use {represents}

    Inv-write :
        (item : A) (h : ℕ) (buffer : List A)
        → s.producer ≡ Producer.writing item h
        → write s.ring.buffer h item ≡ some buffer
        → Inv
            (record s {
              ring = record (s.ring) { buffer = buffer };
              producer = Producer.publishing item h;
            })
            q
    Inv-write item h buffer e w =
        let (at, lt, _) : ProducerKnows s.ring q (Producer.writing item h) = rw e at v.producer in
        let b : set s.ring.buffer s.ring.head item ≡ buffer =
          ap (λ i. set s.ring.buffer i item) (sym at)
          ∙ write-eq-set s.ring.buffer buffer h item w in
        record {
          represents = rw (← b) (write-Represents s.ring (length s.delivered) q represents item lt);
          history = v.history;
          producer = (
            at,
            lt,
            rw (← b) (
                get_elem?-set_self s.ring.buffer s.ring.head item
                  (head-inside s.ring (length s.delivered) q represents)),
          );
          consumer = v.consumer;
        }

    Inv-publish :
        (item : A) (h : ℕ)
        → s.producer ≡ Producer.publishing item h
        → Inv
            (record s {
              ring = record (s.ring) { head = next s.ring.capacity h };
              producer = Producer.idle;
              accepted = s.accepted ++ item ∷ [];
            })
            (q ++ item ∷ [])
    Inv-publish item h e =
        let (at, lt, here) : ProducerKnows s.ring q (Producer.publishing item h) =
          rw e at v.producer in
        record {
          represents =
              rw at (publish-Represents s.ring (length s.delivered) q represents item lt here);
          history = ap (λ l. l ++ item ∷ []) v.history ∙ append_assoc s.delivered q (item ∷ []);
          producer = tt;
          consumer = ConsumerKnows-snoc s.ring.tail q item s.consumer v.consumer;
        }

    Inv-take :
        (elem : A) (t : ℕ)
        → s.consumer ≡ Consumer.publishing elem t
        → (rest : List A) × Inv
            (record s {
              ring = record (s.ring) { tail = next s.ring.capacity t };
              consumer = Consumer.idle;
              delivered = s.delivered ++ elem ∷ [];
            })
            rest
    Inv-take elem t e =
        let (at, rest, p) : ConsumerKnows s.ring.tail q (Consumer.publishing elem t) =
          rw e at v.consumer in
        let before = rw p at represents in
        let after = take-Represents s.ring (length s.delivered) elem rest before in
        let count : length (s.delivered ++ elem ∷ []) ≡ suc (length s.delivered) =
          omega (arith, length-append s.delivered (elem ∷ [])) in
        (
          rest,
          record {
            represents = rw (at, count) after;
            history =
                v.history
                ∙ ap (λ l. s.delivered ++ l) p
                ∙ sym (append_assoc s.delivered (elem ∷ []) rest);
            producer =
                ProducerKnows-take s.ring (next s.ring.capacity t) elem rest s.producer
                  (rw p at v.producer);
            consumer = tt;
          },
        )

    read-oldest :
        (t : ℕ) (elem : A)
        → s.consumer ≡ Consumer.reading t
        → get_elem? s.ring.buffer t ≡ some elem
        → ConsumerKnows s.ring.tail q (Consumer.publishing elem t)
    read-oldest t elem e g =
        let (at, x, rest, p) : ConsumerKnows s.ring.tail q (Consumer.reading t) =
          rw e at v.consumer in
        let here = get_elem?-tail s.ring (length s.delivered) x rest (rw p at represents) in
        let same : x ≡ elem =
          some-injective x elem (sym here ∙ ap (get_elem? s.ring.buffer) (sym at) ∙ g) in
        (at, rest, p ∙ ap (λ y. y ∷ rest) same)

  Step-Inv : {s t : System A} {q : List A} → Step s t → Inv s q → (q' : List A) × Inv t q'
  Step-Inv {s} {q = q} (push_begin item e) v = (
    q,
    record {
      represents = v.represents;
      history = v.history;
      producer = (refl, tt);
      consumer = v.consumer;
    },
  )
  Step-Inv {s} {q = q} (push_full item h e f) v = (
    q,
    record { represents = v.represents; history = v.history; producer = tt; consumer = v.consumer },
  )
  Step-Inv {s} {q = q} (push_room item h e f) v =
      let (at, _) : ProducerKnows s.ring q (Producer.loaded item h) = rw e at v.producer in
      let ne : next s.ring.capacity s.ring.head ≢ s.ring.tail = rw at at f in
      (
        q,
        record {
          represents = v.represents;
          history = v.history;
          producer = (at, room s.ring (length s.delivered) q v.represents ne, tt);
          consumer = v.consumer;
        },
      )
  Step-Inv {s} {q = q} (push_write item h buffer e w) v = (q, Inv-write s q v item h buffer e w)
  Step-Inv {s} {q = q} (push_publish item h e) v = (q ++ item ∷ [], Inv-publish s q v item h e)
  Step-Inv {s} {q = q} (pop_begin e) v = (
    q,
    record {
      represents = v.represents;
      history = v.history;
      producer = v.producer;
      consumer = (refl, tt);
    },
  )
  Step-Inv {s} {q = q} (pop_empty t e f) v = (
    q,
    record { represents = v.represents; history = v.history; producer = v.producer; consumer = tt },
  )
  Step-Inv {s} {q = q} (pop_some t e f) v =
      let (at, _) : ConsumerKnows s.ring.tail q (Consumer.loaded t) = rw e at v.consumer in
      let ne : s.ring.tail ≢ s.ring.head = rw at at f in
      let (x, rest, p) = oldest s.ring (length s.delivered) q v.represents ne in
      (
        q,
        record {
          represents = v.represents;
          history = v.history;
          producer = v.producer;
          consumer = (at, x, rest, p);
        },
      )
  Step-Inv {s} {q = q} (pop_read t elem e g) v = (
    q,
    record {
      represents = v.represents;
      history = v.history;
      producer = v.producer;
      consumer = read-oldest s q v t elem e g;
    },
  )
  Step-Inv {s} {q = q} (pop_publish elem t e) v = Inv-take s q v elem t e

  pub Reach-Inv :
      {capacity : ℕ} {blank : A} {s : System A}
      → Fits capacity
      → Reach capacity blank s
      → (q : List A) × Inv s q
  unfolding start
  Reach-Inv {capacity} {blank} fits begin = (
    [],
    record {
      represents = make-Represents capacity blank fits;
      history = refl;
      producer = tt;
      consumer = tt;
    },
  )
  Reach-Inv fits (then_step r st) = let (q, v) = Reach-Inv fits r in Step-Inv st v
