-- ===== src/SpscRingBuffer/Threads.antt =====
-- spsc_ring_buffer under one producer thread and one consumer thread. Every access to `head_`,
-- `tail_` and `buffer_` is a step, and the two threads' steps interleave in any order. The order of
-- the accesses to a cell and to the index that publishes it is that of the program text, which the
-- release store and the acquire load of `head_` (and of `tail_`) keep; each thread reads its own
-- index, which no other thread writes, so the relaxed loads see the last store.
use snippets_cc.Prelude.{ℕ, ◌≡◌, ◌≢◌, some, List, [], ◌∷◌, ◌++◌, get_elem?}
use snippets_cc.SpscRingBuffer.{Ring, next, write, make}

-- Where the producer stands in `push (item)`, with its local `curr_head`.
pub data Producer {ℓ} (A : Type ℓ) : Type ℓ where
  idle : Producer A
  loaded : (item : A) (curr_head : ℕ) → Producer A
  writing : (item : A) (curr_head : ℕ) → Producer A
  publishing : (item : A) (curr_head : ℕ) → Producer A

-- Where the consumer stands in `pop (elem)`, with its local `curr_tail`, and then `elem`.
pub data Consumer {ℓ} (A : Type ℓ) : Type ℓ where
  idle : Consumer A
  loaded : (curr_tail : ℕ) → Consumer A
  reading : (curr_tail : ℕ) → Consumer A
  publishing : (elem : A) (curr_tail : ℕ) → Consumer A

-- `accepted` holds the items of the pushes that returned true, and `delivered` those that a `pop`
-- that returned true gave to its caller, both in order.
pub record System {ℓ} (A : Type ℓ) : Type ℓ where
  pub ring : Ring A
  pub producer : Producer A
  pub consumer : Consumer A
  pub accepted : List A
  pub delivered : List A

unfoldable pub start {ℓ} : {A : Type ℓ} → ℕ → A → System A
start capacity blank = record {
  ring = make capacity blank;
  producer = Producer.idle;
  consumer = Consumer.idle;
  accepted = [];
  delivered = [];
}

pub data Step {ℓ} {A : Type ℓ} (s : System A) : System A → Type ℓ where
  -- push: `curr_head = head_.load ()`
  push_begin :
      (item : A)
      → s.producer ≡ Producer.idle
      → Step s (record s { producer = Producer.loaded item s.ring.head })
  -- push: `next_head == tail_.load ()`, and `return false`
  push_full :
      (item : A) (h : ℕ)
      → s.producer ≡ Producer.loaded item h
      → next s.ring.capacity h ≡ s.ring.tail
      → Step s (record s { producer = Producer.idle })
  push_room :
      (item : A) (h : ℕ)
      → s.producer ≡ Producer.loaded item h
      → next s.ring.capacity h ≢ s.ring.tail
      → Step s (record s { producer = Producer.writing item h })
  -- push: `buffer_[curr_head] = item`
  push_write :
      (item : A) (h : ℕ) (buffer : List A)
      → s.producer ≡ Producer.writing item h
      → write s.ring.buffer h item ≡ some buffer
      → Step s (record s {
        ring = record (s.ring) { buffer = buffer };
        producer = Producer.publishing item h;
      })
  -- push: `head_.store (next_head)`, and `return true`
  push_publish :
      (item : A) (h : ℕ)
      → s.producer ≡ Producer.publishing item h
      → Step s (record s {
        ring = record (s.ring) { head = next s.ring.capacity h };
        producer = Producer.idle;
        accepted = s.accepted ++ item ∷ [];
      })
  -- pop: `curr_tail = tail_.load ()`
  pop_begin :
      s.consumer ≡ Consumer.idle → Step s (record s { consumer = Consumer.loaded s.ring.tail })
  -- pop: `curr_tail == head_.load ()`, and `return false`
  pop_empty :
      (t : ℕ)
      → s.consumer ≡ Consumer.loaded t
      → t ≡ s.ring.head
      → Step s (record s { consumer = Consumer.idle })
  pop_some :
      (t : ℕ)
      → s.consumer ≡ Consumer.loaded t
      → t ≢ s.ring.head
      → Step s (record s { consumer = Consumer.reading t })
  -- pop: `elem = buffer_[curr_tail]`
  pop_read :
      (t : ℕ) (elem : A)
      → s.consumer ≡ Consumer.reading t
      → get_elem? s.ring.buffer t ≡ some elem
      → Step s (record s { consumer = Consumer.publishing elem t })
  -- pop: `tail_.store (...)`, and `return true`
  pop_publish :
      (elem : A) (t : ℕ)
      → s.consumer ≡ Consumer.publishing elem t
      → Step s (record s {
        ring = record (s.ring) { tail = next s.ring.capacity t };
        consumer = Consumer.idle;
        delivered = s.delivered ++ elem ∷ [];
      })

pub data Reach {ℓ} {A : Type ℓ} (capacity : ℕ) (blank : A) : System A → Type ℓ where
  begin : Reach capacity blank (start capacity blank)
  then_step : {s t : System A} → Reach capacity blank s → Step s t → Reach capacity blank t
