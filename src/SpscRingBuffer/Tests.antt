-- ===== src/SpscRingBuffer/Tests.antt =====
-- Runs of spsc_ring_buffer, and the theorems at concrete states.
use snippets_cc.Prelude.{
  Bool, Option, ℕ, ◌≤◌, ◌≡◌, ◌≢◌, refl, true, false, some, List, [], ◌∷◌, ◌++◌, ◌>>=◌, length,
  get_elem?, arith,
}
use snippets_cc.SpscRingBuffer.{Ring, cells, next, write, make, push, pop, size}
use snippets_cc.SpscRingBuffer.Represents.{Represents}
use snippets_cc.SpscRingBuffer.Refine.{offer, poll, push_refines, pop_refines}
use snippets_cc.SpscRingBuffer.Threads.{
  Producer, Consumer, System, start, push_begin, push_room, push_write, push_publish, pop_begin,
  pop_some, pop_read, pop_publish, Reach, begin, then_step,
}
use snippets_cc.SpscRingBuffer.Safety.{fifo, no_race, read_oldest}
use snippets_cc.SpscRingBuffer.Observers.{
  Later, now, after, loaded, Sees, Later-Reach, producer-Sees,
}

abbrev fresh : Ring ℕ
fresh = record { capacity = 2; head = 0; tail = 0; buffer = 0 ∷ 0 ∷ 0 ∷ [] }

make_two : make {A = ℕ} 2 0 ≡ fresh
unfolding make cells
make_two = refl

abbrev one_item : List ℕ
one_item = 8 ∷ []

-- Two pushes fill the ring, the third is refused, and a pop makes room.
calls : Option (Bool × Bool × Bool × Bool × ℕ × ℕ)
calls = push fresh 7 >>= λ a. push a.1 8 >>= λ b.
    push b.1 9 >>= λ c. pop c.1 0 >>= λ d. some (a.0, b.0, c.0, d.0, d.1, size d.2)

calls_lem : calls ≡ some (true, true, false, true, 7, 1)
unfolding calls push pop write next cells size
calls_lem = refl

-- One item, 8, after one read: the next write wraps round.
abbrev wrapped : Ring ℕ
wrapped = record { capacity = 2; head = 2; tail = 1; buffer = 7 ∷ 8 ∷ 0 ∷ [] }

wrapped-Represents : Represents wrapped 1 one_item
unfolding cells
wrapped-Represents = record {
  fits = omega arith;
  bounded = omega arith;
  allocated = refl;
  at_tail = refl;
  at_head = refl;
  holds = (refl, tt);
}

push_refines_example :
    (r' : Ring ℕ) × (push wrapped 9 ≡ some ((offer 2 one_item 9).0, r'))
    × Represents r' 1 (offer 2 one_item 9).1
    × (r'.capacity ≡ 2)
push_refines_example = push_refines wrapped 1 one_item wrapped-Represents 9

pop_refines_example :
    (r' : Ring ℕ) × (pop wrapped 0 ≡ some ((poll one_item 0).0, (poll one_item 0).1, r'))
    × ((n : ℕ) × Represents r' n (poll one_item 0).2)
    × (r'.capacity ≡ 2)
pop_refines_example = pop_refines wrapped 1 one_item wrapped-Represents 0

-- 7 is in the ring; the producer is about to write 8, and the consumer to read 7.
abbrev busy : System ℕ
busy = record {
  ring = record { capacity = 2; head = 1; tail = 0; buffer = 7 ∷ 0 ∷ 0 ∷ [] };
  producer = Producer.writing 8 1;
  consumer = Consumer.reading 0;
  accepted = 7 ∷ [];
  delivered = [];
}

busy-Reach : Reach 2 0 busy
unfolding start make next cells write
busy-Reach =
    then_step
      (then_step
        (then_step
          (then_step
            (then_step
              (then_step
                (then_step (then_step begin (push_begin 7 refl)) (push_room 7 0 refl (omega arith)))
                (push_write 7 0 (7 ∷ 0 ∷ 0 ∷ []) refl refl))
              (push_publish 7 0 refl))
            (push_begin 8 refl))
          (push_room 8 1 refl (omega arith)))
        (pop_begin refl))
      (pop_some 0 refl (omega arith))

fifo_example : (q : List ℕ) × (busy.accepted ≡ busy.delivered ++ q) × (length q ≤ 2)
fifo_example = fifo (omega arith) busy-Reach

no_race_example : ◌≢◌ {A = ℕ} 1 0
no_race_example = no_race (omega arith) busy-Reach 8 1 0 refl refl

read_oldest_example :
    (elem : ℕ) × (rest : List ℕ) × (get_elem? busy.ring.buffer 0 ≡ some elem)
    × (busy.accepted ≡ busy.delivered ++ elem ∷ rest)
read_oldest_example = read_oldest (omega arith) busy-Reach 0 refl

-- 7 is in the ring, and no call is in progress; then the producer begins to push 8, or the consumer takes 7.
abbrev holding : System ℕ
holding = record busy { producer = Producer.idle; consumer = Consumer.idle }

abbrev emptied : System ℕ
emptied = record holding {
  ring = record { capacity = 2; head = 1; tail = 1; buffer = 7 ∷ 0 ∷ 0 ∷ [] };
  delivered = 7 ∷ [];
}

holding-Later : Later (start 2 0) holding
unfolding start make next cells write
holding-Later =
    after
      (after (after (after now (push_begin 7 refl)) (push_room 7 0 refl (omega arith)))
        (push_write 7 0 (7 ∷ 0 ∷ 0 ∷ []) refl refl))
      (push_publish 7 0 refl)

emptied-Later : Later holding emptied
unfolding next cells
emptied-Later =
    after
      (after (after (after now (pop_begin refl)) (pop_some 0 refl (omega arith)))
        (pop_read 0 7 refl refl))
      (pop_publish 7 0 refl)

producer-Sees_example : Sees (loaded holding emptied) 1 1 2
producer-Sees_example =
    producer-Sees (omega arith) (Later-Reach begin holding-Later) emptied-Later refl

-- A third thread that loads `head_` before both calls and `tail_` after them sees a full ring that is empty.
size_of_third_thread : size (loaded (start 2 0) emptied) ≡ 2
unfolding loaded start make size cells
size_of_third_thread = refl
