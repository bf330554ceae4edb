-- ===== src/SpscRingBuffer.antt =====
-- null/spsc_ring_buffer.h, class spsc_ring_buffer, called by one thread at a time. (For a producer
-- and a consumer at once see SpscRingBuffer/Threads.antt.) A method takes the buffer and returns the
-- new one beside its result; `none` is an access outside `buffer_`.
pub mod Cells
pub mod Index
pub mod Represents
pub mod Refine
pub mod Threads
pub mod Fifo
pub mod Safety
pub mod Observers
mod Tests
use snippets_cc.Prelude.{
  ℕ, zero, suc, ◌+◌, ◌-◌, ◌%◌, ◌^◌, Bool, true, false, Option, none, some, List, [], ◌∷◌, leb, ltb,
  ◌==◌, if◌then◌else◌, ◌>>=◌, length, get_elem?, set, replicate,
}

-- `Capacity` is the template's parameter.
pub record Ring {ℓ} (A : Type ℓ) : Type ℓ where
  pub capacity : ℕ
  pub head : ℕ
  pub tail : ℕ
  pub buffer : List A

-- std::size_t arithmetic.
abbrev pub size_mod : ℕ
size_mod = 2 ^ 64

abbrev pub add_size : ℕ → ℕ → ℕ
add_size a b = (a + b) % size_mod

abbrev pub sub_size : ℕ → ℕ → ℕ
sub_size a b = (a + size_mod - b) % size_mod

-- `Capacity + 1`, and `(i + 1) % (Capacity + 1)`.
unfoldable pub cells : ℕ → ℕ
cells capacity = add_size capacity 1

unfoldable pub next : ℕ → ℕ → ℕ
next capacity i = add_size i 1 % cells capacity

-- `buffer_[i] = v`
unfoldable pub write {ℓ} : {A : Type ℓ} → List A → ℕ → A → Option (List A)
write buffer i v = if ltb i (length buffer) then some (set buffer i v) else none

-- The constructor; `blank` is the value that make_unique gives each cell.
unfoldable pub make {ℓ} : {A : Type ℓ} → ℕ → A → Ring A
make capacity blank = record {
  capacity = capacity;
  head = 0;
  tail = 0;
  buffer = replicate (cells capacity) blank;
}

module _ {ℓ} {A : Type ℓ} where
  unfoldable pub push : Ring A → A → Option (Bool × Ring A)
  push r item =
      if next r.capacity r.head == r.tail
      then some (false, r)
      else (write r.buffer r.head item >>= λ buffer.
          some (true, record r { head = next r.capacity r.head; buffer = buffer }))

  -- `elem` is what the caller's variable holds before and after.
  unfoldable pub pop : Ring A → A → Option (Bool × A × Ring A)
  pop r elem =
      if r.tail == r.head
      then some (false, elem, r)
      else (get_elem? r.buffer r.tail >>= λ item.
          some (true, item, record r { tail = next r.capacity r.tail }))

  unfoldable pub size : Ring A → ℕ
  size r =
      if leb r.tail r.head
      then sub_size r.head r.tail
      else sub_size (cells r.capacity) (sub_size r.tail r.head)

  unfoldable pub is_full : Ring A → Bool
  is_full r = next r.capacity r.head == r.tail

  unfoldable pub is_empty : Ring A → Bool
  is_empty r = r.head == r.tail
