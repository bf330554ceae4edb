-- ===== src/UniquePtr.antt =====
-- null/unique_ptr.h, class unique_ptr: a pointer and its deleter. `D` is the type of the deleters, and
-- `blank` the deleter that `base_type{}` makes. The calls of deleters are a log.
pub mod Program
pub mod Count
pub mod Ownership
mod Tests
use snippets_cc.Prelude.{ℕ, Bool, true, false, Option, none, some, List, [], ◌∷◌, ◌++◌}

pub record UniquePtr {ℓ} (D : Type ℓ) : Type ℓ where
  pub deleter : D
  pub p : Option ℕ

-- A deleter and the pointer that it was called on.
abbrev pub Log {ℓ} : Type ℓ → Type ℓ
Log D = List (D × ℕ)

module _ {ℓ} {D : Type ℓ} (blank : D) where
  -- `unique_ptr ()`, `unique_ptr (std::nullptr_t)`
  unfoldable pub make_null : UniquePtr D
  make_null = record { deleter = blank; p = none }

  -- `unique_ptr (pointer p)`
  unfoldable pub from_pointer : Option ℕ → UniquePtr D
  from_pointer p = record { deleter = blank; p = p }

module _ {ℓ} {D : Type ℓ} where
  -- `unique_ptr (pointer p, deleter_type d)`
  unfoldable pub from_pointer_deleter : Option ℕ → D → UniquePtr D
  from_pointer_deleter p d = record { deleter = d; p = p }

  -- `~unique_ptr ()`
  unfoldable pub destruct : UniquePtr D → Log D → Log D
  destruct x log = elim x.p [ none ↦ log | some q ↦ log ++ (x.deleter, q) ∷ [] ]

  unfoldable pub swap : UniquePtr D → UniquePtr D → UniquePtr D × UniquePtr D
  swap a b = (record { deleter = b.deleter; p = b.p }, record { deleter = a.deleter; p = a.p })

  -- `swap (*this, t)` and the destructor of the temporary `t`.
  unfoldable pub swap_in : UniquePtr D → UniquePtr D → Log D → UniquePtr D × Log D
  swap_in this t log = let (this', t') = swap this t in (this', destruct t' log)

  -- `get`, `operator bool`, `get_deleter`
  unfoldable pub get : UniquePtr D → Option ℕ
  get x = x.p

  unfoldable pub is_set : UniquePtr D → Bool
  is_set x = elim x.p [ none ↦ false | some q ↦ true ]

  unfoldable pub get_deleter : UniquePtr D → D
  get_deleter x = x.deleter

  -- `release`: the pointer, and what is left.
  unfoldable pub release : UniquePtr D → Option ℕ × UniquePtr D
  release x = (x.p, record x { p = none })

  -- `unique_ptr (unique_ptr<U, E> &&other)`, where `moved` is what a move leaves of a deleter: the
  -- new pointer, and what is left of `other`.
  unfoldable pub convert : (D → D) → UniquePtr D → UniquePtr D × UniquePtr D
  convert moved other =
      let (q, left) = release (record other { deleter = moved other.deleter }) in
      (record { deleter = other.deleter; p = q }, left)

module _ {ℓ} {D : Type ℓ} (blank : D) where
  -- `unique_ptr (unique_ptr &&other)`
  unfoldable pub move : UniquePtr D → UniquePtr D × UniquePtr D
  move other = swap (make_null blank) other

  -- `operator= (std::nullptr_t)`
  unfoldable pub assign_null : UniquePtr D → Log D → UniquePtr D × Log D
  assign_null this log = swap_in this (make_null blank) log

  unfoldable pub reset : Option ℕ → UniquePtr D → Log D → UniquePtr D × Log D
  reset p this log = swap_in this (from_pointer blank p) log
