-- ===== src/LruCache.antt =====
-- null/lru_cache.h, class lru_cache. A method takes the cache and returns the new one beside its
-- result; `none` is undefined behaviour of the standard library (see LruCache/Nodes.antt).
pub mod Nodes
pub mod Recency
mod Linked
mod Evict
pub mod Refine
pub mod Store
pub mod Run
pub mod Pointers
pub mod RoundTrip
mod Tests
use mathlib.Core.Logic.{ite}
use snippets_cc.Prelude.{
  ℕ, ◌+◌, Option, none, some, List, [], ◌∷◌, leb, ◌==◌, if◌then◌else◌, ◌>>=◌, length,
}
use Nodes.{Node, splice_front, assign_second, back, pop_back, read_second}

-- `map_` sends a key to the address of its node. `fresh` is the address of the next node that
-- `push_front` allocates; the allocator itself is not part of the class.
pub record LruCache {ℓ} (K V : Type ℓ) : Type ℓ where
  pub capacity : ℕ
  pub list : List (Node K V)
  pub map : K → Option ℕ
  pub fresh : ℕ

-- The constructor; `none` is the std::invalid_argument that it throws.
unfoldable pub make {ℓ} : {K V : Type ℓ} → ℕ → Option (LruCache K V)
make capacity =
    if capacity == 0
    then none
    else some (record { capacity = capacity; list = []; map = λ _. none; fresh = 0 })

module _ {ℓ} {K : Type ℓ} (dec : Discrete K) where
  -- std::unordered_map: `erase (key)` and `map_[key] = it`
  abbrev pub erase : K → (K → Option ℕ) → K → Option ℕ
  erase key m q = ite (dec key q) none (m q)

  abbrev pub insert : K → ℕ → (K → Option ℕ) → K → Option ℕ
  insert key it m q = ite (dec key q) (some it) (m q)

module _ {ℓ} {K V : Type ℓ} (dec : Discrete K) where
  -- `get`: the pointer that it returns (`none` is nullptr), and the cache.
  unfoldable pub get : LruCache K V → K → Option (Option ℕ × LruCache K V)
  get c key = elim (c.map key) [
    | none ↦ some (none, c)
    | some it ↦ splice_front it c.list >>= λ l. some (some it, record c { list = l })
  ]

  -- The eviction in `put`, `if (list_.size () >= capacity_)`.
  unfoldable pub make_room : LruCache K V → Option (LruCache K V)
  make_room c =
      if leb c.capacity (length c.list)
      then (back c.list >>= λ last.
          pop_back c.list >>= λ l. some (record c { map = erase dec last.first c.map; list = l }))
      else some c

  -- `list_.push_front ({ key, value }); map_[key] = list_.begin ();`
  unfoldable pub push_front : LruCache K V → K → V → LruCache K V
  push_front c key value = record c {
    list = record { addr = c.fresh; first = key; second = value } ∷ c.list;
    map = insert dec key c.fresh c.map;
    fresh = c.fresh + 1;
  }

  unfoldable pub put : LruCache K V → K → V → Option (LruCache K V)
  put c key value = elim (c.map key) [
    | none ↦ make_room c >>= λ c'. some (push_front c' key value)
    | some it ↦ assign_second it value c.list >>= λ l.
        splice_front it l >>= λ l'. some (record c { list = l' })
  ]

-- `*p` for a pointer that `get` returned: `none` if it dangles.
unfoldable pub deref {ℓ} : {K V : Type ℓ} → LruCache K V → ℕ → Option V
deref c p = read_second p c.list
