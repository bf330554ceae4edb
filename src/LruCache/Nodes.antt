-- ===== src/LruCache/Nodes.antt =====
-- std::list as null/lru_cache.h uses it: nodes with an address that stays the same while the node
-- is in the list. An iterator is the address of a node, and so is a pointer to the node's value.
-- Following an address that no node of the list has is undefined behaviour, here `none`.
use snippets_cc.Prelude.{ℕ, ◌≢◌, Option, none, some, List, [], ◌∷◌, ◌==◌, if◌then◌else◌, ◌>>=◌, All}
use mathlib.Core.Logic.{ite}

-- A node: `first` and `second` of the pair, and where it lies.
pub record Node {ℓ} (K V : Type ℓ) : Type ℓ where
  pub addr : ℕ
  pub first : K
  pub second : V

module _ {ℓ} {K V : Type ℓ} where
  -- The node at an address, and the list without it.
  unfoldable pub unlink : ℕ → List (Node K V) → Option (Node K V × List (Node K V))
  unlink it [] = none
  unlink it (n ∷ l) =
      if n.addr == it then some (n, l) else (unlink it l >>= λ found. some (found.0, n ∷ found.1))

  -- `list_.splice (list_.begin (), list_, it)`
  unfoldable pub splice_front : ℕ → List (Node K V) → Option (List (Node K V))
  splice_front it l = unlink it l >>= λ found. some (found.0 ∷ found.1)

  -- `it->second = value`
  unfoldable pub assign_second : ℕ → V → List (Node K V) → Option (List (Node K V))
  assign_second it value [] = none
  assign_second it value (n ∷ l) =
      if n.addr == it
      then some (record n { second = value } ∷ l)
      else (assign_second it value l >>= λ rest. some (n ∷ rest))

  -- `it->second`, read
  unfoldable pub read_second : ℕ → List (Node K V) → Option V
  read_second it [] = none
  read_second it (n ∷ l) = if n.addr == it then some n.second else read_second it l

  -- `list_.back ()`
  unfoldable pub back : List (Node K V) → Option (Node K V)
  back [] = none
  back (n ∷ []) = some n
  back (_ ∷ n ∷ l) = back (n ∷ l)

  -- `list_.pop_back ()`
  unfoldable pub pop_back : List (Node K V) → Option (List (Node K V))
  pop_back [] = none
  pop_back (n ∷ []) = some []
  pop_back (m ∷ n ∷ l) = pop_back (n ∷ l) >>= λ rest. some (m ∷ rest)

  -- The pairs in order, without the addresses.
  abbrev pub pairs : List (Node K V) → List (K × V)
  pairs [] = []
  pairs (n ∷ l) = (n.first, n.second) ∷ pairs l

  -- No address and no key stands twice.
  abbrev pub IsDistinct : List (Node K V) → Type ℓ
  IsDistinct [] = Unit
  IsDistinct (n ∷ l) = All (λ m. m.addr ≢ n.addr) l × All (λ m. m.first ≢ n.first) l × IsDistinct l

-- The address of the node with a key.
unfoldable pub address {ℓ} : {K V : Type ℓ} → Discrete K → K → List (Node K V) → Option ℕ
address dec key [] = none
address dec key (n ∷ l) = ite (dec n.first key) (some n.addr) (address dec key l)
