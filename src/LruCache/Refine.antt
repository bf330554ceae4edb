-- ===== src/LruCache/Refine.antt =====
-- null/lru_cache.h against the recency list: the invariant, and get.
use snippets_cc.Prelude.{
  ℕ, ◌≤◌, ◌<◌, ◌≡◌, refl, sym, ◌∙◌, inl, inr, some, none, Option, List, ◌∷◌, ◌>>=◌, All, length,
  Option-cases, arith,
}
use snippets_cc.LruCache.Nodes.{Node, splice_front, read_second, pairs, IsDistinct, address}
use snippets_cc.LruCache.{LruCache, get, deref}
use snippets_cc.LruCache.Recency.{find, touch}
use snippets_cc.LruCache.Linked.{
  Unlinks, find-absent, unlink-Unlinks, addr-Unlinks, length-Unlinks, All-Unlinks,
  IsDistinct-Unlinks, address-Unlinks, address-Unlinks_lem, find-Unlinks,
}

-- The map and the list name the same nodes, within the capacity.
pub record IsValid {ℓ} {K V : Type ℓ} (dec : Discrete K) (c : LruCache K V) : Type ℓ where
  pub positive : 0 < c.capacity
  pub bounded : length c.list ≤ c.capacity
  pub distinct : IsDistinct c.list
  pub linked : (key : K) → c.map key ≡ address dec key c.list
  pub allocated : All (λ n. n.addr < c.fresh) c.list

-- The entries of the cache, most recently used first.
abbrev pub entries {ℓ} : {K V : Type ℓ} → LruCache K V → List (K × V)
entries c = pairs c.list

module _ {ℓ} {K V : Type ℓ} (dec : Discrete K) where
  -- The cache with the node at `it` in front.
  unfoldable pub Moved : LruCache K V → Node K V → List (Node K V) → LruCache K V
  Moved c n r = record c { list = n ∷ r }

  pub Moved-IsValid :
      {c : LruCache K V} {it : ℕ} {n : Node K V} {r : List (Node K V)}
      → Unlinks it n c.list r
      → IsValid dec c
      → IsValid dec (Moved c n r)
  unfolding Moved
  Moved-IsValid {c} u v = record {
    positive = v.positive;
    bounded = omega (arith, length-Unlinks u, v.bounded);
    distinct = IsDistinct-Unlinks u v.distinct;
    linked = λ key. v.linked key ∙ sym (address-Unlinks_lem dec u v.distinct key);
    allocated = All-Unlinks _ u v.allocated;
  }

  module _ (c : LruCache K V) (key : K) (v : IsValid dec c) where
    get-miss : address dec key c.list ≡ none → get dec c key ≡ some (none, c)
    unfolding get
    get-miss e = rw (v.linked key, e, get)

    get-hit :
        {it : ℕ} {n : Node K V} {r : List (Node K V)}
        → address dec key c.list ≡ some it
        → Unlinks it n c.list r
        → get dec c key ≡ some (some it, Moved c n r)
    unfolding get splice_front Moved
    get-hit e u = rw (v.linked key, e, get, unlink-Unlinks u)

    touch-hit :
        {it : ℕ} {n : Node K V} {r : List (Node K V)}
        → Unlinks it n c.list r
        → n.first ≡ key
        → pairs (n ∷ r) ≡ touch dec key (entries c)
    unfolding touch
    touch-hit u k = let (f, m) = find-Unlinks dec key u k v.distinct in rw (f, touch, m, k)

    deref-hit :
        {it : ℕ} {n : Node K V} {r : List (Node K V)}
        → Unlinks it n c.list r
        → n.first ≡ key
        → deref (Moved c n r) it ≡ find dec key (entries c)
    unfolding deref read_second Moved
    deref-hit u k =
        let (f, m) = find-Unlinks dec key u k v.distinct in ground (arith, f, addr-Unlinks u)

    -- `get` follows no dangling iterator. It keeps the invariant and the capacity, moves the key to
    -- the front if the cache has it, and returns nullptr or a pointer to the key's value.
    pub get_refines :
        (p : Option ℕ) × (c' : LruCache K V) × (get dec c key ≡ some (p, c'))
        × IsValid dec c'
        × (c'.capacity ≡ c.capacity)
        × (entries c' ≡ touch dec key (entries c))
        × ((p >>= deref c') ≡ find dec key (entries c))
    unfolding Moved touch
    get_refines = elim (Option-cases (address dec key c.list)) [
      | inl miss ↦
          let f = find-absent dec key c.list miss in
          (none, c, get-miss miss, v, refl, rw (f, touch), sym f)
      | inr (it, hit) ↦
          let (n, r, u, e) = address-Unlinks dec key it c.list v.distinct hit in
          (
            some it,
            Moved c n r,
            get-hit hit u,
            Moved-IsValid u v,
            refl,
            touch-hit u e,
            deref-hit u e,
          )
    ]
