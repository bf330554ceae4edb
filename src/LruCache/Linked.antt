-- ===== src/LruCache/Linked.antt =====
-- Lemmas on the node list: what a key and an address determine.
use mathlib.Core.Path.{subst}
use mathlib.Core.Logic.{if_pos, if_neg}
use snippets_cc.Prelude.{
  ℕ, ◌+◌, ◌≡◌, ◌≢◌, refl, sym, ◌∙◌, none, some, List, [], ◌∷◌, All, length, arith,
}
use snippets_cc.LruCache.Nodes.{
  Node, unlink, assign_second, read_second, pairs, IsDistinct, address,
}
use snippets_cc.LruCache.Recency.{find, remove}

-- The node `n` is the first at the address `it`, and `r` is the list without it.
pub data Unlinks {ℓ} {K V : Type ℓ} (it : ℕ) (n : Node K V)
    : List (Node K V) → List (Node K V) → Type ℓ where
  here : {l : List (Node K V)} → n.addr ≡ it → Unlinks it n (n ∷ l) l
  there :
      {m : Node K V} {l r : List (Node K V)}
      → m.addr ≢ it
      → Unlinks it n l r
      → Unlinks it n (m ∷ l) (m ∷ r)

module _ {ℓ} {K V : Type ℓ} (dec : Discrete K) where
  pub address-none-All :
      (key : K) (l : List (Node K V)) → address dec key l ≡ none → All (λ n. n.first ≢ key) l
  unfolding address
  address-none-All key [] e = tt
  address-none-All key (n ∷ l) e = elim (dec n.first key) [
    | yes p ↦ absurd (ground arith)
    | no p ↦ (p, address-none-All key l (ground arith))
  ]

  pub find-absent :
      (key : K) (l : List (Node K V)) → address dec key l ≡ none → find dec key (pairs l) ≡ none
  unfolding address find
  find-absent key [] e = refl
  find-absent key (n ∷ l) e = elim (dec n.first key) [
    | yes p ↦ absurd (ground arith)
    | no p ↦ rw (if_neg _ p) (find-absent key l (ground arith))
  ]

  pub remove-absent :
      (key : K) (l : List (Node K V))
      → address dec key l ≡ none
      → remove dec key (pairs l) ≡ pairs l
  unfolding address remove
  remove-absent key [] e = refl
  remove-absent key (n ∷ l) e = elim (dec n.first key) [
    | yes p ↦ absurd (ground arith)
    | no p ↦ rw (if_neg _ p, remove-absent key l (ground arith))
  ]

module _ {ℓ} {K V : Type ℓ} {it : ℕ} where
  pub unlink-Unlinks :
      {n : Node K V} {l r : List (Node K V)} → Unlinks it n l r → unlink it l ≡ some (n, r)
  unfolding unlink
  unlink-Unlinks (here e) = ground arith
  unlink-Unlinks (there ne u) = ground (arith, unlink-Unlinks u)

  pub addr-Unlinks : {n : Node K V} {l r : List (Node K V)} → Unlinks it n l r → n.addr ≡ it
  addr-Unlinks (here e) = e
  addr-Unlinks (there ne u) = addr-Unlinks u

  pub length-Unlinks :
      {n : Node K V} {l r : List (Node K V)} → Unlinks it n l r → length r + 1 ≡ length l
  length-Unlinks (here e) = omega arith
  length-Unlinks (there ne u) = omega (arith, length-Unlinks u)

  pub All-Unlinks {κ} :
      (P : Node K V → Type κ) {n : Node K V} {l r : List (Node K V)}
      → Unlinks it n l r
      → All P l
      → P n × All P r
  All-Unlinks P (here e) h = h
  All-Unlinks P (there ne u) h = let (a, b) = All-Unlinks P u h.1 in (a, (h.0, b))

  pub IsDistinct-Unlinks :
      {n : Node K V} {l r : List (Node K V)} → Unlinks it n l r → IsDistinct l → IsDistinct (n ∷ r)
  IsDistinct-Unlinks (here e) d = d
  IsDistinct-Unlinks (there ne u) d =
      let (a, b) = All-Unlinks _ u d.0 in
      let (a', b') = All-Unlinks _ u d.1 in
      let (p, q, s) = IsDistinct-Unlinks u d.2 in
      (((λ e. a (sym e)), p), ((λ e. a' (sym e)), q), (b, b', s))

  -- Writing through the address leaves the node where it is.
  pub assign-Unlinks :
      (v : V) {n : Node K V} {l r : List (Node K V)}
      → Unlinks it n l r
      → (l' : List (Node K V)) × (assign_second it v l ≡ some l')
        × Unlinks it (record n { second = v }) l' r
  unfolding assign_second
  assign-Unlinks v (here {l} e) = (_, ground arith, here e)
  assign-Unlinks v (there {m} ne u) =
      let (l', e, u') = assign-Unlinks v u in (m ∷ l', ground arith, there ne u')

module _ {ℓ} {K V : Type ℓ} (dec : Discrete K) where
  -- A key's address is that of a node with the key, and of no node before it.
  pub address-Unlinks :
      (key : K) (it : ℕ) (l : List (Node K V))
      → IsDistinct l
      → address dec key l ≡ some it
      → (n : Node K V) × (r : List (Node K V)) × Unlinks it n l r × (n.first ≡ key)
  unfolding address
  address-Unlinks key it [] d e = absurd (ground arith)
  address-Unlinks key it (n ∷ l) d e = elim (dec n.first key) [
    | yes p ↦ (n, l, here (ground arith), p)
    | no p ↦
        let (m, r, u, q) = address-Unlinks key it l d.2 (ground arith) in
        (m, n ∷ r, there (λ e. (All-Unlinks _ u d.0).0 (addr-Unlinks u ∙ sym e)) u, q)
  ]

  pub address-Unlinks_lem :
      {it : ℕ} {n : Node K V} {l r : List (Node K V)}
      → Unlinks it n l r
      → IsDistinct l
      → (q : K) → address dec q (n ∷ r) ≡ address dec q l
  unfolding address
  address-Unlinks_lem (here e) d q = refl
  address-Unlinks_lem (there ne u) d q =
      ground (arith, address-Unlinks_lem u d.2 q, (All-Unlinks _ u d.1).0)

  pub find-Unlinks :
      {it : ℕ} {n : Node K V} {l r : List (Node K V)} (key : K)
      → Unlinks it n l r
      → n.first ≡ key
      → IsDistinct l
      → (find dec key (pairs l) ≡ some n.second) × (remove dec key (pairs l) ≡ pairs r)
  unfolding find remove
  find-Unlinks key (here e) k d = (rw (if_pos _ k), rw (if_pos _ k))
  find-Unlinks key (there {m} ne u) k d =
      let other = (All-Unlinks _ u d.1).0 in
      let (p, q) = find-Unlinks key u k d.2 in
      (rw (if_neg _ (λ e. other (k ∙ sym e))) p, rw (if_neg _ (λ e. other (k ∙ sym e)), q))

  -- A node with the key is allocated wherever all nodes are.
  pub address-All {κ} :
      (P : ℕ → Type κ) (key : K) {it : ℕ} (l : List (Node K V))
      → IsDistinct l
      → address dec key l ≡ some it
      → All (λ n. P n.addr) l
      → P it
  address-All P key l d e h =
      let (n, r, u, _) = address-Unlinks key _ l d e in
      subst P (addr-Unlinks u) (All-Unlinks _ u h).0

  pub read-Unlinks :
      {it : ℕ} {n : Node K V} {l r : List (Node K V)}
      → Unlinks it n l r
      → read_second it l ≡ some n.second
  unfolding read_second
  read-Unlinks (here e) = ground arith
  read-Unlinks (there ne u) = ground (arith, read-Unlinks u)

  pub read-absent : (p : ℕ) (l : List (Node K V)) → All (λ n. n.addr ≢ p) l → read_second p l ≡ none
  unfolding read_second
  read-absent p [] h = refl
  read-absent p (n ∷ l) h = ground (arith, read-absent p l h.1)
