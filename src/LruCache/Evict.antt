-- ===== src/LruCache/Evict.antt =====
-- Lemmas on the node that an eviction drops, the last of the list.
use mathlib.Core.Logic.{ite}
use snippets_cc.Prelude.{
  ℕ, suc, ◌+◌, ◌<◌, ◌≡◌, ◌≢◌, refl, sym, ap, some, none, List, [], ◌∷◌, ◌++◌, All, length, take,
  arith,
}
use snippets_cc.LruCache.Linked.{address-All}
use snippets_cc.LruCache.Nodes.{Node, back, pop_back, pairs, IsDistinct, address}

module _ {ℓ} {K V : Type ℓ} where
  -- `back` and `pop_back` take a list that is not empty apart at its end.
  pub back-pop_back :
      (l : List (Node K V))
      → 0 < length l
      → (last : Node K V) × (r : List (Node K V)) × (back l ≡ some last)
        × (pop_back l ≡ some r)
        × (l ≡ r ++ last ∷ [])
  unfolding back pop_back
  back-pop_back [] h = absurd (omega arith)
  back-pop_back (n ∷ []) h = (n, [], refl, refl, refl)
  back-pop_back (n ∷ m ∷ l) h =
      let (last, r, b, p, e) = back-pop_back (m ∷ l) (omega arith) in
      (last, n ∷ r, b, ground arith, ap (◌∷◌ n) e)

  pub All-init {κ} :
      (P : Node K V → Type κ) (r : List (Node K V)) (last : Node K V)
      → All P (r ++ last ∷ [])
      → All P r × P last
  All-init P [] last h = (tt, h.0)
  All-init P (m ∷ r) last h = let (a, b) = All-init P r last h.1 in ((h.0, a), b)

  pub IsDistinct-init :
      (r : List (Node K V)) (last : Node K V) → IsDistinct (r ++ last ∷ []) → IsDistinct r
  IsDistinct-init [] last d = tt
  IsDistinct-init (m ∷ r) last d =
      ((All-init _ r last d.0).0, (All-init _ r last d.1).0, IsDistinct-init r last d.2)

  pub length-init : (r : List (Node K V)) (last : Node K V) → length (r ++ last ∷ []) ≡ length r + 1
  length-init [] last = omega arith
  length-init (m ∷ r) last = omega (arith, length-init r last)

  pub take-init :
      (r : List (Node K V)) (last : Node K V) → take (length r) (pairs (r ++ last ∷ [])) ≡ pairs r
  take-init [] last = refl
  take-init (m ∷ r) last = ap (◌∷◌ (m.first, m.second)) (take-init r last)

  -- Without the last node, its key has no address, and the others have the same.
  pub address-init :
      (dec : Discrete K) (r : List (Node K V)) (last : Node K V)
      → IsDistinct (r ++ last ∷ [])
      → (q : K) → address dec q r ≡ ite (dec last.first q) none (address dec q (r ++ last ∷ []))
  unfolding address
  address-init dec [] last d q = ground arith
  address-init dec (m ∷ r) last d q =
      ground (arith, address-init dec r last d.2 q, (All-init _ r last d.1).1)

  pub length-pairs : (l : List (Node K V)) → length (pairs l) ≡ length l
  length-pairs [] = refl
  length-pairs (n ∷ l) = ap suc (length-pairs l)

  -- If only the last node has the key, no other node lies at its address.
  pub address-last :
      (dec : Discrete K) (q : K) {p : ℕ} (r : List (Node K V)) (last : Node K V)
      → IsDistinct (r ++ last ∷ [])
      → address dec q r ≡ none
      → address dec q (r ++ last ∷ []) ≡ some p
      → All (λ n. n.addr ≢ p) r
  unfolding address
  address-last dec q [] last d a e = tt
  address-last dec q {p} (m ∷ r) last d a e = elim (dec m.first q) [
    | yes k ↦ absurd (ground arith)
    | no k ↦
        let e' : address dec q (r ++ last ∷ []) ≡ some p = ground arith in
        (
          (λ x. address-All dec (λ n. n ≢ m.addr) q (r ++ last ∷ []) d.2 e' d.0 (sym x)),
          address-last dec q r last d.2 (ground arith) e',
        )
  ]
