-- ===== src/LruCache/Pointers.antt =====
-- The life of the pointers that lru_cache::get returns.
use mathlib.Core.Path.{subst}
use mathlib.Core.Option.{some-injective}
use snippets_cc.Prelude.{ℕ, ◌≡◌, sym, ◌∙◌, inl, inr, some, Option-cases, arith}
use snippets_cc.LruCache.Nodes.{unlink, splice_front}
use snippets_cc.LruCache.{LruCache, get, put, deref}
use snippets_cc.LruCache.Recency.{find}
use snippets_cc.LruCache.Linked.{address-Unlinks, find-Unlinks, read-Unlinks, read-absent}
use snippets_cc.LruCache.Refine.{IsValid, entries, get_refines}
use snippets_cc.LruCache.Store.{put-Stored}

deref-put_of_map {ℓ} :
    {K V : Type ℓ} (dec : Discrete K) (c c' : LruCache K V) (q key : K) (value : V) (p : ℕ)
    → IsValid dec c
    → c.map q ≡ some p
    → put dec c key value ≡ some c'
    → deref c' p ≡ find dec q (entries c')
unfolding deref
deref-put_of_map dec c c' q key value p v h e =
    let (c₀, e₀, s) = put-Stored dec c key value v in
    let reads : deref c₀ p ≡ find dec q (entries c₀) = elim (s.pointers q p h) [
      | inl kept ↦
          let (n, r, u, k) =
            address-Unlinks dec q p c₀.list s.valid.distinct (sym (s.valid.linked q) ∙ kept) in
          read-Unlinks dec u ∙ sym (find-Unlinks dec q u k s.valid.distinct).0
      | inr (gone, apart) ↦ read-absent dec p c₀.list apart ∙ sym gone
    ] in
    subst (λ d. deref d p ≡ find dec q (entries d)) (some-injective c₀ c' (sym e₀ ∙ e)) reads

get-map_lem {ℓ} :
    {K V : Type ℓ} (dec : Discrete K) (c c' : LruCache K V) (q : K) {p : ℕ}
    → get dec c q ≡ some (some p, c')
    → c'.map q ≡ some p
unfolding get splice_front
get-map_lem dec c c' q e = elim (Option-cases (c.map q)) [
  | inl miss ↦ absurd (ground (arith, miss))
  | inr (it, hit) ↦ elim (Option-cases (unlink it c.list)) [
    | inl gone ↦ absurd (ground (arith, hit, gone))
    | inr (found, at) ↦ ground (arith, hit, at)
  ]
]

get-map {ℓ} :
    {K V : Type ℓ} (dec : Discrete K) (c c' : LruCache K V) (q : K) {p : ℕ}
    → IsValid dec c
    → get dec c q ≡ some (some p, c')
    → (c'.map q ≡ some p) × IsValid dec c'
get-map dec c c' q {p} v e =
    let (p₀, c₀, e₀, v₀, _, _, _) = get_refines dec c q v in
    let same : c₀ ≡ c' = cc in (get-map_lem dec c c' q e, subst (IsValid dec) same v₀)

-- A pointer that `get` returned for a key, read after a later `put`: it gives what the cache now has
-- for the key, and it dangles if that `put` has evicted the key.
pub deref-put {ℓ} :
    {K V : Type ℓ} (dec : Discrete K) (c c₁ c₂ : LruCache K V) (q key : K) (value : V) (p : ℕ)
    → IsValid dec c
    → get dec c q ≡ some (some p, c₁)
    → put dec c₁ key value ≡ some c₂
    → deref c₂ p ≡ find dec q (entries c₂)
deref-put dec c c₁ c₂ q key value p v g e =
    let (h, v₁) = get-map dec c c₁ q v g in deref-put_of_map dec c₁ c₂ q key value p v₁ h e
