-- ===== src/LruCache/Run.antt =====
-- Sequences of calls on one lru_cache, against the recency list.
use snippets_cc.Prelude.{ℕ, ◌<◌, ◌≡◌, refl, Option, none, some, List, [], ◌∷◌, ◌>>=◌, arith}
use snippets_cc.LruCache.{LruCache, make, get, put, deref}
use snippets_cc.LruCache.Nodes.{address}
use snippets_cc.LruCache.Recency.{find, touch, store}
use snippets_cc.LruCache.Refine.{IsValid, entries, get_refines}
use snippets_cc.LruCache.Store.{put_refines}

pub data Call {ℓ} (K V : Type ℓ) : Type ℓ where
  get_call : K → Call K V
  put_call : K → V → Call K V

-- At a positive capacity the constructor gives a valid, empty cache of that capacity.
pub make-IsValid {ℓ} :
    {K V : Type ℓ} (dec : Discrete K) (cap : ℕ)
    → 0 < cap
    → (c : LruCache K V) × (make cap ≡ some c)
      × IsValid dec c
      × (entries c ≡ [])
      × (c.capacity ≡ cap)
unfolding make address
make-IsValid dec n h = (
  record { capacity = n; list = []; map = λ _. none; fresh = 0 },
  ground arith,
  record {
    positive = h;
    bounded = omega arith;
    distinct = tt;
    linked = λ key. refl;
    allocated = tt;
  },
  refl,
  refl,
)

module _ {ℓ} {K V : Type ℓ} (dec : Discrete K) where
  -- A client that reads through the pointer at once: for each `get` the value that it reads.
  unfoldable pub run : LruCache K V → List (Call K V) → Option (List (Option V))
  run c [] = some []
  run c (get_call k ∷ calls) =
      get dec c k >>= λ r. run r.1 calls >>= λ seen. some ((r.0 >>= deref r.1) ∷ seen)
  run c (put_call k v ∷ calls) = put dec c k v >>= λ c'. run c' calls

  -- The same calls on a recency list of at most `cap` pairs.
  unfoldable pub expected : ℕ → List (K × V) → List (Call K V) → List (Option V)
  expected cap l [] = []
  expected cap l (get_call k ∷ calls) = find dec k l ∷ expected cap (touch dec k l) calls
  expected cap l (put_call k v ∷ calls) = expected cap (store dec cap k v l) calls

  -- Any sequence of calls on a valid cache meets no undefined behaviour, and the client reads what it
  -- would read from a recency list of the cache's capacity.
  pub run_refines :
      (calls : List (Call K V)) (c : LruCache K V)
      → IsValid dec c
      → run c calls ≡ some (expected c.capacity (entries c) calls)
  unfolding run expected
  run_refines [] c v = refl
  run_refines (get_call k ∷ calls) c v =
      let (p, c', e, v', same, l, r) = get_refines dec c k v in
      rw (e, run_refines calls c' v', r, same, l)
  run_refines (put_call k x ∷ calls) c v =
      let (c', e, v', same, l) = put_refines dec c k x v in rw (e, run_refines calls c' v', same, l)
