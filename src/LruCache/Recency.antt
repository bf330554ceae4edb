-- ===== src/LruCache/Recency.antt =====
-- What lru_cache promises: a list of pairs, most recently used first, of bounded length.
use mathlib.Core.Logic.{ite}
use snippets_cc.Prelude.{ℕ, Option, none, some, List, [], ◌∷◌, take}

module _ {ℓ} {K V : Type ℓ} (dec : Discrete K) where
  unfoldable pub find : K → List (K × V) → Option V
  find key [] = none
  find key ((k, v) ∷ l) = ite (dec k key) (some v) (find key l)

  unfoldable pub remove : K → List (K × V) → List (K × V)
  remove key [] = []
  remove key ((k, v) ∷ l) = ite (dec k key) l ((k, v) ∷ remove key l)

  -- A read moves a key that is there to the front.
  unfoldable pub touch : K → List (K × V) → List (K × V)
  touch key l = elim (find key l) [ none ↦ l | some v ↦ (key, v) ∷ remove key l ]

  -- A write puts the pair in front and keeps the first `cap` pairs.
  unfoldable pub store : ℕ → K → V → List (K × V) → List (K × V)
  store cap key v l = take cap ((key, v) ∷ remove key l)
