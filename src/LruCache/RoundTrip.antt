-- ===== src/LruCache/RoundTrip.antt =====
-- null/lru_cache.h: a value that is put is found again.
use mathlib.Core.Logic.{ite}
use snippets_cc.Prelude.{ℕ, ◌≡◌, refl, sym, ap, ◌∙◌, Option, some, ◌>>=◌, List, ◌∷◌, take-cons}
use snippets_cc.LruCache.{LruCache, get, put, deref}
use snippets_cc.LruCache.Recency.{find, remove, touch, store}
use snippets_cc.LruCache.Refine.{IsValid, entries, get_refines}
use snippets_cc.LruCache.Store.{put_refines}

module _ {ℓ} {K V : Type ℓ} (dec : Discrete K) where
  find-front :
      (key : K) (value : V) (l : List (K × V)) → find dec key ((key, value) ∷ l) ≡ some value
  unfolding find
  find-front key value l =
      elim (dec key key) as (λ d. ite d (some value) (find dec key l) ≡ some value) [
        | yes same ↦ refl
        | no other ↦ absurd (other refl)
      ]

  remove-front : (key : K) (value : V) (l : List (K × V)) → remove dec key ((key, value) ∷ l) ≡ l
  unfolding remove
  remove-front key value l =
      elim (dec key key) as (λ d. ite d l ((key, value) ∷ remove dec key l) ≡ l) [
        | yes same ↦ refl
        | no other ↦ absurd (other refl)
      ]

  touch-front :
      (key : K) (value : V) (l : List (K × V)) → touch dec key ((key, value) ∷ l) ≡ (key, value) ∷ l
  unfolding touch
  touch-front key value l =
      rw (find-front key value l, touch) (ap (λ r. (key, value) ∷ r) (remove-front key value l))

  -- On a valid cache, `put` and then `get` of the same key meet no undefined behaviour; `get` returns a pointer to the
  -- value that was put, and leaves the pairs and their order as `put` left them.
  pub get-put :
      (c : LruCache K V) (key : K) (value : V)
      → IsValid dec c
      → (p : Option ℕ) × (c₁ c₂ : LruCache K V) × (put dec c key value ≡ some c₁)
        × (get dec c₁ key ≡ some (p, c₂))
        × ((p >>= deref c₂) ≡ some value)
        × (entries c₂ ≡ entries c₁)
  unfolding store
  get-put c key value v =
      let (c₁, e₁, v₁, cap₁, l₁) = put_refines dec c key value v in
      let (p, c₂, e₂, v₂, cap₂, l₂, d) = get_refines dec c₁ key v₁ in
      let front = l₁ ∙ take-cons c.capacity (key, value) (remove dec key (entries c)) v.positive in
      (
        p,
        c₁,
        c₂,
        e₁,
        e₂,
        d ∙ ap (find dec key) front ∙ find-front key value _,
        l₂ ∙ ap (touch dec key) front ∙ touch-front key value _ ∙ sym front,
      )
