-- ===== src/LruCache/Tests.antt =====
-- Runs of lru_cache on concrete calls, and the theorems at a concrete cache.
use native.Mathlib.Decide.{ℕ_discrete}
use snippets_cc.Prelude.{ℕ, ◌≡◌, refl, Option, none, some, List, [], ◌∷◌, ◌>>=◌, arith}
use snippets_cc.LruCache.Nodes.{
  address, unlink, splice_front, assign_second, back, pop_back, read_second,
}
use snippets_cc.LruCache.{LruCache, erase, insert, make_room, push_front, get, put, deref}
use snippets_cc.LruCache.Recency.{find, touch, store}
use snippets_cc.LruCache.Refine.{IsValid, entries, get_refines}
use snippets_cc.LruCache.Store.{put_refines}
use snippets_cc.LruCache.Pointers.{deref-put}
use snippets_cc.LruCache.Run.{Call, get_call, put_call, run, expected, run_refines}

-- A full cache, in which key 1 is the least recently used.
abbrev two : LruCache ℕ ℕ
two = record {
  capacity = 2;
  list =
      record { addr = 1; first = 2; second = 20 }
      ∷ record { addr = 0; first = 1; second = 10 }
      ∷ [];
  map = insert ℕ_discrete 2 1 (insert ℕ_discrete 1 0 (λ _. none));
  fresh = 2;
}

two-IsValid : IsValid ℕ_discrete two
unfolding address
two-IsValid = record {
  positive = omega arith;
  bounded = omega arith;
  distinct = omega arith;
  linked = λ key. refl;
  allocated = omega arith;
}

get_refines_example :
    (p : Option ℕ) × (c' : LruCache ℕ ℕ) × (get ℕ_discrete two 1 ≡ some (p, c'))
    × IsValid ℕ_discrete c'
    × (c'.capacity ≡ 2)
    × (entries c' ≡ touch ℕ_discrete 1 (entries two))
    × ((p >>= deref c') ≡ find ℕ_discrete 1 (entries two))
get_refines_example = get_refines ℕ_discrete two 1 two-IsValid

put_refines_example :
    (c' : LruCache ℕ ℕ) × (put ℕ_discrete two 3 30 ≡ some c')
    × IsValid ℕ_discrete c'
    × (c'.capacity ≡ 2)
    × (entries c' ≡ store ℕ_discrete 2 3 30 (entries two))
put_refines_example = put_refines ℕ_discrete two 3 30 two-IsValid

abbrev calls : List (Call ℕ ℕ)
calls =
    put_call 3 30
    ∷ get_call 1
    ∷ get_call 2
    ∷ put_call 2 22
    ∷ put_call 4 40
    ∷ get_call 3
    ∷ get_call 2
    ∷ []

run-calls : run ℕ_discrete two calls ≡ some (none ∷ some 20 ∷ none ∷ some 22 ∷ [])
unfolding run ℕ_discrete get put deref splice_front unlink read_second assign_second make_room
    push_front back pop_back
run-calls = refl

run_refines_example : run ℕ_discrete two calls ≡ some (expected ℕ_discrete 2 (entries two) calls)
run_refines_example = run_refines ℕ_discrete calls two two-IsValid

-- `two` after `put (3, 30)`.
abbrev after : LruCache ℕ ℕ
after = record two {
  list =
      record { addr = 2; first = 3; second = 30 }
      ∷ record { addr = 1; first = 2; second = 20 }
      ∷ [];
  map = insert ℕ_discrete 3 2 (erase ℕ_discrete 1 two.map);
  fresh = 3;
}

deref-put_example : deref after 1 ≡ find ℕ_discrete 2 (entries after)
unfolding get put splice_front unlink ℕ_discrete make_room push_front back pop_back
deref-put_example = deref-put ℕ_discrete two two after 2 3 30 1 two-IsValid refl refl
