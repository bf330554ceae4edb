-- ===== src/ConcurrentLruCache/Tests.antt =====
-- Two threads on a cache of capacity 1, and the theorem at them.
use native.Mathlib.Decide.{ℕ_discrete}
use snippets_cc.Prelude.{ℕ, ◌≡◌, refl, none, some, Option, List, [], ◌∷◌, ◌++◌, ◌>>=◌, total, arith}
use snippets_cc.LruCache
use snippets_cc.LruCache.{make_room, push_front}
use snippets_cc.LruCache.Nodes.{unlink, splice_front, back, pop_back, read_second}
use snippets_cc.LruCache.Refine.{IsValid, entries}
use snippets_cc.LruCache.Run.{get_call, put_call, expected}
use snippets_cc.ConcurrentLruCache.{
  System, Action, begin, go, make, lock, unlock, enter, get, put, access, goes_on, step, run, read,
}
use snippets_cc.ConcurrentLruCache.Interleavings.{recent, run-recent}

abbrev run_from_start : List (ℕ × Action ℕ ℕ) → Option (System ℕ ℕ)
run_from_start acts = make 2 1 >>= run ℕ_discrete acts

-- Thread 0 puts key 1 while thread 1 asks for it: thread 1 is blocked until thread 0 has unlocked.
abbrev contended : List (ℕ × Action ℕ ℕ)
contended =
    (0, begin (put_call 1 10))
    ∷ (1, begin (get_call 1))
    ∷ (0, go)
    ∷ (1, go)
    ∷ (0, go)
    ∷ (1, go)
    ∷ (0, go)
    ∷ (0, go)
    ∷ (1, go)
    ∷ (1, go)
    ∷ (1, go)
    ∷ (1, go)
    ∷ []

run-recent_example :
    (s : System ℕ ℕ) × (run_from_start contended ≡ some s)
    × IsValid ℕ_discrete s.cache
    × (s.cache.capacity ≡ 1)
    × (entries s.cache ≡ recent ℕ_discrete 1 s.calls [])
    × (s.seen ≡ expected ℕ_discrete 1 [] s.calls)
run-recent_example = run-recent ℕ_discrete 2 1 contended (omega arith)

contended_seen : (run_from_start contended >>= λ s. some s.seen) ≡ some (some 10 ∷ [])
unfolding run step goes_on lock unlock enter access get put make total LruCache.make LruCache.get
    LruCache.put LruCache.deref make_room push_front unlink splice_front back pop_back read_second
    ℕ_discrete
contended_seen = refl

-- Then thread 0 puts another key, which evicts the first, and the pointer of thread 1 dangles.
abbrev evicts : List (ℕ × Action ℕ ℕ)
evicts = contended ++ (0, begin (put_call 2 20)) ∷ (0, go) ∷ (0, go) ∷ (0, go) ∷ (0, go) ∷ []

safe_before : (run_from_start contended >>= read 1) ≡ some 10
unfolding run step goes_on lock unlock enter access get put make read total LruCache.make
    LruCache.get LruCache.put LruCache.deref make_room push_front unlink splice_front back pop_back
    read_second ℕ_discrete
safe_before = refl

escaped : (run_from_start evicts >>= read 1) ≡ none
unfolding run step goes_on lock unlock enter access get put make read total LruCache.make
    LruCache.get LruCache.put LruCache.deref make_room push_front unlink splice_front back pop_back
    read_second ℕ_discrete
escaped = refl
