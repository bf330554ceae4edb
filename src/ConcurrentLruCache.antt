-- ===== src/ConcurrentLruCache.antt =====
-- null/concurrent_lru_cache.h, class concurrent_lru_cache: the members and the code of lru_cache, with a mutex that each
-- call locks first. Any number of threads call it. The accesses of a call to the members take a while: a thread that
-- begins them while another is at its own is a data race. The pointer that `get` returns stays with its thread after
-- the mutex has been given up.
mod Interleavings
mod Tests
use snippets_cc.Prelude.{
  ℕ, Bool, true, false, Option, none, some, List, [], ◌∷◌, ◌++◌, ◌==◌, if◌then◌else◌, ◌>>=◌,
  get_elem?, set, replicate, total,
}
use snippets_cc.LruCache
use snippets_cc.LruCache.{LruCache}
use snippets_cc.LruCache.Run.{Call, get_call, put_call}

-- Where a thread stands: outside, before `lock_guard`, with the mutex and before its accesses, at its accesses, or after
-- them, before the destructor of `lock`.
pub data Thread {ℓ} (K V : Type ℓ) : Type ℓ where
  outside : Thread K V
  waiting : Call K V → Thread K V
  locked : Call K V → Thread K V
  accessing : Call K V → Thread K V
  leaving : Thread K V

-- A thread begins a call, or goes on with it.
pub data Action {ℓ} (K V : Type ℓ) : Type ℓ where
  begin : Call K V → Action K V
  go : Action K V

-- The members, the threads and the pointer that each got last; in the order of their ends the accesses of the calls,
-- and for each `get` what its pointer points to at that time.
pub record System {ℓ} (K V : Type ℓ) : Type ℓ where
  pub cache : LruCache K V
  pub is_locked : Bool
  pub threads : List (Thread K V)
  pub pointer : ℕ → Option ℕ
  pub calls : List (Call K V)
  pub seen : List (Option V)

-- The cache with `n` threads, before any call.
abbrev pub start {ℓ} : {K V : Type ℓ} → (n : ℕ) → LruCache K V → System K V
start n c = record {
  cache = c;
  is_locked = false;
  threads = replicate n outside;
  pointer = λ thread. none;
  calls = [];
  seen = [];
}

-- The constructor: `none` is the exception.
unfoldable pub make {ℓ} : {K V : Type ℓ} → (n capacity : ℕ) → Option (System K V)
make n capacity = LruCache.make capacity >>= λ c. some (start n c)

module _ {ℓ} {K V : Type ℓ} where
  abbrev pub is_accessing : Thread K V → ℕ
  is_accessing (accessing c) = 1
  is_accessing t = 0

  abbrev pub at : ℕ → Thread K V → System K V → System K V
  at i t s = record s { threads = set s.threads i t }

  abbrev pub begins : ℕ → Thread K V → Call K V → System K V → System K V
  begins i outside c s = at i (waiting c) s
  begins i t c s = s

  -- `std::lock_guard<std::mutex> lock (mutex_)`: with the mutex taken, the thread stays blocked.
  unfoldable pub lock : ℕ → Call K V → System K V → System K V
  lock i c s = if s.is_locked then s else record (at i (locked c) s) { is_locked = true }

  -- The destructor of `lock`.
  unfoldable pub unlock : ℕ → System K V → System K V
  unlock i s = record (at i outside s) { is_locked = false }

  -- The accesses have left the cache `c`, and `get` returns `p`.
  abbrev pub after_get : ℕ → K → Option ℕ → LruCache K V → System K V → System K V
  after_get thread key p c s = record (at thread leaving s) {
    cache = c;
    pointer = λ t. if t == thread then p else s.pointer t;
    calls = s.calls ++ get_call key ∷ [];
    seen = s.seen ++ (p >>= LruCache.deref c) ∷ [];
  }

  abbrev pub after_put : ℕ → K → V → LruCache K V → System K V → System K V
  after_put thread key value c s = record (at thread leaving s) {
    cache = c;
    calls = s.calls ++ put_call key value ∷ [];
  }

  -- The accesses begin: `none` is a data race.
  unfoldable pub enter : ℕ → Call K V → System K V → Option (System K V)
  enter i c s = if total is_accessing s.threads == 0 then some (at i (accessing c) s) else none

module _ {ℓ} {K V : Type ℓ} (dec : Discrete K) where
  -- The accesses of `get` and of `put`, which end: `none` is undefined behaviour.
  unfoldable pub get : ℕ → K → System K V → Option (System K V)
  get thread key s = LruCache.get dec s.cache key >>= λ (p, c). some (after_get thread key p c s)

  unfoldable pub put : ℕ → K → V → System K V → Option (System K V)
  put thread key value s =
      LruCache.put dec s.cache key value >>= λ c. some (after_put thread key value c s)

  unfoldable pub access : ℕ → Call K V → System K V → Option (System K V)
  access i (get_call key) s = get i key s
  access i (put_call key value) s = put i key value s

  unfoldable pub goes_on : ℕ → Thread K V → System K V → Option (System K V)
  goes_on i outside s = some s
  goes_on i (waiting c) s = some (lock i c s)
  goes_on i (locked c) s = enter i c s
  goes_on i (accessing c) s = access i c s
  goes_on i leaving s = some (unlock i s)

  -- A step of thread `i`.
  unfoldable pub step : ℕ → Action K V → System K V → Option (System K V)
  step i a s = elim (get_elem? s.threads i) [
    | none ↦ some s
    | some t ↦ elim a [ begin c ↦ some (begins i t c s) | go ↦ goes_on i t s ]
  ]

  unfoldable pub run : List (ℕ × Action K V) → System K V → Option (System K V)
  run [] s = some s
  run ((i, a) ∷ acts) s = step i a s >>= run acts

-- `*p` by a thread, without the mutex: `none` if it has no pointer or the pointer dangles.
unfoldable pub read {ℓ} : {K V : Type ℓ} → ℕ → System K V → Option V
read thread s = s.pointer thread >>= LruCache.deref s.cache
