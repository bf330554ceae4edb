-- ===== src/ConcurrentLruCache/Interleavings.antt =====
-- null/concurrent_lru_cache.h: the interleavings of the steps of threads, against the recency list.
use snippets_cc.Prelude.{
  ap, ℕ, suc, zero, ◌+◌, ◌≤◌, ◌<◌, if◌then◌else◌, ◌≡◌, refl, sym, ◌∙◌, Bool, true, false,
  Option-cases, Option, replicate, inl, inr, some, List, [], ◌∷◌, ◌++◌, append-nil, ◌>>=◌,
  get_elem?, total, total-set, total-ge, arith,
}
use snippets_cc.LruCache.Recency.{find, touch, store}
use snippets_cc.LruCache.Refine.{IsValid, entries, get_refines}
use snippets_cc.LruCache.Store.{put_refines}
use snippets_cc.LruCache.Run.{Call, get_call, put_call, expected, make-IsValid}
use snippets_cc.ConcurrentLruCache.{
  Thread, outside, waiting, locked, accessing, leaving, System, is_accessing, Action, begin, go, at,
  lock, unlock, enter, get, put, access, goes_on, begins, after_get, after_put, start, step, run,
}
use snippets_cc.ConcurrentLruCache as Concurrent

module _ {ℓ} {K V : Type ℓ} where
  abbrev is_held : Thread K V → ℕ
  is_held (locked c) = 1
  is_held t = 0

  abbrev is_leaving : Thread K V → ℕ
  is_leaving leaving = 1
  is_leaving t = 0

module _ {ℓ} {K V : Type ℓ} (dec : Discrete K) where
  -- The recency list of capacity `cap` after the calls.
  unfoldable pub recent : ℕ → List (Call K V) → List (K × V) → List (K × V)
  recent cap [] l = l
  recent cap (get_call key ∷ cs) l = recent cap cs (touch dec key l)
  recent cap (put_call key value ∷ cs) l = recent cap cs (store dec cap key value l)

  recent-append :
      (cap : ℕ) (cs ds : List (Call K V)) (l : List (K × V))
      → recent cap (cs ++ ds) l ≡ recent cap ds (recent cap cs l)
  unfolding recent
  recent-append cap [] ds l = refl
  recent-append cap (get_call key ∷ cs) ds l = recent-append cap cs ds (touch dec key l)
  recent-append cap (put_call key value ∷ cs) ds l =
      recent-append cap cs ds (store dec cap key value l)

  expected-append :
      (cap : ℕ) (cs ds : List (Call K V)) (l : List (K × V))
      → expected dec cap l (cs ++ ds)
        ≡ expected dec cap l cs ++ expected dec cap (recent cap cs l) ds
  unfolding recent expected
  expected-append cap [] ds l = refl
  expected-append cap (get_call key ∷ cs) ds l =
      ap (λ seen. find dec key l ∷ seen) (expected-append cap cs ds (touch dec key l))
  expected-append cap (put_call key value ∷ cs) ds l =
      expected-append cap cs ds (store dec cap key value l)

  -- At most one thread has the mutex, and the members are those of a cache on which the calls whose accesses have ended were made one
  -- after another.
  pub record Inv (cap : ℕ) (s : System K V) : Type ℓ where
    pub valid : IsValid dec s.cache
    pub capacity : s.cache.capacity ≡ cap
    pub list : entries s.cache ≡ recent cap s.calls []
    pub results : s.seen ≡ expected dec cap [] s.calls
    pub holders :
        total is_held s.threads + total is_accessing s.threads + total is_leaving s.threads
        ≡ (if s.is_locked then 1 else 0)

  -- A step that is no undefined behaviour and keeps the invariant.
  Kept : ℕ → Option (System K V) → Type ℓ
  Kept cap o = (s' : System K V) × (o ≡ some s') × Inv cap s'

  module _ {cap : ℕ} {s : System K V} (v : Inv cap s) (i : ℕ) where
    moved :
        (t t' : Thread K V)
        → get_elem? s.threads i ≡ some t
        → (is_held t + is_accessing t + is_leaving t ≡ is_held t' + is_accessing t' + is_leaving t')
        → Inv cap (at i t' s)
    moved t t' at_i same = record {
      valid = v.valid;
      capacity = v.capacity;
      list = v.list;
      results = v.results;
      holders = omega (
        arith,
        v.holders,
        same,
        total-set is_held s.threads i t t' at_i,
        total-set is_accessing s.threads i t t' at_i,
        total-set is_leaving s.threads i t t' at_i,
      );
    }

    lock-Inv : (c : Call K V) → get_elem? s.threads i ≡ some (waiting c) → Inv cap (lock i c s)
    unfolding lock
    lock-Inv c at_i = by_test s.is_locked refl
      where
        by_test :
            (b : Bool)
            → s.is_locked ≡ b
            → Inv cap (if b then s else record (at i (locked c) s) { is_locked = true })
        by_test true taken = v
        by_test false free = record {
          valid = v.valid;
          capacity = v.capacity;
          list = v.list;
          results = v.results;
          holders = omega (
            arith,
            v.holders,
            ap {B = ℕ} (λ b. if b then 1 else 0) free,
            total-set is_held s.threads i (waiting c) (locked c) at_i,
            total-set is_accessing s.threads i (waiting c) (locked c) at_i,
            total-set is_leaving s.threads i (waiting c) (locked c) at_i,
          );
        }

    flag-one : (n : ℕ) → n ≤ (if s.is_locked then 1 else 0) → n ≤ 1
    flag-one n le = ground (arith, le)

    -- The thread with the mutex finds no other at its accesses.
    enter-Kept : (c : Call K V) → get_elem? s.threads i ≡ some (locked c) → Kept cap (enter i c s)
    unfolding enter Kept
    enter-Kept c at_i =
        let alone : total is_accessing s.threads ≡ 0 = omega (
          arith,
          flag-one
              (total is_held s.threads + total is_accessing s.threads + total is_leaving s.threads)
              (omega (arith, v.holders)),
          total-ge is_held s.threads i (locked c) at_i,
        ) in
        (at i (accessing c) s, rw (alone, enter) refl, moved (locked c) (accessing c) at_i refl)

    access-Kept :
        (c : Call K V) → get_elem? s.threads i ≡ some (accessing c) → Kept cap (access dec i c s)
    unfolding access get put Kept recent expected
    access-Kept (get_call key) at_i =
        let (p, c', e, v', same, l, r) = get_refines dec s.cache key v.valid in
        (
          after_get i key p c' s,
          rw e refl,
          record {
            valid = v';
            capacity = same ∙ v.capacity;
            list =
                l
                ∙ ap (touch dec key) v.list
                ∙ sym (recent-append cap s.calls (get_call key ∷ []) []);
            results =
                ap (λ x. s.seen ++ x ∷ []) (r ∙ ap (find dec key) v.list)
                ∙ ap (λ xs. xs ++ find dec key (recent cap s.calls []) ∷ []) v.results
                ∙ sym (expected-append cap s.calls (get_call key ∷ []) []);
            holders = (moved (accessing (get_call key)) leaving at_i refl).holders;
          },
        )
    access-Kept (put_call key value) at_i =
        let (c', e, v', same, l) = put_refines dec s.cache key value v.valid in
        (
          after_put i key value c' s,
          rw e refl,
          record {
            valid = v';
            capacity = same ∙ v.capacity;
            list =
                l
                ∙ ap (λ n. store dec n key value (entries s.cache)) v.capacity
                ∙ ap (store dec cap key value) v.list
                ∙ sym (recent-append cap s.calls (put_call key value ∷ []) []);
            results =
                v.results
                ∙ sym (append-nil (expected dec cap [] s.calls))
                ∙ sym (expected-append cap s.calls (put_call key value ∷ []) []);
            holders = (moved (accessing (put_call key value)) leaving at_i refl).holders;
          },
        )

    unlock-Inv : get_elem? s.threads i ≡ some leaving → Inv cap (unlock i s)
    unfolding unlock
    unlock-Inv at_i = record {
      valid = v.valid;
      capacity = v.capacity;
      list = v.list;
      results = v.results;
      holders = omega (
        arith,
        flag-one
            (total is_held s.threads + total is_accessing s.threads + total is_leaving s.threads)
            (omega (arith, v.holders)),
        total-set is_held s.threads i leaving outside at_i,
        total-set is_accessing s.threads i leaving outside at_i,
        total-set is_leaving s.threads i leaving outside at_i,
      );
    }

    goes_on-Kept : (t : Thread K V) → get_elem? s.threads i ≡ some t → Kept cap (goes_on dec i t s)
    unfolding goes_on Kept
    goes_on-Kept outside at_i = (s, refl, v)
    goes_on-Kept (waiting c) at_i = (lock i c s, refl, lock-Inv c at_i)
    goes_on-Kept (locked c) at_i = enter-Kept c at_i
    goes_on-Kept (accessing c) at_i = access-Kept c at_i
    goes_on-Kept leaving at_i = (unlock i s, refl, unlock-Inv at_i)

    begins-Inv :
        (t : Thread K V) (c : Call K V) → get_elem? s.threads i ≡ some t → Inv cap (begins i t c s)
    begins-Inv outside c at_i = moved outside (waiting c) at_i refl
    begins-Inv (waiting d) c at_i = v
    begins-Inv (locked d) c at_i = v
    begins-Inv (accessing d) c at_i = v
    begins-Inv leaving c at_i = v

    step-Kept : (a : Action K V) → Kept cap (step dec i a s)
    unfolding step Kept
    step-Kept a = elim (Option-cases (get_elem? s.threads i)) [
      | inl no_i ↦ rw (no_i, step) (s, refl, v)
      | inr (t, at_i) ↦ rw (at_i, step) (by_action t at_i a)
    ]
      where
        by_action :
            (t : Thread K V)
            → get_elem? s.threads i ≡ some t
            → (a : Action K V)
            → Kept cap (elim a [ begin c ↦ some (begins i t c s) | go ↦ goes_on dec i t s ])
        by_action t at_i (begin c) = (begins i t c s, refl, begins-Inv t c at_i)
        by_action t at_i go = goes_on-Kept t at_i

  run-Kept :
      {cap : ℕ} (acts : List (ℕ × Action K V)) (s : System K V)
      → Inv cap s
      → Kept cap (run dec acts s)
  unfolding run Kept
  run-Kept [] s v = (s, refl, v)
  run-Kept ((i, a) ∷ acts) s v =
      let (s', e, v') = step-Kept v i a in
      let (s'', e', v'') = run-Kept acts s' v' in (s'', rw e e', v'')

  none_stand : (w : Thread K V → ℕ) (n : ℕ) → w outside ≡ 0 → total w (replicate n outside) ≡ 0
  unfolding total
  none_stand w zero e = refl
  none_stand w (suc n) e = omega (arith, e, none_stand w n e)

  -- A cache of positive capacity, with any number of threads that make any calls, in whatever order their steps come: no
  -- thread begins its accesses while another is at its own, so that there is no data race, and the accesses meet no
  -- undefined behaviour. The cache is valid, keeps its capacity and holds the pairs of the recency list after the calls
  -- whose accesses have ended, in that order, and each `get` of them has found what it finds in the recency list.
  pub run-recent :
      (n cap : ℕ) (acts : List (ℕ × Action K V))
      → 0 < cap
      → (s : System K V) × ((Concurrent.make n cap >>= run dec acts) ≡ some s)
        × IsValid dec s.cache
        × (s.cache.capacity ≡ cap)
        × (entries s.cache ≡ recent cap s.calls [])
        × (s.seen ≡ expected dec cap [] s.calls)
  unfolding Concurrent.make Kept recent expected
  run-recent n cap acts positive =
      let (c, e, v, empty, same) = make-IsValid dec cap positive in
      let (s, e', v') = run-Kept acts (start n c) (record {
        valid = v;
        capacity = same;
        list = empty;
        results = refl;
        holders = omega (
          arith,
          none_stand is_held n refl,
          none_stand is_accessing n refl,
          none_stand is_leaving n refl,
        );
      }) in
      (s, rw e e', v'.valid, v'.capacity, v'.list, v'.results)
