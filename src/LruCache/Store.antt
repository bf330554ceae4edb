-- ===== src/LruCache/Store.antt =====
-- null/lru_cache.h: put against the write to the recency list, on each of its three branches.
use mathlib.Core.Logic.{ite, if_pos, if_neg}
use snippets_cc.Prelude.{
  ℕ, ◌+◌, ◌-◌, ◌≤◌, ◌<◌, ◌≡◌, refl, sym, ◌∙◌, ap, inl, inr, some, none, List, [], ◌∷◌, ◌++◌,
  All-map, length, take, leb, take_of_length-le, take-cons, Option-cases, Bool-cases, arith, ◌⊎◌,
  ◌≢◌, All, none≢some,
}
use snippets_cc.LruCache.Nodes.{Node, IsDistinct, splice_front, pairs, address}
use snippets_cc.LruCache.{LruCache, erase, insert, make_room, push_front, put}
use snippets_cc.LruCache.Recency.{store, find}
use snippets_cc.LruCache.Linked.{
  Unlinks, address-none-All, remove-absent, find-absent, address-All, unlink-Unlinks,
  assign-Unlinks, address-Unlinks, find-Unlinks,
}
use snippets_cc.LruCache.Evict.{
  back-pop_back, All-init, IsDistinct-init, length-init, take-init, address-init, address-last,
  length-pairs,
}
use snippets_cc.LruCache.Refine.{IsValid, entries, Moved, Moved-IsValid}

module _ {ℓ} {K V : Type ℓ} (dec : Discrete K) where
  -- What `put` must leave behind.
  pub record Stored (c : LruCache K V) (key : K) (value : V) (c' : LruCache K V) : Type ℓ where
    pub valid : IsValid dec c'
    pub capacity : c'.capacity ≡ c.capacity
    pub stored : entries c' ≡ store dec c.capacity key value (entries c)
    pub pointers :
        (q : K) (p : ℕ)
        → c.map q ≡ some p
        → (c'.map q ≡ some p) ⊎ ((find dec q (entries c') ≡ none) × All (λ n. n.addr ≢ p) c'.list)

  -- A cache with room for a node, whose other entries are the first of `c`.
  record Roomy (c : LruCache K V) (key : K) (c' : LruCache K V) : Type ℓ where
    valid : IsValid dec c'
    capacity : c'.capacity ≡ c.capacity
    room : length c'.list < c'.capacity
    absent : address dec key c'.list ≡ none
    kept : entries c' ≡ take (c.capacity - 1) (entries c)
    fresh : c'.fresh ≡ c.fresh
    pointers :
        (q : K) (p : ℕ)
        → c.map q ≡ some p
        → (c'.map q ≡ some p) ⊎ ((address dec q c'.list ≡ none) × All (λ n. n.addr ≢ p) c'.list)

  module _ (c : LruCache K V) (key : K) (value : V) (v : IsValid dec c) where
    put-hit :
        {it : ℕ} {n : Node K V} {r : List (Node K V)}
        → address dec key c.list ≡ some it
        → Unlinks it n c.list r
        → n.first ≡ key
        → (c' : LruCache K V) × (put dec c key value ≡ some c') × Stored c key value c'
    unfolding put splice_front Moved store address
    put-hit {n} {r} e u k =
        let (l, a, u') = assign-Unlinks value u in
        let m = Moved-IsValid dec u v in
        let (_, rest) = find-Unlinks dec key u k v.distinct in
        (
          Moved dec c (record n { second = value }) r,
          rw (v.linked key, e, put, a, unlink-Unlinks u'),
          record {
            valid = record {
              positive = m.positive;
              bounded = m.bounded;
              distinct = m.distinct;
              linked = m.linked;
              allocated = m.allocated;
            };
            capacity = refl;
            stored =
                rw (rest, k)
                  (sym (
                    take_of_length-le c.capacity ((key, value) ∷ pairs r)
                      (omega (arith, length-pairs r, m.bounded))));
            pointers = λ q p h. inl h;
          },
        )

    push-pointers :
        {c' : LruCache K V}
        → Roomy c key c'
        → address dec key c.list ≡ none
        → (q : K) (p : ℕ) → c.map q ≡ some p
        → (insert dec key c'.fresh c'.map q ≡ some p)
          ⊎ ((find dec q ((key, value) ∷ entries c') ≡ none)
              × All (λ n. n.addr ≢ p) (push_front dec c' key value).list)
    unfolding push_front find
    push-pointers {c'} h miss q p e = elim (dec key q) [
      | yes k ↦ absurd (none≢some (sym miss ∙ sym (v.linked key) ∙ ap c.map k ∙ e))
      | no k ↦ elim (h.pointers q p e) [
        | inl kept ↦ inl (rw (if_neg _ k) kept)
        | inr (gone, apart) ↦
            let below : p < c.fresh =
              address-All dec (λ a. a < c.fresh) q c.list v.distinct (sym (v.linked q) ∙ e)
                v.allocated in
            inr (rw (if_neg _ k) (find-absent dec q c'.list gone), (omega (arith, h.fresh), apart))
      ]
    ]

    push-Stored :
        {c' : LruCache K V}
        → Roomy c key c'
        → address dec key c.list ≡ none
        → Stored c key value (push_front dec c' key value)
    unfolding push_front store address
    push-Stored {c'} h miss = record {
      valid = record {
        positive = h.valid.positive;
        bounded = omega (arith, h.room);
        distinct = (
          All-map _ _ (λ n p. λ e. omega arith) c'.list h.valid.allocated,
          address-none-All dec key c'.list h.absent,
          h.valid.distinct,
        );
        linked = λ q. ap (ite (dec key q) (some c'.fresh)) (h.valid.linked q);
        allocated = (omega arith, All-map _ _ (λ n p. omega arith) c'.list h.valid.allocated);
      };
      capacity = h.capacity;
      stored = rw (
        remove-absent dec key c.list miss,
        take-cons c.capacity (key, value) (entries c) v.positive,
        h.kept,
      );
      pointers = λ q p e. push-pointers h miss q p e;
    }

    -- The capacity is reached: the last node goes, and its key with it.
    evict-Roomy :
        (last : Node K V) {r : List (Node K V)}
        → c.list ≡ r ++ last ∷ []
        → c.capacity ≤ length c.list
        → address dec key c.list ≡ none
        → Roomy c key (record c { map = erase dec last.first c.map; list = r })
    evict-Roomy last {r} e full miss =
        let d : IsDistinct (r ++ last ∷ []) = rw e at v.distinct in
        let same = address-init dec r last d in
        let size : length c.list ≡ length r + 1 = ap length e ∙ length-init r last in
        let n : c.capacity - 1 ≡ length r = omega (arith, v.bounded) in
        record {
          valid = record {
            positive = v.positive;
            bounded = omega arith;
            distinct = IsDistinct-init r last d;
            linked = λ q.
                ap (ite (dec last.first q) none) (v.linked q ∙ ap (address dec q) e) ∙ sym (same q);
            allocated = (All-init _ r last (rw e at v.allocated)).0;
          };
          capacity = refl;
          room = omega arith;
          absent = elim (dec last.first key) [
            | yes p ↦
                same key ∙ if_pos (dec last.first key) p none (address dec key (r ++ last ∷ []))
            | no p ↦
                same key
                ∙ if_neg (dec last.first key) p none (address dec key (r ++ last ∷ []))
                ∙ sym (ap (address dec key) e)
                ∙ miss
          ];
          kept = sym (
              ap (λ m. take m (entries c)) n
              ∙ ap (λ l. take (length r) (pairs l)) e
              ∙ take-init r last);
          fresh = refl;
          pointers = λ q p h.
              let there = sym (ap (address dec q) e) ∙ sym (v.linked q) ∙ h in
              elim (dec last.first q) [
                | yes k ↦
                    let gone =
                      same q ∙ if_pos (dec last.first q) k none (address dec q (r ++ last ∷ [])) in
                    inr (gone, address-last dec q r last d gone there)
                | no k ↦ inl (rw (if_neg _ k) h)
              ];
        }

    make_room-Roomy :
        address dec key c.list ≡ none
        → (c' : LruCache K V) × (make_room dec c ≡ some c') × Roomy c key c'
    unfolding make_room
    make_room-Roomy miss = elim (Bool-cases (leb c.capacity (length c.list))) [
      | inl full ↦
          let le : c.capacity ≤ length c.list = ground arith in
          let (last, r, b, p, e) = back-pop_back c.list (omega arith) in
          (_, rw (full, b, p), evict-Roomy last e le miss)
      | inr room ↦
          let lt : length c.list < c.capacity = ground arith in
          (
            c,
            rw room,
            record {
              valid = v;
              capacity = refl;
              room = lt;
              absent = miss;
              fresh = refl;
              pointers = λ q p h. inl h;
              kept = sym (take_of_length-le _ _ (omega (arith, length-pairs c.list)));
            },
          )
    ]

    put-miss :
        address dec key c.list ≡ none
        → (c' : LruCache K V) × (put dec c key value ≡ some c') × Stored c key value c'
    unfolding put
    put-miss miss =
        let (c', e, h) = make_room-Roomy miss in
        (push_front dec c' key value, rw (v.linked key, miss, put, e), push-Stored h miss)

    pub put-Stored : (c' : LruCache K V) × (put dec c key value ≡ some c') × Stored c key value c'
    put-Stored = elim (Option-cases (address dec key c.list)) [
      | inl miss ↦ put-miss miss
      | inr (it, hit) ↦
          let (n, r, u, k) = address-Unlinks dec key it c.list v.distinct hit in put-hit hit u k
    ]

    -- `put` on a valid cache runs into no undefined behaviour. It keeps the invariant and the
    -- capacity, and leaves the pair in front of the pairs of the other keys, as many of these as the
    -- capacity allows, the most recently used ones.
    pub put_refines :
        (c' : LruCache K V) × (put dec c key value ≡ some c')
        × IsValid dec c'
        × (c'.capacity ≡ c.capacity)
        × (entries c' ≡ store dec c.capacity key value (entries c))
    put_refines = let (c', e, s) = put-Stored in (c', e, s.valid, s.capacity, s.stored)
