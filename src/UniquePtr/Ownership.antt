-- ===== src/UniquePtr/Ownership.antt =====
-- null/unique_ptr.h: the pointers given to unique_ptr against those owned, deleted and released.
use snippets_cc.Prelude.{
  ℕ, ◌+◌, ◌≡◌, refl, none, some, Option-cases, inl, inr, List, [], ◌∷◌, get_elem?, set, arith,
}
use snippets_cc.UniquePtr.{
  UniquePtr, make_null, from_pointer, from_pointer_deleter, swap, swap_in, release, convert, move,
  assign_null, reset,
}
use snippets_cc.UniquePtr.Program.{
  Program, Call, construct_null, construct, construct_with, construct_move, construct_convert,
  assign_move, assign_convert, assign_nullptr, reset_to, release_from, drop, with_variable,
  assign_from, call, run, initial,
}
use snippets_cc.UniquePtr.Count.{
  holds, count, count-to_list, owned, deletions, owned-set, owned-remove, deletions-destruct,
}

module _ {ℓ} {D : Type ℓ} where
  -- Every time that `q` was given, it is owned, was deleted or was released.
  abbrev pub Accounted : Program D → ℕ → Type 0
  Accounted st q =
      count st.given q ≡ owned st.variables q + deletions st.log q + count st.released q

  with_variable-Accounted :
      (xs : List (UniquePtr D)) (i : ℕ) (st : Program D) (f : UniquePtr D → Program D) (q : ℕ)
      → Accounted st q
      → ((x : UniquePtr D) → get_elem? xs i ≡ some x → Accounted (f x) q)
      → Accounted (with_variable xs i st f) q
  with_variable-Accounted xs i st f q ok go = elim (Option-cases (get_elem? xs i)) [
    | inl e ↦ rw (e, with_variable) ok
    | inr (x, e) ↦ rw (e, with_variable) (go x e)
  ]

  module _ (blank : D) (moved : D → D) where
    -- An assignment from a temporary that took over the pointer of `other`.
    assign_from-Accounted :
        (i j : ℕ) (t left other : UniquePtr D) (st : Program D) (q : ℕ)
        → Accounted st q
        → get_elem? st.variables j ≡ some other
        → holds t.p q ≡ holds other.p q
        → holds left.p q ≡ 0
        → Accounted (assign_from blank moved i j (t, left) st) q
    unfolding assign_from swap_in swap
    assign_from-Accounted i j t left other st q ok e same empty =
        let variables' = set st.variables j left in
        let l : owned variables' q + holds other.p q ≡ owned st.variables q =
          omega (arith, empty, owned-set st.variables j other left q e) in
        with_variable-Accounted variables' i st _ q ok (λ this e'.
          let s : owned (set variables' i t) q + holds this.p q
              ≡ owned variables' q + holds other.p q =
            omega (arith, same, owned-set variables' i this t q e') in
          omega (arith, ok, l, s, deletions-destruct this st.log q))

    call-Accounted :
        (c : Call D) (st : Program D) (q : ℕ) → Accounted st q → Accounted (call blank moved c st) q
    unfolding call make_null from_pointer from_pointer_deleter swap swap_in release convert move
        assign_null reset
    call-Accounted construct_null st q ok = omega (arith, ok)
    call-Accounted (construct p) st q ok = omega (arith, ok, count-to_list p st.given q)
    call-Accounted (construct_with p d) st q ok = omega (arith, ok, count-to_list p st.given q)
    call-Accounted (construct_move j) st q ok =
        with_variable-Accounted st.variables j st _ q ok
          (λ x e. omega (arith, ok, owned-set st.variables j x (make_null blank) q e))
    call-Accounted (construct_convert j) st q ok =
        with_variable-Accounted st.variables j st _ q ok (λ x e. omega (
          arith,
          ok,
          owned-set st.variables j x (record { deleter = moved x.deleter; p = none }) q e,
        ))
    call-Accounted (assign_move i j) st q ok =
        with_variable-Accounted st.variables j st _ q ok
          (λ x e. assign_from-Accounted i j _ _ x st q ok e refl refl)
    call-Accounted (assign_convert i j) st q ok =
        with_variable-Accounted st.variables j st _ q ok
          (λ x e. assign_from-Accounted i j _ _ x st q ok e refl refl)
    call-Accounted (assign_nullptr i) st q ok =
        with_variable-Accounted st.variables i st _ q ok (λ x e. omega (
          arith,
          ok,
          owned-set st.variables i x (make_null blank) q e,
          deletions-destruct x st.log q,
        ))
    call-Accounted (reset_to i p) st q ok = with_variable-Accounted st.variables i st _ q ok (λ x e.
        omega (
          arith,
          ok,
          owned-set st.variables i x (from_pointer blank p) q e,
          deletions-destruct x st.log q,
          count-to_list p st.given q,
        ))
    call-Accounted (release_from i) st q ok =
        with_variable-Accounted st.variables i st _ q ok (λ x e. omega (
          arith,
          ok,
          owned-set st.variables i x (record x { p = none }) q e,
          count-to_list x.p st.released q,
        ))
    call-Accounted (drop i) st q ok =
        with_variable-Accounted st.variables i st _ q ok (λ x e.
          omega (arith, ok, owned-remove st.variables i x q e, deletions-destruct x st.log q))

    run-Accounted :
        (cs : List (Call D)) (st : Program D) (q : ℕ)
        → Accounted st q
        → Accounted (run blank moved cs st) q
    unfolding run
    run-Accounted [] st q ok = ok
    run-Accounted (c ∷ cs) st q ok =
        run-Accounted cs (call blank moved c st) q (call-Accounted c st q ok)

-- After any sequence of calls of unique_ptr, self-assignments and conversions included, each pointer was
-- given to unique_ptr as many times as it is now owned by a variable, was passed to a deleter or was
-- released. So a pointer given once has one owner at most, is deleted once at most, and is not lost.
pub given-owned {ℓ} :
    {D : Type ℓ} (blank : D) (moved : D → D) (cs : List (Call D)) (q : ℕ)
    → let st = run blank moved cs initial in
      count st.given q ≡ owned st.variables q + deletions st.log q + count st.released q
given-owned blank moved cs q = run-Accounted blank moved cs initial q (omega arith)
