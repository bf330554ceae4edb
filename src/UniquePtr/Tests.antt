-- ===== src/UniquePtr/Tests.antt =====
-- A run of unique_ptr, and the theorem at it.
use snippets_cc.Prelude.{ℕ, ◌+◌, ◌≡◌, refl, some, List, [], ◌∷◌}
use snippets_cc.UniquePtr.{
  make_null, from_pointer, from_pointer_deleter, destruct, swap, swap_in, move, reset,
}
use snippets_cc.UniquePtr.Program.{
  Call, construct_with, assign_move, reset_to, drop, assign_from, call, run, initial,
}
use snippets_cc.UniquePtr.Count.{count, owned, deletions}
use snippets_cc.UniquePtr.Ownership.{given-owned}

-- The default deleter is 0. A pointer with deleter 5 is assigned to itself and then reset.
abbrev calls : List (Call ℕ)
calls = construct_with (some 1) 5 ∷ assign_move 0 0 ∷ reset_to 0 (some 2) ∷ drop 0 ∷ []

given-owned_example :
    let st = run 0 (λ d. d) calls initial in
    count st.given 2 ≡ owned st.variables 2 + deletions st.log 2 + count st.released 2
given-owned_example = given-owned 0 (λ d. d) calls 2

-- `reset` deletes the old pointer with deleter 5, and leaves the default deleter for the new one.
reset_lem : (run 0 (λ d. d) calls initial).log ≡ (5, 1) ∷ (0, 2) ∷ []
unfolding run call make_null from_pointer from_pointer_deleter destruct swap swap_in move reset
    assign_from
reset_lem = refl
