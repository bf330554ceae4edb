-- ===== src/UniquePtr/Program.antt =====
-- Programs over variables of type unique_ptr. A call on a variable that is not there is no call.
use snippets_cc.Prelude.{ℕ, zero, suc, Option, none, some, List, [], ◌∷◌, ◌++◌, get_elem?, set}
use snippets_cc.UniquePtr.{
  UniquePtr, Log, make_null, from_pointer, from_pointer_deleter, destruct, swap_in, release,
  convert, move, assign_null, reset,
}

-- The variables, the calls of deleters, and the pointers given to and released by unique_ptr.
pub record Program {ℓ} (D : Type ℓ) : Type ℓ where
  pub variables : List (UniquePtr D)
  pub log : Log D
  pub given : List ℕ
  pub released : List ℕ

pub data Call {ℓ} (D : Type ℓ) : Type ℓ where
  construct_null : Call D
  construct : (p : Option ℕ) → Call D
  construct_with : (p : Option ℕ) (d : D) → Call D
  construct_move : (j : ℕ) → Call D
  construct_convert : (j : ℕ) → Call D
  assign_move : (i j : ℕ) → Call D
  assign_convert : (i j : ℕ) → Call D
  assign_nullptr : (i : ℕ) → Call D
  reset_to : (i : ℕ) (p : Option ℕ) → Call D
  release_from : (i : ℕ) → Call D
  drop : (i : ℕ) → Call D

abbrev pub to_list {ℓ} : {A : Type ℓ} → Option A → List A
to_list none = []
to_list (some a) = a ∷ []

module _ {ℓ} {D : Type ℓ} where
  abbrev pub with_variable :
      List (UniquePtr D) → ℕ → Program D → (UniquePtr D → Program D) → Program D
  with_variable xs i st f = elim (get_elem? xs i) [ none ↦ st | some x ↦ f x ]

  -- The variable that goes out of scope.
  abbrev pub remove : List (UniquePtr D) → ℕ → List (UniquePtr D)
  remove [] i = []
  remove (x ∷ xs) zero = xs
  remove (x ∷ xs) (suc i) = x ∷ remove xs i

-- `moved` is what a move leaves of a deleter.
module _ {ℓ} {D : Type ℓ} (blank : D) (moved : D → D) where
  -- The end of the two assignments from `other`, of which `left` is left in variable `j`: the value is in the
  -- temporary `t` before `*this` is read, so a self-assignment reads what the move left.
  unfoldable pub assign_from : ℕ → ℕ → UniquePtr D × UniquePtr D → Program D → Program D
  assign_from i j (t, left) st =
      let variables' = set st.variables j left in
      with_variable variables' i st (λ this.
        let (this', log') = swap_in this t st.log in
        record st { variables = set variables' i this'; log = log' })

  unfoldable pub call : Call D → Program D → Program D
  call construct_null st = record st { variables = make_null blank ∷ st.variables }
  call (construct p) st = record st {
    variables = from_pointer blank p ∷ st.variables;
    given = to_list p ++ st.given;
  }
  call (construct_with p d) st = record st {
    variables = from_pointer_deleter p d ∷ st.variables;
    given = to_list p ++ st.given;
  }
  call (construct_move j) st = with_variable st.variables j st (λ other.
      let (x, left) = move blank other in record st { variables = x ∷ set st.variables j left })
  call (construct_convert j) st = with_variable st.variables j st (λ other.
      let (x, left) = convert moved other in record st { variables = x ∷ set st.variables j left })
  call (assign_move i j) st =
      with_variable st.variables j st (λ other. assign_from i j (move blank other) st)
  call (assign_convert i j) st =
      with_variable st.variables j st (λ other. assign_from i j (convert moved other) st)
  call (assign_nullptr i) st = with_variable st.variables i st (λ this.
      let (this', log') = assign_null blank this st.log in
      record st { variables = set st.variables i this'; log = log' })
  call (reset_to i p) st = with_variable st.variables i st (λ this.
      let (this', log') = reset blank p this st.log in
      record st { variables = set st.variables i this'; log = log'; given = to_list p ++ st.given })
  call (release_from i) st = with_variable st.variables i st (λ this.
      let (q, this') = release this in
      record st { variables = set st.variables i this'; released = to_list q ++ st.released })
  call (drop i) st =
      with_variable st.variables i st
        (λ x. record st { variables = remove st.variables i; log = destruct x st.log })

  unfoldable pub run : List (Call D) → Program D → Program D
  run [] st = st
  run (c ∷ cs) st = run cs (call c st)

abbrev pub initial {ℓ} : {D : Type ℓ} → Program D
initial = record { variables = []; log = []; given = []; released = [] }
