-- ===== src/Mylib/Equivalence.antt =====
-- system/mylib_classic.cc and system/mylib_result.cc: the versions of foo against each other, and their
-- codes against the conditions of system/mylib_error.h.
use snippets_cc.Prelude.{
  ℕ, zero, suc, ◌≡◌, refl, Bool, true, false, not, ◌&&◌, ◌||◌, ◌==◌, ◌<◌, arith,
}
use snippets_cc.Mylib.{
  type1_a, type1_b, type2_a, type2_b, Category, generic, system, error_category, condition_category,
  ErrorCode, ErrorCondition, success, type1, type2, no_code, no_condition, make_error_code,
  make_error_condition, default_error_condition,
}
use snippets_cc.Mylib.Foo.{foo, foo_or_throw, foo_result, error, thrown}

abbrev pub same_category : Category → Category → Bool
same_category generic generic = true
same_category system system = true
same_category error_category error_category = true
same_category condition_category condition_category = true
same_category _ _ = false

-- Two conditions are equal, as Boost compares them: by value and category.
abbrev pub same_condition : ErrorCondition → ErrorCondition → Bool
same_condition c d = c.value == d.value && same_category c.category d.category

-- The three versions of foo say the same: at any `v`, and whatever `ec` was, foo with an out parameter
-- leaves the code that the result holds, `error_code ()` if it holds none; and foo that throws throws
-- exactly the code that the result holds. Here `failed`, Boost's test of a code, holds of the codes whose
-- value is not 0.
pub foo-foo_result :
    (failed : ErrorCode → Bool)
    → ((ec : ErrorCode) → failed ec ≡ not (ec.value == 0))
    → (v : ℕ) (ec : ErrorCode)
    → (foo v ec ≡ error (foo_result v)) × (foo_or_throw failed v ≡ thrown (foo_result v))
unfolding foo foo_or_throw foo_result make_error_code
foo-foo_result failed h zero ec = (refl, rw (h no_code) refl)
foo-foo_result failed h (suc zero) ec = (refl, rw (h (make_error_code type1_a)) refl)
foo-foo_result failed h (suc (suc zero)) ec = (refl, rw (h (make_error_code type1_b)) refl)
foo-foo_result failed h (suc (suc (suc zero))) ec = (refl, rw (h (make_error_code type2_a)) refl)
foo-foo_result failed h (suc (suc (suc (suc zero)))) ec =
    (refl, rw (h (make_error_code type2_b)) refl)
foo-foo_result failed h (suc (suc (suc (suc (suc n))))) ec = (refl, rw (h no_code) refl)

-- Boost's `code == condition` on the codes that foo gives: a code of `error_category` meets the condition
-- that `default_error_condition` gives for it, and one of its own category and value; `error_code ()`
-- meets `error_condition ()`, and one of its own category and value.
abbrev pub Documented : (ErrorCode → ErrorCondition → Bool) → Type 0
Documented equal =
    ((ev : ℕ) (c : ErrorCondition)
      → equal (record { value = ev; category = error_category }) c ≡ (
          same_condition (default_error_condition ev) c
          || same_category error_category c.category && ev == c.value))
    × ((c : ErrorCondition)
        → equal no_code c
          ≡ (same_condition no_condition c || same_category system c.category && 0 == c.value))

is_not : (n k : ℕ) → k < 5 → (suc (suc (suc (suc (suc n)))) == k) ≡ false
is_not n k lt = ground arith

-- Where Boost compares a code with a condition as documented, and whatever `ec` was, the code that foo
-- leaves at `v` meets `condition::type1` exactly when `v` is 1 or 2, `condition::type2` exactly when `v` is
-- 3 or 4, and `error_condition ()` exactly when `v` is none of these; it never meets `condition::success`.
pub foo-condition :
    (equal : ErrorCode → ErrorCondition → Bool)
    → Documented equal
    → (v : ℕ) (ec : ErrorCode)
    → (equal (foo v ec) (make_error_condition type1) ≡ (v == 1 || v == 2))
      × (equal (foo v ec) (make_error_condition type2) ≡ (v == 3 || v == 4))
      × (equal (foo v ec) no_condition ≡ not ((v == 1 || v == 2) || (v == 3 || v == 4)))
      × (equal (foo v ec) (make_error_condition success) ≡ false)
unfolding foo make_error_code make_error_condition default_error_condition
foo-condition equal (own, none_set) zero ec = (none_set _, none_set _, none_set _, none_set _)
foo-condition equal (own, none_set) (suc zero) ec = (own 1 _, own 1 _, own 1 _, own 1 _)
foo-condition equal (own, none_set) (suc (suc zero)) ec = (own 2 _, own 2 _, own 2 _, own 2 _)
foo-condition equal (own, none_set) (suc (suc (suc zero))) ec = (own 3 _, own 3 _, own 3 _, own 3 _)
foo-condition equal (own, none_set) (suc (suc (suc (suc zero)))) ec =
    (own 4 _, own 4 _, own 4 _, own 4 _)
foo-condition equal (own, none_set) (suc (suc (suc (suc (suc n))))) ec =
    rw (is_not n 1 (omega arith)) (
      rw (is_not n 2 (omega arith)) (
        rw (is_not n 3 (omega arith))
          (rw (is_not n 4 (omega arith)) (none_set _, none_set _, none_set _, none_set _))))
