-- ===== src/Mylib/Selftest.antt =====
-- The functions test_foo of system/mylib_classic.cc and system/mylib_result.cc: whether their assertions
-- hold. `failed` and `equal` are Boost's tests of a code, and of a code against a condition.
use snippets_cc.Prelude.{◌≡◌, refl, Bool, true, false, not, ◌&&◌, ◌==◌}
use snippets_cc.Mylib.{
  ErrorCode, ErrorCondition, Error, type1_a, type2_a, Condition, type1, type2, no_code,
  no_condition, make_error_code, make_error_condition, default_error_condition,
}
use snippets_cc.Mylib.Foo.{foo, foo_result, ok, failure}
use snippets_cc.Mylib.Equivalence.{same_category, Documented}

-- `ec == ec'`: by value and category.
abbrev pub same_code : ErrorCode → ErrorCode → Bool
same_code a b = a.value == b.value && same_category a.category b.category

module _ (failed : ErrorCode → Bool) (equal : ErrorCode → ErrorCondition → Bool) where
  -- The assertions after `foo (v, ec)` for a success and for a failure.
  abbrev succeeds : ErrorCode → Bool
  succeeds ec = not (failed ec) && same_code ec no_code && equal ec no_condition

  abbrev fails_with : ErrorCode → Error → Condition → Bool
  fails_with ec e c =
      failed ec && same_code ec (make_error_code e) && equal ec (make_error_condition c)

  -- mylib_classic.cc
  unfoldable pub test_foo : ErrorCode → Bool
  test_foo ec =
      let ec0 = foo 0 ec in
      let ec1 = foo 1 ec0 in
      let ec3 = foo 3 ec1 in
      let ec5 = foo 5 ec3 in
      succeeds ec0 && fails_with ec1 type1_a type1 && fails_with ec3 type2_a type2 && succeeds ec5

  -- mylib_result.cc
  unfoldable pub test_foo_result : Bool
  test_foo_result = elim (foo_result 3) [
    | ok ↦ false
    | failure ec ↦ same_code ec (make_error_code type2_a) && equal ec (make_error_condition type2)
  ]

-- Where Boost's tests of codes and conditions are as documented, all the assertions of both tests hold.
pub test_foo_holds :
    (failed : ErrorCode → Bool) (equal : ErrorCode → ErrorCondition → Bool) (ec : ErrorCode)
    → ((ec : ErrorCode) → failed ec ≡ not (ec.value == 0))
    → Documented equal
    → (test_foo failed equal ec ≡ true) × (test_foo_result failed equal ≡ true)
unfolding test_foo test_foo_result foo foo_result make_error_code make_error_condition
    default_error_condition
test_foo_holds failed equal ec h (own, none_set) = (
  rw
      (
        h no_code,
        h (make_error_code type1_a),
        h (make_error_code type2_a),
        none_set no_condition,
        own 1 (make_error_condition type1),
        own 3 (make_error_condition type2),
      )
      refl,
  rw (own 3 (make_error_condition type2)) refl,
)
