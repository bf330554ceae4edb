-- ===== src/Mylib/Tests.antt =====
-- The theorems on foo with Boost's comparisons written out.
use snippets_cc.Prelude.{◌≡◌, refl, if◌then◌else◌, Bool, false, not, ◌&&◌, ◌||◌, ◌==◌}
use snippets_cc.Mylib.{
  error_category, ErrorCode, ErrorCondition, success, type1, type2, no_code, no_condition,
  make_error_condition, default_error_condition, error_message,
}
use snippets_cc.Mylib.Foo.{foo}
use snippets_cc.Mylib.Equivalence.{same_category, same_condition, Documented, foo-condition}

abbrev failed : ErrorCode → Bool
failed ec = not (ec.value == 0)

-- Boost's comparison, with error_condition () as the condition of each code of its own categories.
abbrev mapped : ErrorCode → ErrorCondition
mapped ec =
    if same_category ec.category error_category
    then default_error_condition ec.value
    else no_condition

abbrev equal : ErrorCode → ErrorCondition → Bool
equal ec c =
    same_condition (mapped ec) c || same_category ec.category c.category && ec.value == c.value

equal-Documented : Documented equal
equal-Documented = (λ ev c. refl, λ c. refl)

foo-condition_example :
    (equal (foo 2 no_code) (make_error_condition type1) ≡ (2 == 1 || 2 == 2))
    × (equal (foo 2 no_code) (make_error_condition type2) ≡ (2 == 3 || 2 == 4))
    × (equal (foo 2 no_code) no_condition ≡ not ((2 == 1 || 2 == 2) || (2 == 3 || 2 == 4)))
    × (equal (foo 2 no_code) (make_error_condition success) ≡ false)
foo-condition_example = foo-condition equal equal-Documented 2 no_code

messages : (error_message 1 ≡ "error type1 a") × (error_message 9 ≡ "unknown error code")
unfolding error_message
messages = (refl, refl)
