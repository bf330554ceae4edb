-- ===== src/Mylib.antt =====
-- system/mylib_error.h: the error codes and the error conditions of mylib, their categories and the
-- mapping from codes to conditions. An `int` is a natural number here: a negative one is, like a large
-- one, none of the enumerators. (For foo see Mylib/Foo.antt.)
pub mod Foo
pub mod Equivalence
pub mod Custom
pub mod Selftest
mod Tests
use Prim.Native.String.{String}
use snippets_cc.Prelude.{ℕ, zero, suc, Option, none, some}

-- enum class error and enum class condition
pub data Error : Type 0 where
  success type1_a type1_b type2_a type2_b : Error

pub data Condition : Type 0 where
  success type1 type2 : Condition

-- The objects that an error_code or an error_condition may name as its category: Boost's generic and
-- system categories, `error_category ()` and `condition_category ()`.
pub data Category : Type 0 where
  generic system error_category condition_category : Category

-- boost::system::error_code and boost::system::error_condition
pub record ErrorCode : Type 0 where
  pub value : ℕ
  pub category : Category

pub record ErrorCondition : Type 0 where
  pub value : ℕ
  pub category : Category

-- `error_code ()` and `error_condition ()`
abbrev pub no_code : ErrorCode
no_code = record { value = 0; category = system }

abbrev pub no_condition : ErrorCondition
no_condition = record { value = 0; category = generic }

-- `static_cast<int>`, and `static_cast<error> (ev)` as a switch reads it.
abbrev pub error_int : Error → ℕ
error_int success = 0
error_int type1_a = 1
error_int type1_b = 2
error_int type2_a = 3
error_int type2_b = 4

abbrev pub error_of : ℕ → Option Error
error_of zero = some success
error_of (suc zero) = some type1_a
error_of (suc (suc zero)) = some type1_b
error_of (suc (suc (suc zero))) = some type2_a
error_of (suc (suc (suc (suc zero)))) = some type2_b
error_of _ = none

abbrev pub condition_int : Condition → ℕ
condition_int success = 0
condition_int type1 = 1
condition_int type2 = 2

abbrev pub condition_of : ℕ → Option Condition
condition_of zero = some success
condition_of (suc zero) = some type1
condition_of (suc (suc zero)) = some type2
condition_of _ = none

-- `make_error_code` and `make_error_condition`
unfoldable pub make_error_code : Error → ErrorCode
make_error_code e = record { value = error_int e; category = error_category }

unfoldable pub make_error_condition : Condition → ErrorCondition
make_error_condition c = record { value = condition_int c; category = condition_category }

-- The methods `name` and `message` of the two categories.
unfoldable pub name : Category → Option String
name error_category = some "mylib"
name condition_category = some "mylib"
name _ = none

unfoldable pub error_message : ℕ → String
error_message ev = elim (error_of ev) [
  | some success ↦ "success"
  | some type1_a ↦ "error type1 a"
  | some type1_b ↦ "error type1 b"
  | some type2_a ↦ "error type2 a"
  | some type2_b ↦ "error type2 b"
  | none ↦ "unknown error code"
]

unfoldable pub condition_message : ℕ → String
condition_message ev = elim (condition_of ev) [
  | some success ↦ "success"
  | some type1 ↦ "error type1"
  | some type2 ↦ "error type2"
  | none ↦ "unknown error condition"
]

-- `error_category_impl::default_error_condition`
unfoldable pub default_error_condition : ℕ → ErrorCondition
default_error_condition ev = elim (error_of ev) [
  | some success ↦ no_condition
  | some type1_a ↦ make_error_condition type1
  | some type1_b ↦ make_error_condition type1
  | some type2_a ↦ make_error_condition type2
  | some type2_b ↦ make_error_condition type2
  | none ↦ record { value = ev; category = error_category }
]
