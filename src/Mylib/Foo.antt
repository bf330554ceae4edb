-- ===== src/Mylib/Foo.antt =====
-- system/mylib_classic.cc and system/mylib_result.cc: the function foo, with an error code as its out
-- parameter, with an exception, and with a boost::system::result.
use snippets_cc.Prelude.{ℕ, zero, suc, Bool, Option, none, some, if◌then◌else◌}
use snippets_cc.Mylib.{type1_a, type1_b, type2_a, type2_b, ErrorCode, no_code, make_error_code}

-- `foo (int v, error_code &ec)`: what `ec` is afterwards.
unfoldable pub foo : ℕ → ErrorCode → ErrorCode
foo (suc zero) ec = make_error_code type1_a
foo (suc (suc zero)) ec = make_error_code type1_b
foo (suc (suc (suc zero))) ec = make_error_code type2_a
foo (suc (suc (suc (suc zero)))) ec = make_error_code type2_b
foo _ ec = no_code

-- `foo (int v)`: the code of the system_error that it throws, if it throws. `failed` is Boost's
-- `error_code::operator bool`.
unfoldable pub foo_or_throw : (ErrorCode → Bool) → ℕ → Option ErrorCode
foo_or_throw failed v = let ec = foo v no_code in if failed ec then some ec else none

-- boost::system::result<void>
pub data Result : Type 0 where
  ok : Result
  failure : ErrorCode → Result

unfoldable pub foo_result : ℕ → Result
foo_result (suc zero) = failure (make_error_code type1_a)
foo_result (suc (suc zero)) = failure (make_error_code type1_b)
foo_result (suc (suc (suc zero))) = failure (make_error_code type2_a)
foo_result (suc (suc (suc (suc zero)))) = failure (make_error_code type2_b)
foo_result _ = ok

-- `result::error ()` of Boost: the code, `error_code ()` if there is a value. `value ()` throws it.
abbrev pub error : Result → ErrorCode
error ok = no_code
error (failure ec) = ec

abbrev pub thrown : Result → Option ErrorCode
thrown ok = none
thrown (failure ec) = some ec
