-- ===== src/Mylib/Custom.antt =====
-- system/test_result.cc: a result with an error type of its own.
use Prim.Native.String.{String, ◌++◌}
use snippets_cc.Prelude.{Bool, true, false}

pub record Error : Type 0 where
  pub message : String

-- boost::system::result<void, my::error>
pub data Result : Type 0 where
  ok : Result
  failure : Error → Result

unfoldable pub foo : Bool → Result
foo true = ok
foo false = failure (record { message = "bad" })

-- `throw_exception_from_error`: the text of the exception, where `loc` is `loc.to_string ()`.
unfoldable pub throw_exception_from_error : Error → String → String
throw_exception_from_error e loc = e.message ++ " [location: " ++ loc ++ "]"
