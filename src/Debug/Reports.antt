-- ===== src/Debug/Reports.antt =====
-- debug/trace.cc: what the program prints before it ends.
use Prim.Native.String.{String}
use snippets_cc.Prelude.{ℕ, suc, ◌+◌, ◌≡◌, refl, Bool, true, false, none, some, [], ◌∷◌, arith}
use snippets_cc.Debug.{
  std_exception, Trace, printed, failed, Position, Exit, exited, killed, assertion_text,
  terminate_text, terminate_handler, assertion_failed_msg, assertion_failed, abort_with, terminate,
  bar, foo, main,
}

-- What the program prints, the latest first, when `bar` or `foo` is the first to fail, or neither is.
unfoldable pub expected : (type : String) → Position → Trace → (v w : Bool) → Exit
unfolding terminate_text assertion_text
expected type place (printed trace) true true = exited []
expected type place (failed e) true true = exited []
expected type place (printed trace) false w =
    killed (trace ∷ "Backtrace:\n" ∷ terminate_text (some (std_exception type "v is false")) ∷ [])
expected type place (failed e) false w =
    killed ("Backtrace:\n" ∷ terminate_text (some (std_exception type "v is false")) ∷ [])
expected type place (printed trace) true false =
    killed (trace ∷ "Backtrace:\n" ∷ assertion_text "v" none place ∷ [])
expected type place (failed e) true false =
    killed (
      "Backtrace:\n"
      ∷ terminate_text (some e)
      ∷ "Backtrace:\n"
      ∷ assertion_text "v" none place
      ∷ [])

-- Whatever `main` passes to `bar` and `foo`, and also when the printing of the stacktrace throws: two calls of
-- `std::terminate` are enough, since the handler has given itself up before it prints. If both calls pass, `main` returns and
-- nothing is printed; otherwise the process is killed, and has printed the message of the first that fails, an exception of
-- `bar` before an assertion of `foo`, followed by the stacktrace, or by the message of the exception that printing it has thrown
-- if the terminate handler was not running already.
pub main-expected :
    (calls : ℕ) (type : String) (place : Position) (trace : Trace) (v w : Bool)
    → main (calls + 2) type place trace v w ≡ some (expected type place trace v w)
unfolding main terminate terminate_handler abort_with bar foo assertion_failed assertion_failed_msg
    expected
main-expected calls type place trace v w =
    let two : calls + 2 ≡ suc (suc calls) = omega arith in rw two (go trace v w)
  where
    go :
        (trace : Trace) (v w : Bool)
        → main (suc (suc calls)) type place trace v w ≡ some (expected type place trace v w)
    go (printed trace) true true = refl
    go (failed e) true true = refl
    go (printed trace) false w = refl
    go (failed e) false w = refl
    go (printed trace) true false = refl
    go (failed e) true false = refl
