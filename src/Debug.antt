-- ===== src/Debug.antt =====
-- debug/trace.cc: the handler of failed assertions, the terminate handler, and a program that uses both. What goes to
-- stderr is a list of texts, the latest first. The names of types as `demangled_name` gives them, the positions in the source and the
-- stacktrace, whose printing may throw, come from the compiler and from Boost.
pub mod Reports
mod Tests
use Prim.Native.String.{String, ◌++◌}
use snippets_cc.Prelude.{ℕ, zero, suc, Bool, true, false, Option, none, some, List, [], ◌∷◌}

-- An exception: a std::exception with the name of its type and its `what ()`, or another one.
pub data Exception : Type 0 where
  std_exception : (type what : String) → Exception
  other : Exception

-- `boost::stacktrace::stacktrace ()` when it is printed.
pub data Trace : Type 0 where
  printed : String → Trace
  failed : Exception → Trace

-- The terminate handler: that of trace.cc, or the library's own.
pub data Handler : Type 0 where
  library verbose : Handler

pub record Process : Type 0 where
  pub handler : Handler
  pub output : List String

abbrev pub print : String → Process → Process
print text p = record p { output = text ∷ p.output }

-- How a call ends: it returns, throws, or aborts the process.
pub data Outcome : Type 0 where
  returned : Process → Outcome
  thrown : Exception → Process → Outcome
  aborted : Process → Outcome

-- Where an assertion stands.
pub record Position : Type 0 where
  pub file : String
  pub line : String
  pub function : String

-- The first line that a failed assertion prints.
unfoldable pub assertion_text : (expr : String) (msg : Option String) → Position → String
assertion_text expr (some msg) place =
    place.file ++ ":" ++ place.line ++ ": " ++ place.function ++ ": Assertion `(" ++ expr ++ ")&&("
    ++ msg ++ ")' failed.\n"
assertion_text expr none place =
    place.file ++ ":" ++ place.line ++ ": " ++ place.function ++ ": Assertion `" ++ expr
    ++ "' failed.\n"

-- The end of both handlers: the stacktrace and `std::abort ()`.
unfoldable pub abort_with : Trace → Process → Outcome
abort_with (printed trace) p = aborted (print trace (print "Backtrace:\n" p))
abort_with (failed e) p = thrown e (print "Backtrace:\n" p)

unfoldable pub assertion_failed_msg :
    (expr : String) (msg : Option String) → Position → Trace → Process → Outcome
unfolding assertion_text abort_with
assertion_failed_msg expr msg place trace p =
    abort_with trace (print (assertion_text expr msg place) p)

unfoldable pub assertion_failed : (expr : String) → Position → Trace → Process → Outcome
unfolding assertion_failed_msg
assertion_failed expr place trace p = assertion_failed_msg expr none place trace p

-- What the terminate handler prints first; `none` is no active exception.
unfoldable pub terminate_text : Option Exception → String
terminate_text (some (std_exception type what)) =
    "terminate called after throwing an instance of '" ++ type ++ "'\n  what(): " ++ what ++ "\n"
terminate_text (some other) = "terminate called after throwing an unknown exception.\n"
terminate_text none = "terminate called without an active exception.\n"

unfoldable pub terminate_handler : Option Exception → Trace → Process → Outcome
unfolding terminate_text abort_with
terminate_handler active trace p =
    abort_with trace (print (terminate_text active) (record p { handler = library }))

-- `std::terminate ()`: the handler is called, and when it throws, `std::terminate ()` again. The first number bounds these calls;
-- `none` means that they were not enough. The library's handler ends the process.
unfoldable pub terminate : ℕ → Option Exception → Trace → Process → Option Process
unfolding terminate_handler
terminate zero active trace p = none
terminate (suc calls) active trace p = elim p.handler [
  | library ↦ some p
  | verbose ↦ elim (terminate_handler active trace p) [
    | returned p' ↦ some p'
    | thrown e p' ↦ terminate calls (some e) trace p'
    | aborted p' ↦ some p'
  ]
]

-- The functions `bar` and `foo` of the program.
unfoldable pub bar : (type : String) (v : Bool) → Process → Outcome
bar type true p = returned p
bar type false p = thrown (std_exception type "v is false") p

unfoldable pub foo : Position → Trace → (v : Bool) → Process → Outcome
unfolding assertion_failed
foo place trace true p = returned p
foo place trace false p = assertion_failed "v" place trace p

-- The end of the process.
pub data Exit : Type 0 where
  exited killed : (output : List String) → Exit

abbrev pub exit_of : (calls : ℕ) → Trace → Outcome → Option Exit
exit_of calls trace (returned p) = some (exited p.output)
exit_of calls trace (aborted p) = some (killed p.output)
exit_of calls trace (thrown e p) = elim (terminate calls (some e) trace p) [
  | none ↦ none
  | some p' ↦ some (killed p'.output)
]

abbrev pub then_call : Outcome → (Process → Outcome) → Outcome
then_call (returned p) k = k p
then_call (thrown e p) k = thrown e p
then_call (aborted p) k = aborted p

-- `main`, with `v` and `w` for the constants that it passes to `bar` and `foo`.
unfoldable pub main : (calls : ℕ) (type : String) → Position → Trace → (v w : Bool) → Option Exit
unfolding terminate bar foo
main calls type place trace v w =
    exit_of calls trace
      (then_call (bar type v (record { handler = verbose; output = [] })) (foo place trace w))
