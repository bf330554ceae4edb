-- ===== src/Debug/Tests.antt =====
-- debug/trace.cc: the program as it stands.
use snippets_cc.Prelude.{◌≡◌, refl, false, some, [], ◌∷◌}
use snippets_cc.Debug.{
  Position, printed, failed, other, main, terminate, terminate_handler, terminate_text, abort_with,
  bar, foo, assertion_failed, assertion_failed_msg, assertion_text, killed,
}
use snippets_cc.Prelude.{true}

abbrev place : Position
place = record { file = "trace.cc"; line = "84"; function = "void foo(bool)" }

-- `foo` is not called.
bar_fails :
    main 2 "boost::wrapexcept<std::runtime_error>" place (printed " 0# foo\n") false false
    ≡ some (
        killed (
          " 0# foo\n" ∷ "Backtrace:\n"
          ∷ "terminate called after throwing an instance of 'boost::wrapexcept<std::runtime_error>'\n  what(): v is false\n"
          ∷ []))
unfolding main terminate terminate_handler terminate_text abort_with bar foo
bar_fails = refl

-- The stacktrace of a failed assertion cannot be printed.
foo_fails :
    main 2 "" place (failed other) true false
    ≡ some (
        killed (
          "Backtrace:\n" ∷ "terminate called after throwing an unknown exception.\n"
          ∷ "Backtrace:\n" ∷ "trace.cc:84: void foo(bool): Assertion `v' failed.\n" ∷ []))
unfolding main terminate terminate_handler terminate_text abort_with bar foo assertion_failed
    assertion_failed_msg assertion_text
foo_fails = refl
