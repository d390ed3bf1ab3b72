-- ===== src/Cli/Output/Checks.antt =====
-- src/cli/cli_output.c and src/cli/commands.c: the results of the assertions, and of a run.
use http_runtime.Base.{
  ℕ, ◌+◌, Bool, true, false, Option, none, some, List, [], ◌∷◌, ◌++◌, if◌then◌else◌, length, Bytes,
  codes, ℤ, pos,
}
use http_runtime.Assertion.{
  Value, int_value, string_value, byte_value, header_value, AssertionType, status_eq, body_contains,
  header_contains, AssertionResult,
}
use http_runtime.RunPlan.{RequestCaseResult, RunResult}
use http_runtime.Cli.Output.{print_byte_value}
use http_runtime.Cli.Output.Decimal.{print_nat, print_int}
use http_runtime.Cli.Output.Lines.{print_lines}
use http_runtime.Cli.Output.Summary.{print_response_summary}

-- U+2713 and U+2717 in UTF-8
abbrev pub tick : Bytes
tick = 0xe2 ∷ 0x9c ∷ 0x93 ∷ []

abbrev pub cross : Bytes
cross = 0xe2 ∷ 0x9c ∷ 0x97 ∷ []

abbrev pub mark : Bool → Bytes
mark passed = codes "  " ++ (if passed then tick else cross)

-- The members of the union. A result of a type has a value for that type, or the zeros of its
-- `memset`.
abbrev pub as_int : Value → ℤ
as_int (int_value n) = n
as_int _ = pos 0

abbrev pub as_bytes : Value → Option Bytes
as_bytes (byte_value data_bytes) = data_bytes
as_bytes _ = none

abbrev pub as_name : Value → Option Bytes
as_name (header_value name value) = name
as_name _ = none

abbrev pub as_value : Value → Option Bytes
as_value (header_value name value) = value
as_value _ = none

-- `actual.type == VALUE_STRING && actual.as.string_value`
abbrev pub as_text : Value → Option Bytes
as_text (string_value text) = text
as_text _ = none

abbrev pub byte_count : Option Bytes → ℕ
byte_count none = 0
byte_count (some data_bytes) = length data_bytes

abbrev pub or_null : Option Bytes → Bytes
or_null none = codes "(null)"
or_null (some s) = s

unfoldable pub print_status : Bool → ℤ → ℤ → Bytes
unfolding print_int
print_status passed expected actual =
    mark passed
    ++ codes " status == "
    ++ print_int expected
    ++ codes "\n"
    ++ (if passed
        then []
        else codes "    expected: "
          ++ print_int expected
          ++ codes "\n    actual:   "
          ++ print_int actual
          ++ codes "\n")

-- A pattern whose copy failed has no length here, where the program prints the one it kept.
unfoldable pub print_body : Bool → Option Bytes → Option Bytes → Bytes
unfolding print_byte_value print_nat
print_body passed expected actual =
    mark passed
    ++ codes " body contains "
    ++ print_byte_value expected
    ++ codes "\n"
    ++ (if passed
        then []
        else codes "    expected: "
          ++ print_byte_value expected
          ++ codes "\n    expected bytes: "
          ++ print_nat (byte_count expected)
          ++ codes "\n    actual bytes:   "
          ++ print_nat (byte_count actual)
          ++ codes "\n")

infixr 5 ◌<>◌
-- Two prints, the second of which may run out of fuel
abbrev pub ◌<>◌ : Bytes → Option Bytes → Option Bytes
out <> none = none
out <> some more = some (out ++ more)

unfoldable pub print_actual_headers : Option Bytes → Option Bytes
unfolding print_lines
print_actual_headers none = some (codes "    actual headers: (none)\n")
print_actual_headers (some text) =
    codes "    actual headers:\n" <> print_lines (length text + 1) text

abbrev pub print_message : Option Bytes → Bytes
print_message none = []
print_message (some message) = codes "    message: " ++ message ++ codes "\n"

abbrev pub and_message : Option Bytes → Option Bytes → Option Bytes
and_message message none = none
and_message message (some out) = some (out ++ print_message message)

abbrev pub expected_header : AssertionResult → Bytes
expected_header r =
    or_null (as_name r.expected) ++ codes ": " ++ or_null (as_value r.expected) ++ codes "\n"

abbrev pub header_failure : AssertionResult → Bytes
header_failure r =
    mark r.passed
    ++ codes " header contains "
    ++ expected_header r
    ++ codes "    expected header: "
    ++ expected_header r

unfoldable pub print_header : AssertionResult → Option Bytes
unfolding print_actual_headers
print_header r =
    if r.passed
    then some (mark r.passed ++ codes " header contains " ++ expected_header r)
    else header_failure r <> and_message r.message (print_actual_headers (as_text r.actual))

abbrev pub print_as : AssertionType → AssertionResult → Option Bytes
print_as status_eq r = some (print_status r.passed (as_int r.expected) (as_int r.actual))
print_as body_contains r = some (print_body r.passed (as_bytes r.expected) (as_bytes r.actual))
print_as header_contains r = print_header r

-- `none` is the end of the fuel of the loop over the lines.
unfoldable pub print_assertion_result : AssertionResult → Option Bytes
unfolding print_status print_body print_header
print_assertion_result r = print_as r.type r

abbrev pub and_then : Option Bytes → Option Bytes → Option Bytes
and_then none more = none
and_then (some out) more = out <> more

unfoldable pub print_assertion_results : List AssertionResult → Option Bytes
unfolding print_assertion_result
print_assertion_results [] = some []
print_assertion_results (r ∷ results) =
    and_then (print_assertion_result r) (print_assertion_results results)

abbrev pub verdict : Bool → Bytes
verdict true = codes "\nAssertion Result: PASS\n"
verdict false = codes "\nAssertion Result: FAIL\n"

-- The results, and below them the verdict; nothing when there are none.
unfoldable pub print_checks : List AssertionResult → Bool → Option Bytes
unfolding print_assertion_results
print_checks [] ok = some []
print_checks (r ∷ results) ok =
    codes "\nAssertions:\n" <> and_then (print_assertion_results (r ∷ results)) (some (verdict ok))

module _ (fixed3 : ℕ → Bytes) where
  unfoldable pub print_case : ℕ → RequestCaseResult → Option Bytes
  unfolding print_response_summary print_checks
  print_case i r = elim r.response [
    | none ↦ some (codes "Request " ++ print_nat (i + 1) ++ codes " failed or timed out.\n")
    | some response ↦
        print_response_summary fixed3 (some response)
        <> print_checks r.assertion_results r.assertions_ok
  ]

  unfoldable pub print_cases : ℕ → List RequestCaseResult → Option Bytes
  unfolding print_case
  print_cases i [] = some []
  print_cases i (r ∷ results) = and_then (print_case i r) (print_cases (i + 1) results)

  unfoldable pub print_run_result : RunResult → Option Bytes
  unfolding print_cases
  print_run_result result = print_cases 0 result.case_results
