-- ===== src/Assertion/Eval.antt =====
-- `eval_assertion` of src/core/assertion.c.
pub mod Holds
use http_runtime.Base.{
  ℕ, Bool, true, false, ◌||◌, Option, none, some, ◌==◌, if◌then◌else◌, length, take, Bytes, codes,
}
use http_runtime.Models.{Response}
use http_runtime.Assertion.{
  Value, none_value, int_value, string_value, bool_value, double_value, byte_value, header_value,
  AssertionType, status_eq, body_contains, Assertion, AssertionResult, check_equal, bytes_contains,
}
use http_runtime.Assertion
use http_runtime.Assertion.Header
use http_runtime.Assertion.Header.{until}

-- `{0}`
abbrev pub zero_result : AssertionResult
zero_result = record {
  type = status_eq;
  passed = false;
  expected = none_value;
  actual = none_value;
  message = none;
}

abbrev pub begun : AssertionType → Value → AssertionResult
begun type expected = record zero_result { type = type; expected = expected }

abbrev pub refuse : AssertionResult → Bytes → AssertionResult
refuse r message = record r { message = some message }

-- A decided check: the actual value, and the message by its outcome.
abbrev pub settle : AssertionResult → Value → Bool → Bytes → Bytes → AssertionResult
settle r actual passed yes_text no_text = record r {
  passed = passed;
  actual = actual;
  message = some (if passed then yes_text else no_text);
}

unfoldable pub eval_status : Value → Response → AssertionResult
unfolding check_equal
eval_status (int_value n) resp =
    let actual = int_value resp.status_code in
    settle (begun status_eq (int_value n)) actual (check_equal actual (int_value n))
      (codes "Status assertion passed") (codes "Status assertion failed")
eval_status expected resp =
    refuse (begun status_eq expected) (codes "ASSERT_STATUS_EQ expects VALUE_INT")

-- The bytes of the body, unless it is missing or empty.
unfoldable pub body_bytes : Response → Option Bytes
body_bytes resp = elim resp.body [
  | none ↦ none
  | some body ↦ if resp.body_len == 0 then none else some (take resp.body_len body)
]

unfoldable pub eval_body : Value → Response → AssertionResult
unfolding bytes_contains body_bytes
eval_body (byte_value pattern) resp =
    let result = begun body_contains (byte_value pattern) in
    elim (body_bytes resp) [
      | none ↦ refuse result (codes "Body assertion failed: empty body")
      | some body ↦
          let actual = byte_value (some body) in
          settle result actual (bytes_contains actual (byte_value pattern))
            (codes "Body assertion passed") (codes "Body assertion failed")
    ]
eval_body expected resp =
    refuse (begun body_contains expected) (codes "ASSERT_BODY_CONTAINS expects VALUE_BYTES")

-- The C string at `resp->headers`, unless it is missing or empty.
unfoldable pub header_text : Response → Option Bytes
unfolding until
header_text resp = elim resp.headers [
  | none ↦ none
  | some block ↦ let text = until 0 block in if length text == 0 then none else some text
]

unfoldable pub eval_header : Value → Response → AssertionResult
unfolding Header.header_contains header_text
eval_header (header_value name value) resp =
    let result = begun Assertion.header_contains (header_value name value) in
    elim (header_text resp) [
      | none ↦ refuse result (codes "Header assertion failed: empty header")
      | some text ↦
          settle result (string_value (some text)) (Header.header_contains (some text) name value)
            (codes "Header assertion passed") (codes "Header assertion failed")
    ]
eval_header expected resp =
    refuse (begun Assertion.header_contains expected)
      (codes "ASSERT_HEADER_CONTAINS expects VALUE_HEADER")

unfoldable pub eval_as : AssertionType → Value → Response → AssertionResult
unfolding eval_status eval_body eval_header
eval_as status_eq = eval_status
eval_as body_contains = eval_body
eval_as Assertion.header_contains = eval_header

unfoldable pub eval_assertion : Option Response → Option Assertion → AssertionResult
unfolding eval_as
eval_assertion (some resp) (some assertion) = eval_as assertion.type assertion.expected resp
eval_assertion _ _ = refuse zero_result (codes "Invalid assertion input")
