-- ===== src/Dsl/Parser/Statements.antt =====
-- src/dsl/dsl_parser.c: the statements.
use http_runtime.Base.{
  ℕ, Bool, true, false, not, ◌||◌, none, some, List, [], ◌∷◌, ◌++◌, leb, ◌==◌, if◌then◌else◌,
  length, Bytes, codes, pos,
}
use http_runtime.Models.{Method}
use http_runtime.Models
use http_runtime.Assertion
use http_runtime.Assertion.{Assertion, Value, int_value, byte_value, header_value}
use http_runtime.RunPlan.{RunPlan, RequestCase, max_request_cases, max_case_assertions, is_positive}
use http_runtime.Dsl.Token
use http_runtime.Dsl.Token.{DslTokenType, DslToken}
use http_runtime.Stdlib.{atoi}
use http_runtime.Dsl.Parser.{
  DslParser, Parse, ok, fail, fault, ◌>>=◌, ◌>>◌, check, parser_error, fail_with, advance_parser,
  consume, previous_str, copy_previous, end_statement,
}

-- The tests that stand at the head of a function.
unfoldable pub require : (DslParser → Bool) → Bytes → Parse (Unit {0})
require test message parser =
    if test parser then ok tt parser else fail (parser_error message parser)

abbrev pub update_last : (RequestCase → RequestCase) → List RequestCase → List RequestCase
update_last f [] = []
update_last f (c ∷ []) = f c ∷ []
update_last f (c ∷ d ∷ cs) = c ∷ update_last f (d ∷ cs)

-- A write to `plan->cases[plan->case_count - 1]`
abbrev pub edit_case : (RequestCase → RequestCase) → Parse (Unit {0})
edit_case f parser =
    ok tt (record parser { plan = record parser.plan { cases = update_last f parser.plan.cases } })

abbrev pub add_assertion : Assertion → RequestCase → RequestCase
add_assertion a c = record c { assertions = c.assertions ++ a ∷ [] }

abbrev pub last_assertion_count : List RequestCase → ℕ
last_assertion_count [] = 0
last_assertion_count (c ∷ []) = length c.assertions
last_assertion_count (c ∷ d ∷ cs) = last_assertion_count (d ∷ cs)

abbrev pub has_case : DslParser → Bool
has_case parser = not (length parser.plan.cases == 0)

abbrev pub has_room_for_case : DslParser → Bool
has_room_for_case parser = not (leb max_request_cases (length parser.plan.cases))

abbrev pub has_room : DslParser → Bool
has_room parser = not (leb max_case_assertions (last_assertion_count parser.plan.cases))

unfoldable pub method_from_token : DslTokenType → Method
method_from_token Token.get = Models.get
method_from_token Token.post = Models.post
method_from_token Token.put = Models.put
method_from_token Token.delete = Models.delete
method_from_token Token.patch = Models.patch
method_from_token _ = Models.get

abbrev pub is_method : DslTokenType → Bool
is_method Token.get = true
is_method Token.post = true
is_method Token.put = true
is_method Token.delete = true
is_method Token.patch = true
is_method _ = false

-- `parser->current.type`; the parser has a current token from its creation on.
unfoldable pub current_type : Parse DslTokenType
current_type parser = elim parser.current [ none ↦ fault | some token ↦ ok token.type parser ]

abbrev pub advance_over : (ℕ → Bool) → Parse (Unit {0})
advance_over malloc parser = ok tt (advance_parser malloc parser)

abbrev pub new_case : Method → Bytes → RunPlan → RequestCase
new_case method url plan = record {
  method = method;
  url = some url;
  headers = none;
  body = none;
  body_len = 0;
  assertions = [];
  timeout_ms = if is_positive plan.default_timeout_ms then plan.default_timeout_ms else pos 5000;
}

abbrev pub add_case : Method → Bytes → Parse (Unit {0})
add_case method url parser = ok tt (record parser {
  plan = record parser.plan { cases = parser.plan.cases ++ new_case method url parser.plan ∷ [] };
})

unfoldable pub parse_body_stmt : (ℕ → Bool) → Parse (Unit {0})
parse_body_stmt malloc = do
  require has_case (codes "BODY must appear after a request statement")
  consume malloc Token.body_stmt (codes "expected BODY")
  consume malloc Token.body_raw (codes "expected body value after BODY")
  body ← copy_previous malloc (codes "out of memory while copying request body")
  edit_case (λ c. record c { body = some body; body_len = length body })
  end_statement malloc (codes "expected newline after BODY statement")

unfoldable pub parse_request_stmt : (ℕ → Bool) → Parse (Unit {0})
parse_request_stmt malloc = do
  require has_room_for_case (codes "too many request cases")
  method_token ← current_type
  require (λ _. is_method method_token) (codes "expected HTTP method")
  advance_over malloc
  consume malloc Token.ident (codes "expected URL after HTTP method")
  url ← copy_previous malloc (codes "out of memory while copying URL")
  add_case (method_from_token method_token) url
  end_statement malloc (codes "expected newline after request statement")

abbrev pub too_many : Bytes
too_many = codes "too many assertions for request case"

unfoldable pub parse_status_assertion : (ℕ → Bool) → Parse (Unit {0})
parse_status_assertion malloc = do
  require has_room too_many
  consume malloc Token.status (codes "expected 'status'")
  consume malloc Token.int (codes "expected status code after 'status'")
  s ← previous_str
  edit_case (add_assertion (record { type = Assertion.status_eq; expected = int_value (atoi s) }))

unfoldable pub parse_body_assertion : (ℕ → Bool) → Parse (Unit {0})
parse_body_assertion malloc = do
  require has_room too_many
  consume malloc Token.body (codes "expected 'body'")
  consume malloc Token.contains (codes "expected 'contains' after 'body'")
  consume malloc Token.string (codes "expected string after 'body contains'")
  s ← copy_previous malloc (codes "out of memory while copying body assertion")
  edit_case
      (add_assertion (record { type = Assertion.body_contains; expected = byte_value (some s) }))

abbrev pub at_header_value : DslParser → Bool
at_header_value parser =
    check Token.ident parser || check Token.string parser || check Token.int parser

unfoldable pub parse_header_assertion : (ℕ → Bool) → Parse (Unit {0})
parse_header_assertion malloc = do
  require has_room too_many
  consume malloc Token.header (codes "expected 'header'")
  consume malloc Token.ident (codes "expected header name after 'header'")
  name ← copy_previous malloc (codes "out of memory while copying header name")
  require at_header_value (codes "expected header value after header name")
  advance_over malloc
  value ← copy_previous malloc (codes "out of memory while copying header value")
  edit_case (
      add_assertion (record {
        type = Assertion.header_contains;
        expected = header_value (some name) (some value);
      }))

unfoldable pub parse_assertion : (ℕ → Bool) → Parse (Unit {0})
parse_assertion malloc parser =
    if check Token.status parser
    then parse_status_assertion malloc parser
    else if check Token.body parser
    then parse_body_assertion malloc parser
    else if check Token.header parser
    then parse_header_assertion malloc parser
    else fail_with (codes "expected assertion type: status, body, or header") parser

unfoldable pub parse_expect_stmt : (ℕ → Bool) → Parse (Unit {0})
parse_expect_stmt malloc = do
  require has_case (codes "EXPECT statement must come after a request statement")
  consume malloc Token.expect (codes "expected EXPECT")
  require has_room too_many
  parse_assertion malloc
  end_statement malloc (codes "expected newline after EXPECT statement")
