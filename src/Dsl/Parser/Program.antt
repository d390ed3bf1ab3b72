-- ===== src/Dsl/Parser/Program.antt =====
-- src/dsl/dsl_parser.c: the loop over the statements and `dsl_parse_run_plan`.
use http_runtime.Base.{
  ℕ, zero, suc, ◌+◌, ◌*◌, Bool, false, ◌&&◌, ◌||◌, Option, none, some, [], if◌then◌else◌, length,
  Bytes, codes, c_string,
}
use http_runtime.RunPlan.{RunPlan, init_run_plan, free_run_plan}
use http_runtime.Dsl.Token
use http_runtime.Dsl.Lexer.{dsl_create_lexer}
use http_runtime.Dsl.Parser.{
  DslParser, DslParseError, Parse, Outcome, ok, fail, fault, out_of_fuel, and_then, check,
  fail_with, advance_parser,
}
use http_runtime.Dsl.Parser.Statements.{
  advance_over, parse_request_stmt, parse_body_stmt, parse_expect_stmt,
}

abbrev pub at_method : DslParser → Bool
at_method parser =
    check Token.get parser
    || check Token.post parser
    || check Token.put parser
    || check Token.delete parser
    || check Token.patch parser

unfoldable pub parse_statement : (ℕ → Bool) → Parse (Unit {0})
parse_statement malloc parser =
    if check Token.newline parser
    then advance_over malloc parser
    else if at_method parser
    then parse_request_stmt malloc parser
    else if check Token.body_stmt parser
    then parse_body_stmt malloc parser
    else if check Token.expect parser
    then parse_expect_stmt malloc parser
    else fail_with (codes "expected request statement or EXPECT statement") parser

-- The loop of `parse_program`, in at most `fuel` rounds; the statements take what they need.
unfoldable pub parse_program : ℕ → (ℕ → Bool) → Parse (Unit {0})
parse_program zero malloc parser = out_of_fuel
parse_program (suc fuel) malloc parser =
    let more = and_then (parse_statement malloc parser) (λ _. parse_program fuel malloc) in
    if check Token.eof parser
    then if parser.had_error then fail parser else ok tt parser
    else if parser.had_error
    then fail parser
    else more

pub data DslParseResult : Type 0 where
  parse_ok parse_error io_error : DslParseResult

-- What the call returns, and what it leaves in `*plan` and `*error`.
pub record Parsed : Type 0 where
  pub result : DslParseResult
  pub plan : RunPlan
  pub error : Option DslParseError

-- An error without a place.
abbrev pub plain_error : Bytes → Option DslParseError → Option DslParseError
plain_error message none = none
plain_error message (some _) = some (record { message = message; line = 0; column = 0 })

-- `sizeof (DslParser)` and `sizeof (DslLexer)` on a 64-bit target
abbrev pub parser_size : ℕ
parser_size = 88

abbrev pub lexer_size : ℕ
lexer_size = 48

unfoldable pub dsl_parser_create :
    (ℕ → Bool) → Bytes → RunPlan → Option DslParseError → Option DslParser
dsl_parser_create malloc text plan error =
    if malloc parser_size && malloc lexer_size
    then some (
        advance_parser malloc (record {
          lexer = dsl_create_lexer text;
          current = none;
          previous = none;
          error = plain_error [] error;
          had_error = false;
          plan = plan;
        }))
    else none

-- The two ends of `dsl_parse_run_plan`; a fault has none.
abbrev pub finish : Outcome (Unit {0}) → Option Parsed
finish (ok _ parser) = some (
    if parser.had_error
    then record { result = parse_error; plan = free_run_plan parser.plan; error = parser.error }
    else record { result = parse_ok; plan = parser.plan; error = parser.error })
finish (fail parser) =
    some (record { result = parse_error; plan = free_run_plan parser.plan; error = parser.error })
finish fault = none
finish out_of_fuel = none

-- Enough rounds for the loop: two for each byte of the source.
abbrev pub rounds : Bytes → ℕ
rounds source = 2 * length (c_string source) + 3

-- `none` means a read through NULL or an endless loop.
unfoldable pub dsl_parse_run_plan :
    (ℕ → Bool) → Option Bytes → RunPlan → Option DslParseError → Option Parsed
dsl_parse_run_plan malloc none plan error = some (record {
  result = parse_error;
  plan = plan;
  error = plain_error (codes "source or plan is null") error;
})
dsl_parse_run_plan malloc (some source) plan error =
    elim (dsl_parser_create malloc source init_run_plan error) [
      | none ↦ some (record {
        result = parse_error;
        plan = init_run_plan;
        error = plain_error (codes "parser creation failed") error;
      })
      | some parser ↦ finish (parse_program (rounds source) malloc parser)
    ]
