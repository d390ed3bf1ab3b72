-- ===== src/Tests/Dsl.antt =====
-- The .fman parser on a small file.
use http_runtime.Base.{
  Bool, true, false, ℕ, ◌≡◌, refl, Bytes, codes, ◌++◌, some, none, pos, [], ◌∷◌,
}
use http_runtime.Models
use http_runtime.Assertion
use http_runtime.Assertion.{int_value, byte_value, header_value}
use http_runtime.RunPlan.{RunPlan, init_run_plan}
use http_runtime.Stdlib.{atoi}
use http_runtime.Dsl.Token.{token_index}
use http_runtime.Dsl.Lexer.{DslLexer, dsl_create_lexer}
use http_runtime.Dsl.Lexer.Tokens.{dsl_lexer_next_token, dsl_lexer_get_tokens}
use http_runtime.Dsl.Lexer.Lexeme.{Scanned}
use http_runtime.Dsl.Lexer.Next.{dsl_lexer_next_token-Scanned}
use http_runtime.Dsl.Lexer.Chain.{Complete, dsl_lexer_get_tokens-Complete}
use http_runtime.Dsl.Parser.Valid.{PlanOk}
use http_runtime.Dsl.Parser.Total.{dsl_parse_run_plan_total}
use http_runtime.Dsl.Parser.{
  consume, copy_previous, previous_str, end_statement, parser_error, advance_parser,
}
use http_runtime.Dsl.Parser.Statements.{
  parse_request_stmt, parse_expect_stmt, parse_body_stmt, method_from_token, parse_assertion,
  parse_status_assertion, parse_body_assertion, parse_header_assertion, require, current_type,
}
use http_runtime.Dsl.Parser.Program.{
  dsl_parser_create, parse_program, parse_statement, dsl_parse_run_plan, parse_ok, Parsed,
}

abbrev plenty : ℕ → Bool
plenty n = true

abbrev smoke_file : Bytes
smoke_file =
    codes "GET https://a.b/c # first\nEXPECT status 200\nEXPECT header Content-Type text/html\n"
    ++ codes "EXPECT body contains \"Hi\"\n\nPOST http://x\nBODY  {\"a\": 1} \n"

abbrev smoke_plan : RunPlan
smoke_plan = record init_run_plan {
  cases =
      record {
        method = Models.get;
        url = some (codes "https://a.b/c");
        headers = none;
        body = none;
        body_len = 0;
        assertions =
            record { type = Assertion.status_eq; expected = int_value (pos 200) }
            ∷ record {
              type = Assertion.header_contains;
              expected = header_value (some (codes "Content-Type")) (some (codes "text/html"));
            }
            ∷ record { type = Assertion.body_contains; expected = byte_value (some (codes "Hi")) }
            ∷ [];
        timeout_ms = pos 5000;
      }
      ∷ record {
        method = Models.post;
        url = some (codes "http://x");
        headers = none;
        body = some (codes "{\"a\": 1}");
        body_len = 8;
        assertions = [];
        timeout_ms = pos 5000;
      }
      ∷ [];
}

smoke_parse :
    dsl_parse_run_plan plenty (some smoke_file) init_run_plan none
    ≡ some (record { result = parse_ok; plan = smoke_plan; error = none })
unfolding dsl_parse_run_plan dsl_parser_create parse_program parse_statement token_index
    dsl_create_lexer dsl_lexer_next_token parse_request_stmt parse_expect_stmt parse_body_stmt
    consume copy_previous previous_str end_statement parser_error advance_parser method_from_token
    parse_assertion parse_status_assertion parse_body_assertion parse_header_assertion atoi require
    current_type
smoke_parse = refl

abbrev smoke_lexer : DslLexer
smoke_lexer = record {
  rest = codes "  # note\nGET x";
  pos = 0;
  line = 1;
  column = 1;
  read_body_raw_next = false;
}

dsl_lexer_next_token-Scanned_example :
    Scanned plenty smoke_lexer (dsl_lexer_next_token plenty smoke_lexer)
dsl_lexer_next_token-Scanned_example = dsl_lexer_next_token-Scanned plenty smoke_lexer

dsl_lexer_get_tokens-Complete_example :
    Complete plenty smoke_lexer (dsl_lexer_get_tokens plenty smoke_lexer)
dsl_lexer_get_tokens-Complete_example = dsl_lexer_get_tokens-Complete plenty smoke_lexer

dsl_parse_run_plan_total_example :
    (parsed : Parsed) × (dsl_parse_run_plan plenty (some smoke_file) init_run_plan none
      ≡ some parsed)
    × (parsed.result ≡ parse_ok → PlanOk parsed.plan)
dsl_parse_run_plan_total_example =
    dsl_parse_run_plan_total plenty (some smoke_file) init_run_plan none
