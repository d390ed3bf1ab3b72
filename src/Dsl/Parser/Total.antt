-- ===== src/Dsl/Parser/Total.antt =====
-- `dsl_parse_run_plan` of src/dsl/dsl_parser.c returns on every input, and a plan that it accepts
-- is in order.
use http_runtime.Base.{
  ℕ, zero, suc, ◌+◌, ◌*◌, ◌<◌, Bool, false, ◌&&◌, Option, none, some, [], ◌≡◌, refl, ap, sym, subst,
  ◌⊎◌, inl, inr, Bool-cases, length, arith, Bytes, c_string,
}
use http_runtime.RunPlan.{RunPlan, init_run_plan}
use http_runtime.Dsl.Token
use http_runtime.Dsl.Token.{DslTokenType}
use http_runtime.Dsl.Lexer.{dsl_create_lexer}
use http_runtime.Dsl.Lexer.Next.{dsl_lexer_next_token-Scanned}
use http_runtime.Dsl.Lexer.Tokens.{dsl_lexer_next_token, is_last}
use http_runtime.Dsl.Lexer.Chain.{work}
use http_runtime.Dsl.Parser.Valid.{PlanOk, init-PlanOk}
use http_runtime.Dsl.Parser.Moves.{
  left, Ready, Post, advance-Next, advance-fields, Lexed-text, left_at-Scanned, check-type,
  bind_rule, if_rule, Done,
}
use http_runtime.Dsl.Parser.Sound.{
  parse_body_stmt-Post, parse_request_stmt-Post, parse_expect_stmt-Post,
}
use http_runtime.Dsl.Parser.{
  DslParser, DslParseError, Outcome, ok, fail, fault, out_of_fuel, check, advance_parser,
}
use http_runtime.Dsl.Parser.Program.{
  at_method, parse_statement, parse_program, parse_ok, Parsed, plain_error, parser_size, lexer_size,
  dsl_parser_create, finish, rounds, dsl_parse_run_plan,
}

parse_statement-Post :
    (malloc : ℕ → Bool) (p : DslParser) → Ready p → Post (Done (left p)) (parse_statement malloc p)
unfolding parse_statement
parse_statement-Post malloc p r = elim (Bool-cases (check Token.newline p)) [
  | inl e ↦
      let (n, _) = advance-Next malloc p r (ap is_last (check-type Token.newline p r e)) in
      rw e (n.ready, n.fewer)
  | inr a ↦ rw a (elim (Bool-cases (at_method p)) [
    | inl e ↦ rw e (parse_request_stmt-Post malloc p r)
    | inr b ↦ rw b (elim (Bool-cases (check Token.body_stmt p)) [
      | inl e ↦ rw e (parse_body_stmt-Post malloc p r)
      | inr c ↦ rw c (elim (Bool-cases (check Token.expect p)) [
        | inl e ↦ rw e (parse_expect_stmt-Post malloc p r)
        | inr d ↦ rw d tt
      ])
    ])
  ])
]

abbrev Finished : Unit {0} → DslParser → Type 0
Finished _ q = PlanOk q.plan

parse_program-Post :
    (fuel : ℕ) (malloc : ℕ → Bool) (p : DslParser)
    → Ready p
    → left p < fuel
    → Post Finished (parse_program fuel malloc p)
unfolding parse_program
parse_program-Post zero malloc p r h = absurd (omega arith)
parse_program-Post (suc fuel) malloc p r h =
    let more =
      bind_rule (Done (left p)) Finished _ _ (parse_statement-Post malloc p r)
        (λ _ q d. parse_program-Post fuel malloc q d.0 (omega (arith, d.1))) in
    if_rule Finished (check Token.eof p) _ _
      (if_rule Finished p.had_error (fail p) (ok tt p) tt r.plan_ok)
      (if_rule Finished p.had_error (fail p) _ tt more)

-- The parser as it is created stands on the first token.
create_cases :
    (malloc : ℕ → Bool) (text : Bytes) (plan : RunPlan) (error : Option DslParseError)
    → PlanOk plan
    → (dsl_parser_create malloc text plan error ≡ none)
      ⊎ ((p : DslParser) × (dsl_parser_create malloc text plan error ≡ some p)
          × Ready p
          × (left p < rounds text))
unfolding dsl_parser_create
create_cases malloc text plan error h =
    elim (Bool-cases (malloc parser_size && malloc lexer_size)) [
      | inr e ↦ rw e (inl refl)
      | inl e ↦
          let start : DslParser = record {
            lexer = dsl_create_lexer text;
            current = none;
            previous = none;
            error = plain_error [] error;
            had_error = false;
            plan = plan;
          } in
          let s = dsl_lexer_next_token malloc start.lexer in
          let scanned = dsl_lexer_next_token-Scanned malloc start.lexer in
          let (current, lexer, _, same) = advance-fields malloc start in
          let begun : work (dsl_create_lexer text) < 2 * length (c_string text) + 1 =
            unfold dsl_create_lexer in (omega arith) in
          rw e (
            inr (
              advance_parser malloc start,
              refl,
              record {
                token = s.0;
                current_is = current;
                text_ok = Lexed-text scanned.token_at.lexeme;
                plan_ok = subst PlanOk (sym same) h;
              },
              rw (current, lexer)
                  (omega (arith, left_at-Scanned start.lexer s.0 s.1 scanned, begun)),
            ))
    ]

-- What a caller gets.
abbrev Returned : Option Parsed → Type 0
Returned none = ⊥
Returned (some parsed) = parsed.result ≡ parse_ok → PlanOk parsed.plan

finish-Returned : (o : Outcome (Unit {0})) → Post Finished o → Returned (finish o)
finish-Returned (ok _ p) h = elim (Bool-cases p.had_error) [
  | inl e ↦ rw e (λ f. cc)
  | inr e ↦ rw e (λ _. h)
]
finish-Returned (fail p) h = λ f. cc
finish-Returned fault h = h
finish-Returned out_of_fuel h = h

run-Returned :
    (malloc : ℕ → Bool) (source : Option Bytes) (plan : RunPlan) (error : Option DslParseError)
    → Returned (dsl_parse_run_plan malloc source plan error)
unfolding dsl_parse_run_plan
run-Returned malloc none plan error = λ f. cc
run-Returned malloc (some source) plan error =
    elim (create_cases malloc source init_run_plan error init-PlanOk) [
      | inl e ↦ rw (e, dsl_parse_run_plan) (λ f. cc)
      | inr (p, e, r, h) ↦
          rw (e, dsl_parse_run_plan)
            (finish-Returned _ (parse_program-Post (rounds source) malloc p r h))
    ]

-- The call returns on every source: it neither reads a missing text nor runs for ever. A plan that
-- it accepts has at most 128 cases; each has a URL, a body with its length, a positive timeout,
-- and at most 32 assertions, whose values have the type that they want.
pub dsl_parse_run_plan_total :
    (malloc : ℕ → Bool) (source : Option Bytes) (plan : RunPlan) (error : Option DslParseError)
    → (parsed : Parsed) × (dsl_parse_run_plan malloc source plan error ≡ some parsed)
      × (parsed.result ≡ parse_ok → PlanOk parsed.plan)
dsl_parse_run_plan_total malloc source plan error =
    from (dsl_parse_run_plan malloc source plan error) refl (run-Returned malloc source plan error)
  where
    from :
        (o : Option Parsed)
        → dsl_parse_run_plan malloc source plan error ≡ o
        → Returned o
        → (parsed : Parsed) × (dsl_parse_run_plan malloc source plan error ≡ some parsed)
          × (parsed.result ≡ parse_ok → PlanOk parsed.plan)
    from none e h = absurd h
    from (some parsed) e h = (parsed, e, h)
