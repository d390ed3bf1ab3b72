-- ===== src/Dsl/Parser/Sound.antt =====
-- Every statement of src/dsl/dsl_parser.c goes on through the input, reads no missing text, and
-- keeps the plan in order.
use http_runtime.Base.{
  ℕ, ◌<◌, Bool, true, false, some, ◌≡◌, refl, ap, sym, ◌∙◌, subst, inl, inr, Bool-cases, length,
  arith, Bytes,
}
use http_runtime.RunPlan.{RunPlan, RequestCase}
use http_runtime.Dsl.Token
use http_runtime.Dsl.Token.{DslTokenType}
use http_runtime.Dsl.Lexer.Tokens.{is_last}
use http_runtime.Dsl.Parser.Valid.{PlanOk, update-PlanOk, add_assertion-PlanOk, add_case-PlanOk}
use http_runtime.Dsl.Parser.Moves.{
  needs_text, left, Ready, Ready-plan, with_plan, Post, advance-Next, check-type, require_rule,
  consume_rule, previous_rule, copy_rule, bind_rule, Done, end_rule,
}
use http_runtime.Dsl.Parser.{DslParser, Parse, ok, and_then, check, advance_parser, end_statement}
use http_runtime.Dsl.Parser.Statements.{
  parse_body_stmt, parse_request_stmt, parse_status_assertion, parse_body_assertion,
  parse_header_assertion, parse_assertion, parse_expect_stmt, is_method, update_last,
  at_header_value, current_type, method_from_token,
}

-- The rest of a statement behind a change of the plan.
finish_rule :
    (malloc : ℕ → Bool) (message : Bytes) (p : DslParser) (n : ℕ) (plan : RunPlan)
    → Ready p
    → PlanOk plan
    → left p < n
    → Post (Done n) (end_statement malloc message (with_plan p plan))
finish_rule malloc message p n plan r h lt =
    end_rule malloc message (with_plan p plan) n (Ready-plan p plan h r) lt

abbrev with_body : Bytes → RequestCase → RequestCase
with_body s c = record c { body = some s; body_len = length s }

body-PlanOk :
    (s : Bytes) (plan : RunPlan)
    → PlanOk plan
    → PlanOk (record plan { cases = update_last (with_body s) plan.cases })
body-PlanOk s plan = update-PlanOk (with_body s) plan (λ c _ h. record {
  url_is = h.url_is;
  body_is = refl;
  few = h.few;
  typed = h.typed;
  timeout = h.timeout;
})

pub parse_body_stmt-Post :
    (malloc : ℕ → Bool) (p : DslParser) → Ready p → Post (Done (left p)) (parse_body_stmt malloc p)
unfolding parse_body_stmt
parse_body_stmt-Post malloc p r =
    let R = Done (left p) in
    require_rule R _ _ p _ (λ _. consume_rule R malloc Token.body_stmt _ p _ r refl (λ q n _.
      consume_rule R malloc Token.body_raw _ q _ n.ready refl (λ q' n' b.
        copy_rule R malloc Token.body_raw _ q' _ b refl (λ s.
          finish_rule malloc _ q' (left p) _ n'.ready (body-PlanOk s q'.plan n'.ready.plan_ok)
            (omega (arith, n.fewer, n'.fewer))))))

method-not-last : (t : DslTokenType) → is_method t ≡ true → is_last t ≡ false
method-not-last Token.eof h = cc
method-not-last Token.error h = cc
method-not-last _ h = refl

current_type_lem : (p : DslParser) (r : Ready p) → current_type p ≡ ok r.token.type p
unfolding current_type
current_type_lem p r = ground (arith, r.current_is)

current_rule :
    (R : Unit {0} → DslParser → Type 0) (p : DslParser) (k : DslTokenType → Parse (Unit {0}))
    (r : Ready p)
    → Post R (k r.token.type p)
    → Post R (and_then (current_type p) k)
current_rule R p k r h = subst (λ o. Post R (and_then o k)) (sym (current_type_lem p r)) h

pub parse_request_stmt-Post :
    (malloc : ℕ → Bool) (p : DslParser)
    → Ready p
    → Post (Done (left p)) (parse_request_stmt malloc p)
unfolding parse_request_stmt
parse_request_stmt-Post malloc p r =
    let R = Done (left p) in
    require_rule R _ _ p _ (λ room. current_rule R p _ r (
      require_rule R _ _ p _ (λ m.
        let (n, _) = advance-Next malloc p r (method-not-last r.token.type m) in
        let q = advance_parser malloc p in
        consume_rule R malloc Token.ident _ q _ n.ready refl (λ q' n' b.
          copy_rule R malloc Token.ident _ q' _ b refl (λ url.
            finish_rule malloc _ q' (left p) _ n'.ready
              (add_case-PlanOk (method_from_token r.token.type) url q'.plan
                (rw (n'.plan_is, n.plan_is) room) n'.ready.plan_ok)
              (omega (arith, n.fewer, n'.fewer)))))))

status-Post :
    (malloc : ℕ → Bool) (p : DslParser)
    → Ready p
    → Post (Done (left p)) (parse_status_assertion malloc p)
unfolding parse_status_assertion
status-Post malloc p r =
    let R = Done (left p) in
    require_rule R _ _ p _ (λ room. consume_rule R malloc Token.status _ p _ r refl (λ q n _.
      consume_rule R malloc Token.int _ q _ n.ready refl (λ q' n' b.
        previous_rule R Token.int q' _ b refl (λ s. (
          Ready-plan q' _
              (add_assertion-PlanOk _ q'.plan tt (rw (n'.plan_is, n.plan_is) room) n'.ready.plan_ok)
              n'.ready,
          omega (arith, n.fewer, n'.fewer),
        )))))

body-Post :
    (malloc : ℕ → Bool) (p : DslParser)
    → Ready p
    → Post (Done (left p)) (parse_body_assertion malloc p)
unfolding parse_body_assertion
body-Post malloc p r =
    let R = Done (left p) in
    require_rule R _ _ p _ (λ room. consume_rule R malloc Token.body _ p _ r refl (λ q n _.
      consume_rule R malloc Token.contains _ q _ n.ready refl (λ q' n' _.
        consume_rule R malloc Token.string _ q' _ n'.ready refl (λ u m b.
          copy_rule R malloc Token.string _ u _ b refl (λ s. (
            Ready-plan u _
                (add_assertion-PlanOk _ u.plan tt (rw (m.plan_is, n'.plan_is, n.plan_is) room)
                  m.ready.plan_ok)
                m.ready,
            omega (arith, n.fewer, n'.fewer, m.fewer),
          ))))))

-- The tokens that may stand for a header's value.
header_value-type :
    (p : DslParser) (r : Ready p)
    → at_header_value p ≡ true
    → (is_last r.token.type ≡ false) × (needs_text r.token.type ≡ true)
header_value-type p r h = elim (Bool-cases (check Token.ident p)) [
  | inl e ↦ of (check-type Token.ident p r e) refl refl
  | inr n ↦ elim (Bool-cases (check Token.string p)) [
    | inl e ↦ of (check-type Token.string p r e) refl refl
    | inr n' ↦
        let e : check Token.int p ≡ true = ground arith in of (check-type Token.int p r e) refl refl
  ]
]
  where
    of :
        {t u : DslTokenType}
        → t ≡ u
        → is_last u ≡ false
        → needs_text u ≡ true
        → (is_last t ≡ false) × (needs_text t ≡ true)
    of e a b = (ap is_last e ∙ a, ap needs_text e ∙ b)

header-Post :
    (malloc : ℕ → Bool) (p : DslParser)
    → Ready p
    → Post (Done (left p)) (parse_header_assertion malloc p)
unfolding parse_header_assertion
header-Post malloc p r =
    let R = Done (left p) in
    require_rule R _ _ p _ (λ room. consume_rule R malloc Token.header _ p _ r refl (λ q n _.
      consume_rule R malloc Token.ident _ q _ n.ready refl (λ q' n' b.
        copy_rule R malloc Token.ident _ q' _ b refl (λ name. require_rule R _ _ q' _ (λ h.
          let (inner, texty) = header_value-type q' n'.ready h in
          let (m, c) = advance-Next malloc q' n'.ready inner in
          let u = advance_parser malloc q' in
          copy_rule R malloc n'.ready.token.type _ u _ c texty (λ value. (
            Ready-plan u _
                (add_assertion-PlanOk _ u.plan tt (rw (m.plan_is, n'.plan_is, n.plan_is) room)
                  m.ready.plan_ok)
                m.ready,
            omega (arith, n.fewer, n'.fewer, m.fewer),
          )))))))

pub parse_assertion-Post :
    (malloc : ℕ → Bool) (p : DslParser) → Ready p → Post (Done (left p)) (parse_assertion malloc p)
unfolding parse_assertion
parse_assertion-Post malloc p r = elim (Bool-cases (check Token.status p)) [
  | inl e ↦ rw e (status-Post malloc p r)
  | inr n ↦ rw n (elim (Bool-cases (check Token.body p)) [
    | inl e ↦ rw e (body-Post malloc p r)
    | inr n' ↦ rw n' (elim (Bool-cases (check Token.header p)) [
      | inl e ↦ rw e (header-Post malloc p r)
      | inr n'' ↦ rw n'' tt
    ])
  ])
]

pub parse_expect_stmt-Post :
    (malloc : ℕ → Bool) (p : DslParser)
    → Ready p
    → Post (Done (left p)) (parse_expect_stmt malloc p)
unfolding parse_expect_stmt
parse_expect_stmt-Post malloc p r =
    let R = Done (left p) in
    require_rule R _ _ p _ (λ _. consume_rule R malloc Token.expect _ p _ r refl (λ q n _.
      require_rule R _ _ q _ (λ _.
        bind_rule (Done (left q)) R _ _ (parse_assertion-Post malloc q n.ready)
          (λ _ q' d. end_rule malloc _ q' (left p) d.0 (omega (arith, n.fewer, d.1))))))
