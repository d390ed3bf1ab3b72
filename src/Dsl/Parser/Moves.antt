-- ===== src/Dsl/Parser/Moves.antt =====
-- What each elementary move of src/dsl/dsl_parser.c keeps, as rules that a statement's proof
-- applies in turn: every move goes on through the input, and never reads a missing text.
use http_runtime.Base.{
  ℕ, suc, ◌+◌, ◌<◌, Bool, true, false, Option, none, some, ◌≡◌, refl, ap, sym, ◌∙◌, subst, inl, inr,
  if◌then◌else◌, Bool-cases, length, arith, Bytes,
}
use http_runtime.Dsl.Token
use http_runtime.Dsl.Token.{DslTokenType, DslToken, token_index, token_index_iff}
use http_runtime.Dsl.Lexer.{DslLexer}
use http_runtime.Dsl.Lexer.Lexeme.{Lexed, Lexeme, Scanned}
use http_runtime.Dsl.Lexer.Next.{dsl_lexer_next_token-Scanned}
use http_runtime.Dsl.Lexer.Tokens.{dsl_lexer_next_token, is_last}
use http_runtime.Dsl.Lexer.Chain.{work, next_token-work}
use http_runtime.RunPlan.{RunPlan}
use http_runtime.Dsl.Parser.Valid.{PlanOk}
use http_runtime.Dsl.Parser.{
  DslParser, Parse, Outcome, ok, fail, fault, out_of_fuel, and_then, check, type_is, same_type,
  advance_parser, consume, previous_str, copy_previous, end_statement,
}
use http_runtime.Dsl.Parser.Statements.{require}

-- The tokens whose text the parser reads.
abbrev pub needs_text : DslTokenType → Bool
needs_text Token.eof = false
needs_text Token.error = false
needs_text Token.newline = false
needs_text _ = true

abbrev pub TextOk : DslToken → Type 0
TextOk t = needs_text t.type ≡ true → (s : Bytes) × (t.str ≡ some s)

-- The rounds that are left: none behind the last token.
abbrev pub left_at : Option DslToken → DslLexer → ℕ
left_at none lexer = 0
left_at (some t) lexer = if is_last t.type then 0 else suc (work lexer)

abbrev pub left : DslParser → ℕ
left p = left_at p.current p.lexer

pub record Ready (p : DslParser) : Type 0 where
  pub token : DslToken
  pub current_is : p.current ≡ some token
  pub text_ok : TextOk token
  pub plan_ok : PlanOk p.plan

-- A change of the plan alone.
abbrev pub with_plan : DslParser → RunPlan → DslParser
with_plan p plan = record p { plan = plan }

pub Ready-plan : (p : DslParser) (plan : RunPlan) → PlanOk plan → Ready p → Ready (with_plan p plan)
Ready-plan p plan h r = record {
  token = r.token;
  current_is = r.current_is;
  text_ok = r.text_ok;
  plan_ok = h;
}

-- The result of a part, if it returns true, is as said; and it is no fault.
abbrev pub Post : {A : Type 0} → (A → DslParser → Type 0) → Outcome A → Type 0
Post Q (ok a p) = Q a p
Post Q (fail p) = Unit {0}
Post Q fault = ⊥
Post Q out_of_fuel = ⊥

-- The previous token is of this type and has its text.
pub record Behind (type : DslTokenType) (p : DslParser) : Type 0 where
  pub token : DslToken
  pub previous_is : p.previous ≡ some token
  pub type_is : token.type ≡ type
  pub text_ok : TextOk token

-- One token further on, with the same plan.
pub record Next (p q : DslParser) : Type 0 where
  pub ready : Ready q
  pub fewer : left q < left p
  pub plan_is : q.plan ≡ p.plan

Lexeme-text :
    {flag : Bool} {next : ℕ} {t : DslTokenType} {o : Option Bytes} {w : Bytes}
    → Lexeme flag next t o w
    → needs_text t ≡ true
    → (s : Bytes) × (o ≡ some s)
Lexeme-text (Lexeme.eof _ e _ _ _) h = let k = rw e at h in cc
Lexeme-text (Lexeme.newline _ e _) h = let k = rw e at h in cc
Lexeme-text {w = w} (Lexeme.number _ _ o _ _ _) h = (w, o)
Lexeme-text {w = w} (Lexeme.word _ _ _ _ o _ _ _ _) h = (w, o)
Lexeme-text (Lexeme.quoted s _ _ o _ _) h = (s, o)
Lexeme-text (Lexeme.raw s _ _ _ o _ _ _ _ _) h = (s, o)

pub Lexed-text :
    {malloc : ℕ → Bool} {flag : Bool} {next : ℕ} {t : DslTokenType} {o : Option Bytes} {w : Bytes}
    → Lexed malloc flag next t o w
    → needs_text t ≡ true
    → (s : Bytes) × (o ≡ some s)
Lexed-text (Lexed.known l) h = Lexeme-text l h
Lexed-text (Lexed.unexpected _ _ e _ _ _) h = let k = rw e at h in cc
Lexed-text (Lexed.unterminated _ _ e _ _ _ _ _) h = let k = rw e at h in cc
Lexed-text (Lexed.no_memory _ _ e _ _ _) h = let k = rw e at h in cc

left-now :
    (p : DslParser) (t : DslToken)
    → p.current ≡ some t
    → is_last t.type ≡ false
    → left p ≡ suc (work p.lexer)
left-now p t e h = ap (λ c. left_at c p.lexer) e ∙ rw h refl

pub left_at-Scanned :
    {malloc : ℕ → Bool} (a : DslLexer) (t : DslToken) (b : DslLexer)
    → Scanned malloc a (t, b)
    → left_at (some t) b < suc (work a)
left_at-Scanned a t b s = elim (Bool-cases (is_last t.type)) [
  | inl e ↦ rw e (omega arith)
  | inr e ↦ rw e (omega (arith, next_token-work a (t, b) s e))
]

pub advance-fields :
    (malloc : ℕ → Bool) (p : DslParser)
    → let s = dsl_lexer_next_token malloc p.lexer in
      ((advance_parser malloc p).current ≡ some s.0)
      × ((advance_parser malloc p).lexer ≡ s.1)
      × ((advance_parser malloc p).previous ≡ p.current)
      × ((advance_parser malloc p).plan ≡ p.plan)
unfolding advance_parser
advance-fields malloc p =
    elim (Bool-cases (same_type (dsl_lexer_next_token malloc p.lexer).0.type Token.error)) [
      | inl e ↦ rw e (refl, refl, refl, refl)
      | inr e ↦ rw e (refl, refl, refl, refl)
    ]

-- `advance_parser` from a token that is not the last.
pub advance-Next :
    (malloc : ℕ → Bool) (p : DslParser) (r : Ready p)
    → is_last r.token.type ≡ false
    → Next p (advance_parser malloc p) × Behind r.token.type (advance_parser malloc p)
advance-Next malloc p r h =
    let s = dsl_lexer_next_token malloc p.lexer in
    let scanned = dsl_lexer_next_token-Scanned malloc p.lexer in
    let (current, lexer, previous, plan) = advance-fields malloc p in
    (
      record {
        ready = record {
          token = s.0;
          current_is = current;
          text_ok = Lexed-text scanned.token_at.lexeme;
          plan_ok = subst PlanOk (sym plan) r.plan_ok;
        };
        fewer =
            rw (left-now p r.token r.current_is h, current, lexer)
              (left_at-Scanned p.lexer s.0 s.1 scanned);
        plan_is = plan;
      },
      record {
        token = r.token;
        previous_is = previous ∙ r.current_is;
        type_is = refl;
        text_ok = r.text_ok;
      },
    )

-- What a successful test of the current token says.
pub check-type :
    (type : DslTokenType) (p : DslParser) (r : Ready p) → check type p ≡ true → r.token.type ≡ type
check-type type p r h =
    (token_index_iff r.token.type type).0 (sym (ap (type_is type) r.current_is) ∙ h)

previous_str_lem :
    (type : DslTokenType) (p : DslParser)
    → Behind type p
    → needs_text type ≡ true
    → (s : Bytes) × (previous_str p ≡ ok s p)
unfolding previous_str
previous_str_lem type p b h =
    let (s, e) = b.text_ok (ap needs_text b.type_is ∙ h) in (s, ground (arith, b.previous_is, e))

-- The rules. Each says what has to be shown of the rest `k` of a statement.
module _ {A : Type 0} (R : A → DslParser → Type 0) where
  pub require_rule :
      (test : DslParser → Bool) (message : Bytes) (p : DslParser) (k : Unit {0} → Parse A)
      → (test p ≡ true → Post R (k tt p))
      → Post R (and_then (require test message p) k)
  unfolding require
  require_rule test message p k go = elim (Bool-cases (test p)) [
    | inl e ↦ rw e (go e)
    | inr e ↦ rw e tt
  ]

  pub consume_rule :
      (malloc : ℕ → Bool) (type : DslTokenType) (message : Bytes) (p : DslParser)
      (k : Unit {0} → Parse A) (r : Ready p)
      → is_last type ≡ false
      → ((q : DslParser) → Next p q → Behind type q → Post R (k tt q))
      → Post R (and_then (consume malloc type message p) k)
  unfolding consume
  consume_rule malloc type message p k r h go = elim (Bool-cases (check type p)) [
    | inl e ↦
        let type_is = check-type type p r e in
        let (next, behind) = advance-Next malloc p r (ap is_last type_is ∙ h) in
        rw e (
          go (advance_parser malloc p) next
            (subst (λ t. Behind t (advance_parser malloc p)) type_is behind))
    | inr e ↦ rw e tt
  ]

  pub previous_rule :
      (type : DslTokenType) (p : DslParser) (k : Bytes → Parse A)
      → Behind type p
      → needs_text type ≡ true
      → ((s : Bytes) → Post R (k s p))
      → Post R (and_then (previous_str p) k)
  previous_rule type p k b h go =
      let (s, e) = previous_str_lem type p b h in subst (λ o. Post R (and_then o k)) (sym e) (go s)

  pub copy_rule :
      (malloc : ℕ → Bool) (type : DslTokenType) (message : Bytes) (p : DslParser)
      (k : Bytes → Parse A)
      → Behind type p
      → needs_text type ≡ true
      → ((s : Bytes) → Post R (k s p))
      → Post R (and_then (copy_previous malloc message p) k)
  unfolding copy_previous
  copy_rule malloc type message p k b h go =
      let (s, e) = previous_str_lem type p b h in
      rw e (elim (Bool-cases (malloc (length s + 1))) [ inl m ↦ rw m (go s) | inr m ↦ rw m tt ])

-- The end of a statement that began `n` rounds before the end.
abbrev pub Done : ℕ → Unit {0} → DslParser → Type 0
Done n _ q = Ready q × (left q < n)

pub end_rule :
    (malloc : ℕ → Bool) (message : Bytes) (p : DslParser) (n : ℕ)
    → Ready p
    → left p < n
    → Post (Done n) (end_statement malloc message p)
unfolding end_statement
end_rule malloc message p n r h = elim (Bool-cases (check Token.newline p)) [
  | inl e ↦
      let (next, _) = advance-Next malloc p r (ap is_last (check-type Token.newline p r e)) in
      rw e (next.ready, omega (arith, next.fewer))
  | inr e ↦ rw e (elim (Bool-cases (check Token.eof p)) [ inl f ↦ rw f (r, h) | inr f ↦ rw f tt ])
]

-- A part with a result of its own.
pub bind_rule :
    {A B : Type 0} (Q : A → DslParser → Type 0) (R : B → DslParser → Type 0) (m : Outcome A)
    (k : A → Parse B)
    → Post Q m
    → ((a : A) (p : DslParser) → Q a p → Post R (k a p))
    → Post R (and_then m k)
bind_rule Q R (ok a p) k h go = go a p h
bind_rule Q R (fail p) k h go = tt
bind_rule Q R fault k h go = h
bind_rule Q R out_of_fuel k h go = h

-- A test whose outcome does not matter.
pub if_rule :
    {A : Type 0} (R : A → DslParser → Type 0) (b : Bool) (x y : Outcome A)
    → Post R x
    → Post R y
    → Post R (if b then x else y)
if_rule R true x y h k = h
if_rule R false x y h k = k
