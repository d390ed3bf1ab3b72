-- ===== src/Dsl/Parser.antt =====
-- src/dsl/dsl_parser.c: the parser's state and its elementary moves.
pub mod Statements
pub mod Program
pub mod Valid
pub mod Moves
pub mod Sound
pub mod Total
use http_runtime.Base.{
  ℕ, ◌+◌, Bool, true, false, Option, none, some, List, [], ◌∷◌, ◌==◌, if◌then◌else◌, length, take,
  Bytes, codes,
}
use http_runtime.Dsl.Token
use http_runtime.Dsl.Token.{DslTokenType, DslToken, token_index}
use http_runtime.Dsl.Lexer.{DslLexer}
use http_runtime.Dsl.Lexer.Tokens.{dsl_lexer_next_token}
use http_runtime.RunPlan.{RunPlan}

pub record DslParseError : Type 0 where
  pub message : Bytes
  pub line : ℕ
  pub column : ℕ

-- A `DslParser`, with the plan that it fills. `current` and `previous` are `none` while
-- `has_current` and `has_previous` are false; `error` is `none` if the caller passed NULL.
pub record DslParser : Type 0 where
  pub lexer : DslLexer
  pub current : Option DslToken
  pub previous : Option DslToken
  pub error : Option DslParseError
  pub had_error : Bool
  pub plan : RunPlan

-- What a parsing function does: `ok` is a return of true, `fail` one of false; `fault` is a read
-- through NULL, and `out_of_fuel` belongs to the loop over the statements.
pub data Outcome (A : Type 0) : Type 0 where
  ok : A → DslParser → Outcome A
  fail : DslParser → Outcome A
  fault : Outcome A
  out_of_fuel : Outcome A

abbrev pub Parse : Type 0 → Type 0
Parse A = DslParser → Outcome A

infixl 5 ◌>>=◌ ◌>>◌
abbrev pub and_then : {A B : Type 0} → Outcome A → (A → Parse B) → Outcome B
and_then (ok a p) k = k a p
and_then (fail p) k = fail p
and_then fault k = fault
and_then out_of_fuel k = out_of_fuel

abbrev pub ◌>>=◌ : {A B : Type 0} → Parse A → (A → Parse B) → Parse B
m >>= k = λ p. and_then (m p) k

abbrev pub ◌>>◌ : {A B : Type 0} → Parse A → Parse B → Parse B
m >> k = m >>= λ _. k

abbrev pub succeed : Parse (Unit {0})
succeed = ok tt

-- `snprintf` into `char message[256]`, where the caller wants an error
abbrev pub report : Bytes → ℕ → ℕ → Option DslParseError → Option DslParseError
report message line column none = none
report message line column (some _) =
    some (record { message = take 255 message; line = line; column = column })

abbrev pub same_type : DslTokenType → DslTokenType → Bool
same_type a b = token_index a == token_index b

abbrev pub type_is : DslTokenType → Option DslToken → Bool
type_is type none = false
type_is type (some token) = same_type token.type type

abbrev pub check : DslTokenType → DslParser → Bool
check type parser = type_is type parser.current

abbrev pub error_at : Bytes → Option DslToken → Option DslParseError → Option DslParseError
error_at message none error = report message 0 0 error
error_at message (some token) error = report message token.line token.column error

-- The first error stays.
unfoldable pub parser_error : Bytes → DslParser → DslParser
parser_error message parser =
    if parser.had_error
    then parser
    else record parser { had_error = true; error = error_at message parser.current parser.error }

abbrev pub fail_with : {A : Type 0} → Bytes → Parse A
fail_with message parser = fail (parser_error message parser)

abbrev pub or_default : Option Bytes → Bytes → Bytes
or_default none d = d
or_default (some s) d = s

unfoldable pub advance_parser : (ℕ → Bool) → DslParser → DslParser
advance_parser malloc parser =
    let (token, lexer) = dsl_lexer_next_token malloc parser.lexer in
    let next : DslParser = record parser {
      lexer = lexer;
      previous = parser.current;
      current = some token;
    } in
    if same_type token.type Token.error
    then record next {
      had_error = true;
      error =
          report (or_default token.str (codes "lexer error")) token.line token.column parser.error;
    }
    else next

unfoldable pub consume : (ℕ → Bool) → DslTokenType → Bytes → Parse (Unit {0})
consume malloc type message parser =
    if check type parser
    then ok tt (advance_parser malloc parser)
    else fail (parser_error message parser)

-- `parser->previous.str`, as the functions read it behind a `consume`
unfoldable pub previous_str : Parse Bytes
previous_str parser = elim parser.previous [
  | none ↦ fault
  | some token ↦ elim token.str [ none ↦ fault | some s ↦ ok s parser ]
]

-- `strdup (parser->previous.str)`, or the error that the copy failed
unfoldable pub copy_previous : (ℕ → Bool) → Bytes → Parse Bytes
copy_previous malloc message = do
  s ← previous_str
  λ parser. if malloc (length s + 1) then ok s parser else fail (parser_error message parser)

-- The end of a statement: a newline is read over, the end of the input stays.
unfoldable pub end_statement : (ℕ → Bool) → Bytes → Parse (Unit {0})
end_statement malloc message parser =
    if check Token.newline parser
    then ok tt (advance_parser malloc parser)
    else if check Token.eof parser
    then ok tt parser
    else fail (parser_error message parser)
