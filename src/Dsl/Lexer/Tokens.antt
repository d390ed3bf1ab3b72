-- ===== src/Dsl/Lexer/Tokens.antt =====
-- src/dsl/dsl_lexer.c: `dsl_lexer_next_token` and `dsl_lexer_get_tokens`.
use http_runtime.Base.{
  ℕ, zero, suc, ◌+◌, ◌*◌, Bool, true, false, not, ◌&&◌, Option, none, some, List, [], ◌∷◌, ◌++◌,
  leb, ltb, ◌==◌, if◌then◌else◌, length, codes,
}
use http_runtime.Ctype.{isdigit}
use http_runtime.Dsl.Token
use http_runtime.Dsl.Token.{DslTokenType, DslToken}
use http_runtime.Dsl.Lexer.{
  DslLexer, Scan, dsl_strndup, peek, advance, advance_while, make_token, make_error_token,
  skip_spaces_and_tabs, is_ident_start, scan_number, scan_identifier, scan_string, scan_body_raw,
}

abbrev pub in_comment : ℕ → Bool
in_comment c = not (c == 0) && not (c == b'\n')

unfoldable pub scan_newline : (ℕ → Bool) → DslLexer → Scan
unfolding make_token dsl_strndup advance
scan_newline malloc lexer = (
  make_token Token.newline (dsl_strndup malloc (codes "\\n") 2) lexer.line lexer.column,
  advance lexer,
)

-- The byte is named in the message: "unexpected character 'c'".
unfoldable pub scan_unexpected : (ℕ → Bool) → DslLexer → Scan
unfolding make_error_token peek advance
scan_unexpected malloc lexer = (
  make_error_token malloc (codes "unexpected character '" ++ (peek lexer ∷ codes "'")) lexer.line
      lexer.column,
  advance lexer,
)

-- The tests on the first byte after the skipped space. `again` is the call behind a comment.
unfoldable pub scan_token : (ℕ → Bool) → (DslLexer → Scan) → DslLexer → Scan
unfolding peek make_token scan_newline scan_string scan_number scan_identifier is_ident_start
    isdigit advance_while scan_unexpected
scan_token malloc again lexer =
    let c = peek lexer in
    if c == 0
    then (make_token Token.eof none lexer.line lexer.column, lexer)
    else if c == b'\n'
    then scan_newline malloc lexer
    else if c == b'"'
    then scan_string malloc lexer
    else if isdigit c
    then scan_number malloc lexer
    else if is_ident_start c
    then scan_identifier malloc lexer
    else if c == b'#'
    then again (advance_while in_comment lexer)
    else scan_unexpected malloc lexer

-- `fuel` bounds the calls that `dsl_lexer_next_token` makes of itself.
unfoldable pub next_token_rounds : ℕ → (ℕ → Bool) → DslLexer → Scan
unfolding skip_spaces_and_tabs scan_body_raw scan_token make_token
next_token_rounds zero malloc lexer = (make_token Token.eof none lexer.line lexer.column, lexer)
next_token_rounds (suc fuel) malloc lexer =
    let now = skip_spaces_and_tabs lexer in
    let body = scan_body_raw malloc (record now { read_body_raw_next = false }) in
    let token = scan_token malloc (next_token_rounds fuel malloc) now in
    if now.read_body_raw_next then body else token

-- One call behind a comment is all there is.
unfoldable pub dsl_lexer_next_token : (ℕ → Bool) → DslLexer → Scan
unfolding next_token_rounds
dsl_lexer_next_token = next_token_rounds 2

abbrev pub is_last : DslTokenType → Bool
is_last Token.eof = true
is_last Token.error = true
is_last _ = false

-- `sizeof (DslToken)` on a 64-bit target
abbrev pub token_size : ℕ
token_size = 32

pub data Tokens : Type 0 where
  tokens : List DslToken → Tokens
  null : Tokens
  overrun : Tokens  -- a write behind the allocated array
  out_of_fuel : Tokens

-- One round of the loop in `dsl_lexer_get_tokens`, before the next token is read: the capacity
-- after the test, or `none` where `realloc` fails.
unfoldable pub grown : (ℕ → Bool) → ℕ → ℕ → Option ℕ
grown malloc count capacity =
    if leb capacity count
    then if malloc (token_size * (capacity * 2)) then some (capacity * 2) else none
    else some capacity

-- The loop; `read` is `tokens[0 .. count)`.
unfoldable pub token_loop : ℕ → (ℕ → Bool) → DslLexer → ℕ → List DslToken → Tokens
unfolding grown dsl_lexer_next_token
token_loop zero malloc lexer capacity read = out_of_fuel
token_loop (suc fuel) malloc lexer capacity read = elim (grown malloc (length read) capacity) [
  | none ↦ null
  | some room ↦
      let (token, now) = dsl_lexer_next_token malloc lexer in
      let all = read ++ token ∷ [] in
      let rest = token_loop fuel malloc now room all in
      if ltb (length read) room then if is_last token.type then tokens all else rest else overrun
]

-- A token takes a byte, except a raw body, which `BODY` announces, and the last token.
unfoldable pub dsl_lexer_get_tokens : (ℕ → Bool) → DslLexer → Tokens
unfolding token_loop
dsl_lexer_get_tokens malloc lexer =
    if malloc (token_size * 16)
    then token_loop (2 * length lexer.rest + 2) malloc lexer 16 []
    else null
