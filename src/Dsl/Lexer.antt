-- ===== src/Dsl/Lexer.antt =====
-- src/dsl/dsl_lexer.c. A lexer holds the bytes from `input + pos` up to `len` as `rest`.
-- `malloc n` says whether a request for `n` bytes succeeds.
pub mod Tokens
pub mod Consumes
pub mod Lexeme
pub mod Scanners
pub mod Trim
pub mod Next
pub mod Chain
use http_runtime.Base.{
  ℕ, zero, suc, ◌+◌, ◌-◌, ◌*◌, Bool, true, false, not, ◌&&◌, ◌||◌, Option, none, some, List, [],
  ◌∷◌, ◌++◌, leb, ◌==◌, if◌then◌else◌, length, take, Bytes, codes, bytes_eq, trimmed_length,
  c_string,
}
use http_runtime.Ctype.{isdigit, isalpha, isalnum}
use http_runtime.Dsl.Token
use http_runtime.Dsl.Token.{DslTokenType, DslToken}

pub record DslLexer : Type 0 where
  pub rest : Bytes
  pub pos : ℕ
  pub line : ℕ
  pub column : ℕ
  pub read_body_raw_next : Bool

-- `malloc` and `memcpy`; `none` is NULL.
unfoldable pub dsl_strndup : (ℕ → Bool) → Bytes → ℕ → Option Bytes
dsl_strndup malloc s n = if malloc (n + 1) then some (take n s) else none

unfoldable pub peek : DslLexer → ℕ
peek lexer = elim lexer.rest [ [] ↦ 0 | c ∷ _ ↦ c ]

unfoldable pub advance : DslLexer → DslLexer
advance lexer = elim lexer.rest [
  | [] ↦ lexer
  | c ∷ cs ↦
      if c == 0
      then lexer
      else if c == b'\n'
      then record lexer { rest = cs; pos = lexer.pos + 1; line = lexer.line + 1; column = 1 }
      else record lexer { rest = cs; pos = lexer.pos + 1; column = lexer.column + 1 }
]

-- `while (test(peek(lexer))) advance(lexer);` in at most `fuel` rounds
unfoldable pub advance_rounds : ℕ → (ℕ → Bool) → DslLexer → DslLexer
unfolding peek advance
advance_rounds zero test lexer = lexer
advance_rounds (suc fuel) test lexer = elim (test (peek lexer)) [
  | true ↦ advance_rounds fuel test (advance lexer)
  | false ↦ lexer
]

unfoldable pub advance_while : (ℕ → Bool) → DslLexer → DslLexer
unfolding advance_rounds
advance_while test lexer = advance_rounds (length lexer.rest) test lexer

-- The bytes from `input + start` up to the position of a later lexer.
abbrev pub slice_to : (ℕ → Bool) → DslLexer → DslLexer → Option Bytes
slice_to malloc start now = dsl_strndup malloc start.rest (now.pos - start.pos)

unfoldable pub make_token : DslTokenType → Option Bytes → ℕ → ℕ → DslToken
make_token type str line column = record { type = type; str = str; line = line; column = column }

unfoldable pub make_error_token : (ℕ → Bool) → Bytes → ℕ → ℕ → DslToken
unfolding make_token dsl_strndup
make_error_token malloc message line column =
    make_token Token.error (dsl_strndup malloc message (length message)) line column

-- A token with its text, or the error token if the copy of the text could not be allocated.
unfoldable pub token_or_oom : (ℕ → Bool) → DslTokenType → Option Bytes → ℕ → ℕ → DslToken
unfolding make_token make_error_token
token_or_oom malloc type none line column =
    make_error_token malloc (codes "out of memory") line column
token_or_oom malloc type (some str) line column = make_token type (some str) line column

abbrev pub is_space : ℕ → Bool
is_space c = c == b' ' || c == b'\t' || c == b'\r'

abbrev pub is_blank : ℕ → Bool
is_blank c = c == b' ' || c == b'\t'

unfoldable pub skip_spaces_and_tabs : DslLexer → DslLexer
unfolding advance_while
skip_spaces_and_tabs = advance_while is_space

unfoldable pub is_ident_start : ℕ → Bool
unfolding isalpha
is_ident_start c = isalpha c || c == b'_' || c == b'-' || c == b':' || c == b'/' || c == b'.'

unfoldable pub is_ident_char : ℕ → Bool
unfolding isalnum
is_ident_char c =
    isalnum c
    || c == b'_'
    || c == b'-'
    || c == b':'
    || c == b'/'
    || c == b'.'
    || c == b'?'
    || c == b'&'
    || c == b'='
    || c == b'%'
    || c == b'#'

unfoldable pub keyword_type : Bytes → DslTokenType
unfolding bytes_eq
keyword_type word =
    if bytes_eq word (codes "GET")
    then Token.get
    else if bytes_eq word (codes "POST")
    then Token.post
    else if bytes_eq word (codes "PUT")
    then Token.put
    else if bytes_eq word (codes "DELETE")
    then Token.delete
    else if bytes_eq word (codes "PATCH")
    then Token.patch
    else if bytes_eq word (codes "EXPECT")
    then Token.expect
    else if bytes_eq word (codes "status")
    then Token.status
    else if bytes_eq word (codes "header")
    then Token.header
    else if bytes_eq word (codes "body")
    then Token.body
    else if bytes_eq word (codes "contains")
    then Token.contains
    else if bytes_eq word (codes "BODY")
    then Token.body_stmt
    else Token.ident

abbrev pub Scan : Type 0
Scan = DslToken × DslLexer

unfoldable pub scan_number : (ℕ → Bool) → DslLexer → Scan
unfolding advance_while token_or_oom dsl_strndup isdigit
scan_number malloc lexer =
    let now = advance_while isdigit lexer in
    (token_or_oom malloc Token.int (slice_to malloc lexer now) lexer.line lexer.column, now)

abbrev pub is_body_stmt : DslTokenType → Bool
is_body_stmt Token.body_stmt = true
is_body_stmt _ = false

-- The tail of `scan_identifier`, on the copied word.
unfoldable pub word_token : (ℕ → Bool) → Option Bytes → ℕ → ℕ → DslLexer → Scan
unfolding make_token make_error_token keyword_type
word_token malloc none line column now =
    (make_error_token malloc (codes "out of memory") line column, now)
word_token malloc (some word) line column now =
    let type = keyword_type word in
    (
      make_token type (some word) line column,
      record now {
        read_body_raw_next = if is_body_stmt type then true else now.read_body_raw_next;
      },
    )

unfoldable pub scan_identifier : (ℕ → Bool) → DslLexer → Scan
unfolding advance_while word_token dsl_strndup is_ident_char
scan_identifier malloc lexer =
    let now = advance_while is_ident_char lexer in
    word_token malloc (slice_to malloc lexer now) lexer.line lexer.column now

abbrev pub in_string : ℕ → Bool
in_string c = not (c == b'"') && not (c == 0) && not (c == b'\n')

unfoldable pub scan_string : (ℕ → Bool) → DslLexer → Scan
unfolding advance_while advance peek token_or_oom make_error_token dsl_strndup
scan_string malloc lexer =
    let start = advance lexer in
    let now = advance_while in_string start in
    if not (peek now == b'"')
    then (make_error_token malloc (codes "unterminated string") lexer.line lexer.column, now)
    else (
      token_or_oom malloc Token.string (slice_to malloc start now) lexer.line lexer.column,
      advance now,
    )

abbrev pub in_raw : ℕ → Bool
in_raw c = not (c == 0) && not (c == b'\n') && not (c == b'\r')

unfoldable pub scan_body_raw : (ℕ → Bool) → DslLexer → Scan
unfolding advance_while token_or_oom dsl_strndup trimmed_length
scan_body_raw malloc lexer =
    let start = advance_while is_blank lexer in
    let now = advance_while in_raw start in
    let len = trimmed_length is_blank (take (now.pos - start.pos) start.rest) in
    (
      token_or_oom malloc Token.body_raw (dsl_strndup malloc start.rest len) lexer.line
          start.column,
      now,
    )

unfoldable pub dsl_create_lexer : Bytes → DslLexer
unfolding c_string
dsl_create_lexer input = record {
  rest = c_string input;
  pos = 0;
  line = 1;
  column = 1;
  read_body_raw_next = false;
}
