-- ===== src/Dsl/Lexer/Lexeme.antt =====
-- The lexical grammar: which bytes each token stands for, and what may stand before it.
use http_runtime.Base.{
  ℕ, ◌+◌, ◌||◌, length, codes, Bool, true, false, Option, none, some, [], ◌∷◌, ◌++◌, ◌≡◌, ◌≢◌, ◌==◌,
  Every, Bytes, trimmed_length,
}
use http_runtime.Ctype.{isdigit}
use http_runtime.Dsl.Token
use http_runtime.Dsl.Token.{DslTokenType, DslToken}
use http_runtime.Dsl.Lexer.Consumes.{Consumes}
use http_runtime.Dsl.Lexer.Tokens.{in_comment}
use http_runtime.Dsl.Lexer.{
  DslLexer, Scan, dsl_strndup, peek, is_space, is_blank, in_string, in_raw, is_ident_start,
  is_ident_char, is_body_stmt, keyword_type,
}

-- A byte that a token or a comment begins with, or the end of the input
abbrev pub starts_token : ℕ → Bool
starts_token c = c == 0 || c == b'\n' || c == b'"' || isdigit c || is_ident_start c || c == b'#'

abbrev pub error_text : (ℕ → Bool) → Bytes → Option Bytes
error_text malloc message = dsl_strndup malloc message (length message)

-- Text `w` with the byte `next` behind it is a token of type `t` and content `o`. The flag says
-- that `BODY` was the last token.
pub data Lexeme (flag : Bool) (next : ℕ) (t : DslTokenType) (o : Option Bytes) (w : Bytes)
    : Type 0 where
  eof :
      flag ≡ false → t ≡ Token.eof → o ≡ none → w ≡ [] → (next == 0) ≡ true → Lexeme flag next t o w
  newline : flag ≡ false → t ≡ Token.newline → w ≡ b'\n' ∷ [] → Lexeme flag next t o w
  number :
      flag ≡ false
      → t ≡ Token.int
      → o ≡ some w
      → w ≢ []
      → Every isdigit w
      → isdigit next ≡ false
      → Lexeme flag next t o w
  word :
      (c : ℕ) (cs : Bytes)
      → flag ≡ false
      → t ≡ keyword_type w
      → o ≡ some w
      → w ≡ c ∷ cs
      → is_ident_start c ≡ true
      → Every is_ident_char w
      → is_ident_char next ≡ false
      → Lexeme flag next t o w
  quoted :
      (s : Bytes)
      → flag ≡ false
      → t ≡ Token.string
      → o ≡ some s
      → w ≡ b'"' ∷ (s ++ (b'"' ∷ []))
      → Every in_string s
      → Lexeme flag next t o w
  raw :
      (s blanks : Bytes)
      → flag ≡ true
      → t ≡ Token.body_raw
      → o ≡ some s
      → w ≡ s ++ blanks
      → Every in_raw w
      → Every is_blank blanks
      → trimmed_length is_blank s ≡ trimmed_length is_blank w
      → in_raw next ≡ false
      → Lexeme flag next t o w

-- What is answered on a text: the token that it is, or an error token for a reason.
pub data Lexed (malloc : ℕ → Bool) (flag : Bool) (next : ℕ) (t : DslTokenType) (o : Option Bytes)
    (w : Bytes) : Type 0 where
  known : Lexeme flag next t o w → Lexed malloc flag next t o w
  -- No token begins with the byte.
  unexpected :
      (c : ℕ)
      → flag ≡ false
      → t ≡ Token.error
      → o ≡ error_text malloc (codes "unexpected character '" ++ (c ∷ codes "'"))
      → w ≡ c ∷ []
      → starts_token c ≡ false
      → Lexed malloc flag next t o w
  -- The line or the input ends before the quote does.
  unterminated :
      (s : Bytes)
      → flag ≡ false
      → t ≡ Token.error
      → o ≡ error_text malloc (codes "unterminated string")
      → w ≡ b'"' ∷ s
      → Every in_string s
      → in_string next ≡ false
      → (next == b'"') ≡ false
      → Lexed malloc flag next t o w
  -- The text is that of a token, but there is no block for its content `s`.
  no_memory :
      (t' : DslTokenType) (s : Bytes)
      → t ≡ Token.error
      → o ≡ error_text malloc (codes "out of memory")
      → Lexeme flag next t' (some s) w
      → malloc (length s + 1) ≡ false
      → Lexed malloc flag next t o w

-- What is skipped before a token: space, and a comment up to the end of its line.
pub data Gap (w : Bytes) : Type 0 where
  spaces : Every is_space w → Gap w
  comment : (s b : Bytes) → w ≡ s ++ (b'#' ∷ b) → Every is_space s → Every in_comment b → Gap w

-- The token was read from lexer `a` on, at its place, and only `BODY` announces a raw body.
pub record TokenAt (malloc : ℕ → Bool) (flag : Bool) (a : DslLexer) (s : Scan) : Type 0 where
  pub text : Bytes
  pub reads : Consumes text a s.1
  pub line_is : s.0.line ≡ a.line
  pub column_is : s.0.column ≡ a.column
  pub lexeme : Lexed malloc flag (peek s.1) s.0.type s.0.str text
  pub flag_is : s.1.read_body_raw_next ≡ is_body_stmt s.0.type

-- The same behind what is skipped.
pub record Scanned (malloc : ℕ → Bool) (a : DslLexer) (s : Scan) : Type 0 where
  pub skipped : Bytes
  pub start : DslLexer
  pub gap : Gap skipped
  pub skips : Consumes skipped a start
  pub token_at : TokenAt malloc a.read_body_raw_next start s
