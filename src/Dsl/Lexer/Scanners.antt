-- ===== src/Dsl/Lexer/Scanners.antt =====
-- Each scanning function of src/dsl/dsl_lexer.c reads a token of the grammar, at its place.
use http_runtime.Base.{
  ℕ, ◌+◌, length, ◌-◌, Bool, true, false, not, Option, none, some, [], ◌∷◌, ◌++◌, ◌≡◌, refl, ap,
  sym, ◌∙◌, ◌⊎◌, inl, inr, ◌==◌, if◌then◌else◌, Bool-cases, take, arith, Bytes, codes, ==_iff,
}
use http_runtime.Ctype.{isdigit}
use http_runtime.Dsl.Token
use http_runtime.Dsl.Token.{DslTokenType, DslToken}
use http_runtime.Dsl.Lexer.Consumes.{
  Consumes, Consumes-trans, Consumes-slice, Run-head, advance_while-Run, advance-Consumes,
  advance_flag, peek_byte, peek_lem,
}
use http_runtime.Dsl.Lexer.Lexeme.{
  Lexeme, Lexed, known, newline, number, word, quoted, unexpected, unterminated, no_memory,
  starts_token, error_text, TokenAt,
}
use http_runtime.Dsl.Lexer.Tokens.{scan_newline, scan_unexpected}
use http_runtime.Dsl.Lexer.{
  DslLexer, dsl_strndup, peek, advance, advance_while, make_error_token, token_or_oom, slice_to,
  is_ident_start, is_ident_char, is_body_stmt, keyword_type, word_token, scan_number,
  scan_identifier, scan_string, in_string,
}

-- A copy has the text that is asked for, or there is no block for it.
pub strndup_cases :
    (malloc : ℕ → Bool) (s : Bytes) (n : ℕ)
    → ((dsl_strndup malloc s n ≡ none) × (malloc (n + 1) ≡ false))
      ⊎ (dsl_strndup malloc s n ≡ some (take n s))
unfolding dsl_strndup
strndup_cases malloc s n = elim (Bool-cases (malloc (n + 1))) [
  | inl e ↦ inr (rw e refl)
  | inr e ↦ inl (rw e refl, e)
]

-- The copy of the text `w` of a token, or no block for it
abbrev pub Copied : (ℕ → Bool) → Bytes → Option Bytes → Type 0
Copied malloc w o = ((o ≡ none) × (malloc (length w + 1) ≡ false)) ⊎ (o ≡ some w)

pub slice_cases :
    (malloc : ℕ → Bool) (w : Bytes) {a b : DslLexer}
    → Consumes w a b
    → Copied malloc w (slice_to malloc a b)
slice_cases malloc w {a} {b} r =
    let n : b.pos - a.pos ≡ length w = let e = r.pos_is in omega (arith, e) in
    elim (strndup_cases malloc a.rest (b.pos - a.pos)) [
      | inl (e, f) ↦ inl (e, ap (λ k. malloc (k + 1)) (sym n) ∙ f)
      | inr e ↦ inr (e ∙ ap some (Consumes-slice w r))
    ]

module _ (malloc : ℕ → Bool) {flag : Bool} {a b : DslLexer} (w : Bytes) (reads : Consumes w a b)
    (calm : b.read_body_raw_next ≡ false) where
  error-TokenAt :
      (m : Bytes)
      → Lexed malloc flag (peek b) Token.error (error_text malloc m) w
      → TokenAt malloc flag a (make_error_token malloc m a.line a.column, b)
  unfolding make_error_token
  error-TokenAt m l = record {
    text = w;
    reads = reads;
    line_is = refl;
    column_is = refl;
    lexeme = l;
    flag_is = calm;
  }

  oom-TokenAt :
      (t : DslTokenType) (s : Bytes)
      → malloc (length s + 1) ≡ false
      → Lexeme flag (peek b) t (some s) w
      → TokenAt malloc flag a (make_error_token malloc (codes "out of memory") a.line a.column, b)
  oom-TokenAt t s f l = error-TokenAt (codes "out of memory") (no_memory t s refl refl l f)

  -- A token whose text may fail to be copied.
  pub token_or_oom-TokenAt :
      (t : DslTokenType) (o : Option Bytes) (s : Bytes)
      → is_body_stmt t ≡ false
      → Copied malloc s o
      → Lexeme flag (peek b) t (some s) w
      → TokenAt malloc flag a (token_or_oom malloc t o a.line a.column, b)
  unfolding token_or_oom
  token_or_oom-TokenAt t o s plain (inl (e, f)) l = rw e (oom-TokenAt t s f l)
  token_or_oom-TokenAt t o s plain (inr e) l = rw e (record {
    text = w;
    reads = reads;
    line_is = refl;
    column_is = refl;
    lexeme = known l;
    flag_is = calm ∙ sym plain;
  })

pub scan_number-TokenAt :
    (malloc : ℕ → Bool) (a : DslLexer)
    → a.read_body_raw_next ≡ false
    → isdigit (peek a) ≡ true
    → TokenAt malloc false a (scan_number malloc a)
unfolding scan_number
scan_number-TokenAt malloc a calm h =
    let r = advance_while-Run isdigit a (unfold isdigit in refl) in
    let (c, w, e, _) = Run-head r h in
    token_or_oom-TokenAt malloc r.text r.reads (r.flag_is ∙ calm) Token.int _ r.text refl
      (slice_cases malloc r.text r.reads) (number refl refl refl (λ n. cc) r.all r.stops)

pub scan_identifier-TokenAt :
    (malloc : ℕ → Bool) (a : DslLexer)
    → a.read_body_raw_next ≡ false
    → is_ident_start (peek a) ≡ true
    → is_ident_char (peek a) ≡ true
    → TokenAt malloc false a (scan_identifier malloc a)
unfolding scan_identifier word_token
scan_identifier-TokenAt malloc a calm h k =
    let r = advance_while-Run is_ident_char a (unfold is_ident_char in refl) in
    let (c, cs, e, p) = Run-head r k in
    elim (slice_cases malloc r.text r.reads) [
      | inl (o, f) ↦
          rw (o, word_token)
            (oom-TokenAt malloc r.text r.reads (r.flag_is ∙ calm) (keyword_type r.text) r.text f
              (word c cs refl refl refl e (rw p at h) r.all r.stops))
      | inr o ↦
          rw (o, word_token)
            (record {
              text = r.text;
              reads = record {
                rest_is = r.reads.rest_is;
                pos_is = r.reads.pos_is;
                line_is = r.reads.line_is;
                column_is = r.reads.column_is;
              };
              line_is = refl;
              column_is = refl;
              lexeme = known (word c cs refl refl refl e (rw p at h) r.all r.stops);
              flag_is = flag_after (keyword_type r.text) (r.flag_is ∙ calm);
            })
    ]
  where
    flag_after :
        (t : DslTokenType) {f : Bool}
        → f ≡ false
        → (if is_body_stmt t then true else f) ≡ is_body_stmt t
    flag_after t e = elim (Bool-cases (is_body_stmt t)) [ inl b ↦ rw b | inr b ↦ rw b e ]

pub scan_newline-TokenAt :
    (malloc : ℕ → Bool) (a : DslLexer)
    → a.read_body_raw_next ≡ false
    → (peek a == b'\n') ≡ true
    → TokenAt malloc false a (scan_newline malloc a)
unfolding scan_newline
scan_newline-TokenAt malloc a calm h =
    let (c, cs, e, n, t) = peek_byte (λ c. c == b'\n') a refl h in
    let c_is : c ≡ b'\n' = (==_iff c b'\n').0 t in
    record {
      text = c ∷ [];
      reads = (advance-Consumes a e n).0;
      line_is = refl;
      column_is = refl;
      lexeme = known (newline refl refl (ap (λ x. x ∷ []) c_is));
      flag_is = advance_flag a ∙ calm;
    }

pub scan_unexpected-TokenAt :
    (malloc : ℕ → Bool) (a : DslLexer)
    → a.read_body_raw_next ≡ false
    → (peek a == 0) ≡ false
    → starts_token (peek a) ≡ false
    → TokenAt malloc false a (scan_unexpected malloc a)
unfolding scan_unexpected
scan_unexpected-TokenAt malloc a calm h none_starts =
    let (c, cs, e, n, t) = peek_byte (λ c. not (c == 0)) a refl (rw h refl) in
    let peek_is = peek_lem a e in
    error-TokenAt malloc (c ∷ []) (advance-Consumes a e n).0 (advance_flag a ∙ calm)
      (codes "unexpected character '" ++ (peek a ∷ codes "'"))
      (unexpected (peek a) refl refl refl (ap (λ x. x ∷ []) (sym peek_is)) none_starts)

pub scan_string-TokenAt :
    (malloc : ℕ → Bool) (a : DslLexer)
    → a.read_body_raw_next ≡ false
    → (peek a == b'"') ≡ true
    → TokenAt malloc false a (scan_string malloc a)
unfolding scan_string
scan_string-TokenAt malloc a calm h =
    let (c, cs, e, n, t) = peek_byte (λ c. c == b'"') a refl h in
    let c_is : c ≡ b'"' = (==_iff c b'"').0 t in
    let opening = advance-Consumes a e n in
    let r = advance_while-Run in_string (advance a) refl in
    let now = advance_while in_string (advance a) in
    let calm_now : now.read_body_raw_next ≡ false = r.flag_is ∙ advance_flag a ∙ calm in
    elim (Bool-cases (peek now == b'"')) [
      | inr open_end ↦ rw open_end (
          error-TokenAt malloc (c ∷ r.text) (Consumes-trans (c ∷ []) r.text opening.0 r.reads)
            calm_now (codes "unterminated string")
            (unterminated r.text refl refl refl (rw c_is refl) r.all r.stops open_end))
      | inl closed ↦
          let (d, ds, f, m, u) = peek_byte (λ c. c == b'"') now refl closed in
          let d_is : d ≡ b'"' = (==_iff d b'"').0 u in
          let closing = advance-Consumes now f m in
          rw closed (
            token_or_oom-TokenAt malloc (c ∷ (r.text ++ (d ∷ [])))
              (Consumes-trans (c ∷ []) (r.text ++ (d ∷ [])) opening.0
                (Consumes-trans r.text (d ∷ []) r.reads closing.0))
              (advance_flag now ∙ calm_now) Token.string _ r.text refl
              (slice_cases malloc r.text r.reads)
              (quoted r.text refl refl refl (rw (c_is, d_is)) r.all))
    ]
