-- ===== src/Dsl/Lexer/Next.antt =====
-- `dsl_lexer_next_token` of src/dsl/dsl_lexer.c against the lexical grammar.
use http_runtime.Base.{
  ℕ, suc, Bool, true, false, none, [], ◌∷◌, ◌++◌, ◌≡◌, refl, ap, sym, subst, ◌∙◌, ◌⊎◌, inl, inr,
  ◌==◌, Bool-cases, if_true, if_false, Every, Every-append, arith, Bytes, ==_iff,
}
use http_runtime.Ctype.{isdigit}
use http_runtime.Dsl.Token
use http_runtime.Dsl.Lexer.Consumes.{
  Consumes, Consumes-refl, Consumes-trans, Run, Run-head, advance_while-Run, advance_while_stop,
}
use http_runtime.Dsl.Lexer.Lexeme.{eof, known, Gap, spaces, comment, TokenAt, Scanned}
use http_runtime.Dsl.Lexer.Scanners.{
  scan_number-TokenAt, scan_identifier-TokenAt, scan_newline-TokenAt, scan_unexpected-TokenAt,
  scan_string-TokenAt,
}
use http_runtime.Dsl.Lexer.Trim.{scan_body_raw-Scanned}
use http_runtime.Dsl.Lexer.Tokens.{in_comment, scan_token, next_token_rounds, dsl_lexer_next_token}
use http_runtime.Dsl.Lexer.{
  DslLexer, Scan, peek, advance_while, make_token, is_space, is_ident_start, is_ident_char,
  skip_spaces_and_tabs, scan_body_raw,
}

ident_start-char : (c : ℕ) → is_ident_start c ≡ true → is_ident_char c ≡ true
unfolding is_ident_start is_ident_char
ident_start-char c h = ground arith

eof-TokenAt :
    (malloc : ℕ → Bool) (a : DslLexer)
    → a.read_body_raw_next ≡ false
    → (peek a == 0) ≡ true
    → TokenAt malloc false a (make_token Token.eof none a.line a.column, a)
unfolding make_token
eof-TokenAt malloc a calm h = record {
  text = [];
  reads = Consumes-refl a;
  line_is = refl;
  column_is = refl;
  lexeme = known (eof refl refl refl refl h);
  flag_is = calm;
}

-- The first byte decides the scanner; at a `#` the function calls itself behind the comment.
scan_token_cases :
    (malloc : ℕ → Bool) (again : DslLexer → Scan) (a : DslLexer)
    → a.read_body_raw_next ≡ false
    → TokenAt malloc false a (scan_token malloc again a)
      ⊎ (((peek a == b'#') ≡ true)
          × (scan_token malloc again a ≡ again (advance_while in_comment a)))
unfolding scan_token
scan_token_cases malloc again a calm = elim (Bool-cases (peek a == 0)) [
  | inl p ↦ rw p (inl (eof-TokenAt malloc a calm p))
  | inr n₀ ↦ rw n₀ (elim (Bool-cases (peek a == b'\n')) [
    | inl p ↦ rw p (inl (scan_newline-TokenAt malloc a calm p))
    | inr n₁ ↦ rw n₁ (elim (Bool-cases (peek a == b'"')) [
      | inl p ↦ rw p (inl (scan_string-TokenAt malloc a calm p))
      | inr n₂ ↦ rw n₂ (elim (Bool-cases (isdigit (peek a))) [
        | inl p ↦ rw p (inl (scan_number-TokenAt malloc a calm p))
        | inr n₃ ↦ rw n₃ (elim (Bool-cases (is_ident_start (peek a))) [
          | inl p ↦
              rw p (inl (scan_identifier-TokenAt malloc a calm p (ident_start-char (peek a) p)))
          | inr n₄ ↦ rw n₄ (elim (Bool-cases (peek a == b'#')) [
            | inl p ↦ rw p (inr (refl, refl))
            | inr n₅ ↦
                rw n₅ (
                  inl (scan_unexpected-TokenAt malloc a calm n₀ (rw (n₀, n₁, n₂, n₃, n₄, n₅) refl)))
          ])
        ])
      ])
    ])
  ])
]

next_raw :
    (fuel : ℕ) (malloc : ℕ → Bool) (a : DslLexer)
    → (skip_spaces_and_tabs a).read_body_raw_next ≡ true
    → next_token_rounds (suc fuel) malloc a
      ≡ scan_body_raw malloc (record (skip_spaces_and_tabs a) { read_body_raw_next = false })
unfolding next_token_rounds
next_raw fuel malloc a h = if_true _ _ _ h

next_token :
    (fuel : ℕ) (malloc : ℕ → Bool) (a : DslLexer)
    → (skip_spaces_and_tabs a).read_body_raw_next ≡ false
    → next_token_rounds (suc fuel) malloc a
      ≡ scan_token malloc (next_token_rounds fuel malloc) (skip_spaces_and_tabs a)
unfolding next_token_rounds
next_token fuel malloc a h = if_false _ _ _ h

-- Behind a comment stands the end of the line or of the input.
next_token_calm :
    (malloc : ℕ → Bool) (a : DslLexer)
    → a.read_body_raw_next ≡ false
    → in_comment (peek a) ≡ false
    → TokenAt malloc false a (next_token_rounds 1 malloc a)
next_token_calm malloc a calm h =
    let still : skip_spaces_and_tabs a ≡ a =
      unfold skip_spaces_and_tabs in advance_while_stop is_space a (ground arith) in
    let step = next_token 0 malloc a (ap (λ (x : DslLexer). x.read_body_raw_next) still ∙ calm) in
    let whole = step ∙ ap (scan_token malloc (next_token_rounds 0 malloc)) still in
    elim (scan_token_cases malloc (next_token_rounds 0 malloc) a calm) [
      | inl t ↦ subst (TokenAt malloc false a) (sym whole) t
      | inr (mark, _) ↦ let c_is = (==_iff (peek a) b'#').0 mark in let f = rw c_is at h in cc
    ]

-- The text of a comment begins with `#`.
comment-Gap :
    (s : Bytes) {b c : DslLexer}
    → Every is_space s
    → (peek b == b'#') ≡ true
    → (r : Run in_comment b c) → Gap (s ++ r.text)
comment-Gap s {b} {c} h mark r =
    let p : peek b ≡ b'#' = (==_iff (peek b) b'#').0 mark in
    let (d, w, e, q) = Run-head r (rw p refl) in
    comment s w (ap (◌++◌ s) (e ∙ ap (λ x. x ∷ w) (sym q ∙ p))) h
      (let whole : Every in_comment (d ∷ w) = subst (Every in_comment) e r.all in whole.1)

unflag :
    (f : Bool) (w : Bytes) {a b : DslLexer}
    → Consumes w (record a { read_body_raw_next = f }) b
    → Consumes w a b
unflag f w r = record {
  rest_is = r.rest_is;
  pos_is = r.pos_is;
  line_is = r.line_is;
  column_is = r.column_is;
}

TokenAt-flag :
    {malloc : ℕ → Bool} {f g : Bool} (a : DslLexer) (s : Scan)
    → f ≡ g
    → TokenAt malloc f a s
    → TokenAt malloc g a s
TokenAt-flag {malloc} a s e t = subst (λ h. TokenAt malloc h a s) e t

-- Every call reads one token of the grammar, behind space and at most one comment, and gives it
-- the line and the column of its first byte.
-- An error token has one of three reasons, named in its text: the byte begins no token, a string
-- is not ended on its line, or there is no memory for the content of the token that was read.
pub dsl_lexer_next_token-Scanned :
    (malloc : ℕ → Bool) (lexer : DslLexer)
    → Scanned malloc lexer (dsl_lexer_next_token malloc lexer)
unfolding dsl_lexer_next_token skip_spaces_and_tabs
dsl_lexer_next_token-Scanned malloc a =
    let r = advance_while-Run is_space a refl in
    let now = advance_while is_space a in
    elim (Bool-cases a.read_body_raw_next) [
      | inl expected ↦
          let (v, start, blank, skips, t) =
            scan_body_raw-Scanned malloc (record now { read_body_raw_next = false }) refl in
          record {
            skipped = r.text ++ v;
            start = start;
            gap = spaces (Every-append is_space r.text v r.all blank);
            skips = Consumes-trans r.text v r.reads (unflag false v skips);
            token_at =
                subst (TokenAt malloc a.read_body_raw_next start)
                  (sym (next_raw 1 malloc a (r.flag_is ∙ expected)))
                  (TokenAt-flag start _ (sym expected) t);
          }
      | inr calm ↦
          let still = r.flag_is ∙ calm in
          let step = next_token 1 malloc a still in
          elim (scan_token_cases malloc (next_token_rounds 1 malloc) now still) [
            | inl t ↦ record {
              skipped = r.text;
              start = now;
              gap = spaces r.all;
              skips = r.reads;
              token_at =
                  TokenAt-flag now _ (sym calm) (subst (TokenAt malloc false now) (sym step) t);
            }
            | inr (mark, e) ↦
                let k = advance_while-Run in_comment now refl in
                let b = advance_while in_comment now in
                record {
                  skipped = r.text ++ k.text;
                  start = b;
                  gap = comment-Gap r.text r.all mark k;
                  skips = Consumes-trans r.text k.text r.reads k.reads;
                  token_at = TokenAt-flag b _ (sym calm) (
                      subst (TokenAt malloc false b) (sym (step ∙ e))
                        (next_token_calm malloc b (k.flag_is ∙ still) k.stops));
                }
          ]
    ]
