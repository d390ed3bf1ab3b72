-- ===== src/Dsl/Lexer/Trim.antt =====
-- The raw body of src/dsl/dsl_lexer.c: the line without the blanks at its two ends.
use http_runtime.Base.{
  ℕ, ◌+◌, length, length-take, Bool, true, false, some, [], ◌∷◌, ◌++◌, ◌≡◌, refl, ap, sym, subst,
  ◌∙◌, inl, inr, ◌==◌, take, drop, Every, Every-mono, arith, Bytes, take-append_le,
  take-append-drop, trimmed_length, trimmed_length-le, trimmed_length-passes, trimmed_length-take,
}
use http_runtime.Dsl.Token
use http_runtime.Dsl.Lexer.Consumes.{Consumes, Consumes-slice, advance_while-Run, line_after}
use http_runtime.Dsl.Lexer.Lexeme.{raw, TokenAt}
use http_runtime.Dsl.Lexer.Scanners.{strndup_cases, Copied, token_or_oom-TokenAt}
use http_runtime.Dsl.Lexer.{
  DslLexer, dsl_strndup, advance_while, is_blank, is_space, in_raw, scan_body_raw, token_or_oom,
}

line_after-blank : (l : ℕ) (w : Bytes) → Every is_blank w → line_after l w ≡ l
line_after-blank l [] h = refl
line_after-blank l (c ∷ w) h =
    let n : (c == b'\n') ≡ false = ground arith in rw n (line_after-blank l w h.1)

blank-space : (c : ℕ) → is_blank c ≡ true → is_space c ≡ true
blank-space c h = ground arith

copy_cases :
    (malloc : ℕ → Bool) (n : ℕ) (w v : Bytes)
    → take n v ≡ w
    → length w ≡ n
    → Copied malloc w (dsl_strndup malloc v n)
copy_cases malloc n w v e l = elim (strndup_cases malloc v n) [
  | inl (f, g) ↦ inl (f, ap (λ k. malloc (k + 1)) l ∙ g)
  | inr f ↦ inr (f ∙ ap some e)
]

-- A raw body is read behind its blanks.
pub scan_body_raw-Scanned :
    (malloc : ℕ → Bool) (a : DslLexer)
    → a.read_body_raw_next ≡ false
    → (skipped : Bytes) × (start : DslLexer) × Every is_space skipped
      × Consumes skipped a start
      × TokenAt malloc true start (scan_body_raw malloc a)
unfolding scan_body_raw
scan_body_raw-Scanned malloc a calm =
    let front = advance_while-Run is_blank a refl in
    let start = advance_while is_blank a in
    let r = advance_while-Run in_raw start refl in
    let now = advance_while in_raw start in
    let same_line : start.line ≡ a.line =
      front.reads.line_is ∙ line_after-blank a.line front.text front.all in
    let n = trimmed_length is_blank r.text in
    let copied : take n start.rest ≡ take n r.text =
      ap (take n) r.reads.rest_is
      ∙ take-append_le n r.text now.rest (trimmed_length-le is_blank r.text) in
    let long : length (take n r.text) ≡ n =
      length-take n r.text (trimmed_length-le is_blank r.text) in
    let copy = dsl_strndup malloc start.rest n in
    let split : r.text ≡ take n r.text ++ drop n r.text = sym (take-append-drop n r.text) in
    (
      front.text,
      start,
      Every-mono is_blank is_space front.text blank-space front.all,
      front.reads,
      rw (Consumes-slice r.text r.reads) (
          subst
            (λ l.
              TokenAt malloc true start
                (token_or_oom malloc Token.body_raw copy l start.column, now))
            same_line
            (token_or_oom-TokenAt malloc r.text r.reads (r.flag_is ∙ front.flag_is ∙ calm)
              Token.body_raw copy (take n r.text) refl
              (copy_cases malloc n (take n r.text) start.rest copied long)
              (raw (take n r.text) (drop n r.text) refl refl refl split r.all
                (trimmed_length-passes is_blank r.text) (trimmed_length-take is_blank r.text)
                r.stops))),
    )
