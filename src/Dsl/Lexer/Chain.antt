-- ===== src/Dsl/Lexer/Chain.antt =====
-- `dsl_lexer_get_tokens` of src/dsl/dsl_lexer.c: it ends, stays inside its array, and reads the
-- input token by token.
use http_runtime.Base.{
  ℕ, zero, suc, ◌+◌, ◌*◌, ◌≤◌, ◌<◌, Bool, true, false, Option, none, some, List, [], ◌∷◌, ◌++◌, ◌≡◌,
  refl, ap, sym, subst, ◌∙◌, inl, inr, if◌then◌else◌, Bool-cases, Option-cases, List-cases, length,
  length-append, arith, Bytes, append_assoc, lt→ltb, ltb,
}
use http_runtime.Dsl.Token.{DslTokenType, DslToken}
use http_runtime.Dsl.Lexer.Lexeme.{Lexeme, Lexed, Scanned}
use http_runtime.Dsl.Lexer.Next.{dsl_lexer_next_token-Scanned}
use http_runtime.Dsl.Lexer.Tokens.{
  Tokens, tokens, null, overrun, out_of_fuel, is_last, grown, token_loop, dsl_lexer_next_token,
  dsl_lexer_get_tokens, token_size,
}
use http_runtime.Dsl.Lexer.{DslLexer, Scan, is_body_stmt}

-- The tokens that successive calls read, up to the first one that is EOF or ERROR.
pub data Chain (malloc : ℕ → Bool) : DslLexer → List DslToken → Type 0 where
  last :
      {a : DslLexer} (t : DslToken) (b : DslLexer)
      → Scanned malloc a (t, b)
      → is_last t.type ≡ true
      → Chain malloc a (t ∷ [])
  more :
      {a : DslLexer} (t : DslToken) (b : DslLexer) (ts : List DslToken)
      → Scanned malloc a (t, b)
      → is_last t.type ≡ false
      → Chain malloc b ts
      → Chain malloc a (t ∷ ts)

abbrev pub bit : Bool → ℕ
bit b = if b then 1 else 0

-- What is left to do: twice the bytes, and one for a raw body that is due.
abbrev pub work : DslLexer → ℕ
work a = 2 * length a.rest + bit a.read_body_raw_next

-- A token other than the last takes a byte or ends the wait for a raw body.
Lexeme-work :
    {flag : Bool} {next : ℕ} {t : DslTokenType} {o : Option Bytes} (w : Bytes)
    → Lexeme flag next t o w
    → is_last t ≡ false
    → 1 + bit (is_body_stmt t) ≤ 2 * length w + bit flag
Lexeme-work w (Lexeme.eof f e _ _ _) h = let k = rw e at h in cc
Lexeme-work w (Lexeme.newline f e g) h = rw (e, f, g) (omega arith)
Lexeme-work w (Lexeme.number f e _ ne _ _) h = elim (List-cases w) [
  | inl z ↦ absurd (ne z)
  | inr (c, cs, z) ↦ rw (e, f, z) (omega arith)
]
Lexeme-work {t = t} w (Lexeme.word c cs f e _ z _ _ _) h = elim (Bool-cases (is_body_stmt t)) [
  | inl b ↦ rw (b, f, z) (omega arith)
  | inr b ↦ rw (b, f, z) (omega arith)
]
Lexeme-work w (Lexeme.quoted s f e _ z _) h = rw (e, f, z) (omega arith)
Lexeme-work w (Lexeme.raw s v f e _ _ _ _ _ _) h = rw (e, f) (omega arith)

Lexed-work :
    {malloc : ℕ → Bool} {flag : Bool} {next : ℕ} {t : DslTokenType} {o : Option Bytes} (w : Bytes)
    → Lexed malloc flag next t o w
    → is_last t ≡ false
    → 1 + bit (is_body_stmt t) ≤ 2 * length w + bit flag
Lexed-work w (Lexed.known l) h = Lexeme-work w l h
Lexed-work w (Lexed.unexpected c f e _ _ _) h = let k = rw e at h in cc
Lexed-work w (Lexed.unterminated s f e _ _ _ _ _) h = let k = rw e at h in cc
Lexed-work w (Lexed.no_memory t' s e _ _ _) h = let k = rw e at h in cc

pub next_token-work :
    {malloc : ℕ → Bool} (a : DslLexer) (s : Scan)
    → Scanned malloc a s
    → is_last s.0.type ≡ false
    → work s.1 < work a
next_token-work a s r h =
    let t = r.token_at in
    omega (
      arith,
      Lexed-work t.text t.lexeme h,
      ap bit t.flag_is,
      ap length r.skips.rest_is,
      ap length t.reads.rest_is,
      length-append r.skipped r.start.rest,
      length-append t.text s.1.rest,
    )

-- A result that is no failure of the loop, with the tokens behind those that were read before.
abbrev Good : (ℕ → Bool) → DslLexer → List DslToken → Tokens → Type 0
Good malloc a read (tokens ts) = (new : List DslToken) × (ts ≡ read ++ new) × Chain malloc a new
Good malloc a read null = (n : ℕ) × (malloc n ≡ false)
Good malloc a read overrun = ⊥
Good malloc a read out_of_fuel = ⊥

Good-more :
    (malloc : ℕ → Bool) (a : DslLexer) (s : Scan) (read : List DslToken) (r : Tokens)
    → Scanned malloc a s
    → is_last s.0.type ≡ false
    → Good malloc s.1 (read ++ s.0 ∷ []) r
    → Good malloc a read r
Good-more malloc a s read (tokens ts) sc h (new, e, c) =
    (s.0 ∷ new, e ∙ append_assoc read (s.0 ∷ []) new, more s.0 s.1 new sc h c)
Good-more malloc a s read null sc h g = g
Good-more malloc a s read overrun sc h g = absurd g
Good-more malloc a s read out_of_fuel sc h g = absurd g

grown-room :
    (malloc : ℕ → Bool) (n capacity : ℕ) {room : ℕ}
    → n ≤ capacity
    → 1 ≤ capacity
    → grown malloc n capacity ≡ some room
    → n + 1 ≤ room
unfolding grown
grown-room malloc n capacity h k e = ground arith

grown-none :
    (malloc : ℕ → Bool) (n capacity : ℕ)
    → grown malloc n capacity ≡ none
    → malloc (token_size * (capacity * 2)) ≡ false
unfolding grown
grown-none malloc n capacity e = ground arith

token_loop-Good :
    (fuel : ℕ) (malloc : ℕ → Bool) (a : DslLexer) (capacity : ℕ) (read : List DslToken)
    → length read ≤ capacity
    → 1 ≤ capacity
    → work a < fuel
    → Good malloc a read (token_loop fuel malloc a capacity read)
unfolding token_loop
token_loop-Good zero malloc a capacity read h k f = absurd (omega arith)
token_loop-Good (suc fuel) malloc a capacity read h k f =
    elim (Option-cases (grown malloc (length read) capacity)) [
      | inl e ↦
          rw (e, token_loop)
            (token_size * (capacity * 2), grown-none malloc (length read) capacity e)
      | inr (room, e) ↦
          let s = dsl_lexer_next_token malloc a in
          let sc = dsl_lexer_next_token-Scanned malloc a in
          let fits : length read + 1 ≤ room = grown-room malloc (length read) capacity h k e in
          let inside : ltb (length read) room ≡ true = lt→ltb _ _ (omega arith) in
          elim (Bool-cases (is_last s.0.type)) [
            | inl l ↦ rw (e, token_loop) (rw inside (rw l (s.0 ∷ [], refl, last s.0 s.1 sc l)))
            | inr l ↦
                let rest =
                  token_loop-Good fuel malloc s.1 room (read ++ s.0 ∷ [])
                    (omega (arith, length-append read (s.0 ∷ []))) (omega arith)
                    (omega (arith, next_token-work a s sc l)) in
                rw (e, token_loop) (rw inside (rw l (Good-more malloc a s read _ sc l rest)))
          ]
    ]

-- What `dsl_lexer_get_tokens` may return: the chain of tokens up to the first EOF or ERROR, or
-- NULL if a request for memory fails. It neither writes outside its array nor runs on for ever.
abbrev pub Complete : (ℕ → Bool) → DslLexer → Tokens → Type 0
Complete malloc a (tokens ts) = Chain malloc a ts
Complete malloc a null = (n : ℕ) × (malloc n ≡ false)
Complete malloc a overrun = ⊥
Complete malloc a out_of_fuel = ⊥

Good-Complete :
    (malloc : ℕ → Bool) (a : DslLexer) (r : Tokens) → Good malloc a [] r → Complete malloc a r
Good-Complete malloc a (tokens ts) (new, e, c) = subst (Chain malloc a) (sym e) c
Good-Complete malloc a null g = g
Good-Complete malloc a overrun g = g
Good-Complete malloc a out_of_fuel g = g

work-le : (a : DslLexer) → work a < 2 * length a.rest + 2
work-le a = elim (Bool-cases a.read_body_raw_next) [
  | inl e ↦ omega (arith, ap bit e)
  | inr e ↦ omega (arith, ap bit e)
]

-- Tokenizing any input terminates within the array it allocates, and returns successive tokens
-- of the grammar up to the first EOF or ERROR, or NULL where a request for memory fails.
pub dsl_lexer_get_tokens-Complete :
    (malloc : ℕ → Bool) (lexer : DslLexer)
    → Complete malloc lexer (dsl_lexer_get_tokens malloc lexer)
unfolding dsl_lexer_get_tokens
dsl_lexer_get_tokens-Complete malloc a = elim (Bool-cases (malloc (token_size * 16))) [
  | inr e ↦ rw e (token_size * 16, e)
  | inl e ↦ rw e (
      Good-Complete malloc a _ (
        token_loop-Good (2 * length a.rest + 2) malloc a 16 [] (omega arith) (omega arith)
          (work-le a)))
]
