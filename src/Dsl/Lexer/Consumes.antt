-- ===== src/Dsl/Lexer/Consumes.antt =====
-- What it means that the lexer has read some bytes, and that its loops read maximal runs.
use http_runtime.Base.{
  ℕ, zero, suc, ◌+◌, ◌-◌, ◌≤◌, Bool, true, false, [], ◌∷◌, ◌++◌, ◌≡◌, refl, ap, inl, inr, ◌==◌,
  if◌then◌else◌, Bool-cases, length, length-append, take, take-append, Every, append_assoc, arith,
  Bytes, sym, ◌∙◌, List-cases, ==_iff,
}
use http_runtime.Dsl.Lexer.{DslLexer, peek, advance, advance_rounds, advance_while}

-- The line of the byte behind `w`, if `w` begins on line `l`.
abbrev pub line_after : ℕ → Bytes → ℕ
line_after l [] = l
line_after l (c ∷ w) = line_after (if c == b'\n' then l + 1 else l) w

-- The column of the byte behind `w`, if `w` begins in column `k`.
abbrev pub column_after : ℕ → Bytes → ℕ
column_after k [] = k
column_after k (c ∷ w) = column_after (if c == b'\n' then 1 else k + 1) w

-- Lexer `b` is `a` with the bytes `w` read.
pub record Consumes (w : Bytes) (a b : DslLexer) : Type 0 where
  pub rest_is : a.rest ≡ w ++ b.rest
  pub pos_is : b.pos ≡ a.pos + length w
  pub line_is : b.line ≡ line_after a.line w
  pub column_is : b.column ≡ column_after a.column w

pub line_after-append :
    (l : ℕ) (v w : Bytes) → line_after l (v ++ w) ≡ line_after (line_after l v) w
line_after-append l [] w = refl
line_after-append l (c ∷ v) w = line_after-append (if c == b'\n' then l + 1 else l) v w

pub column_after-append :
    (k : ℕ) (v w : Bytes) → column_after k (v ++ w) ≡ column_after (column_after k v) w
column_after-append k [] w = refl
column_after-append k (c ∷ v) w = column_after-append (if c == b'\n' then 1 else k + 1) v w

pub Consumes-refl : (a : DslLexer) → Consumes [] a a
Consumes-refl a = record { rest_is = refl; pos_is = omega arith; line_is = refl; column_is = refl }

pub Consumes-trans :
    (v w : Bytes) {a b c : DslLexer} → Consumes v a b → Consumes w b c → Consumes (v ++ w) a c
Consumes-trans v w {a} {b} {c} p q = record {
  rest_is = p.rest_is ∙ ap (◌++◌ v) q.rest_is ∙ sym (append_assoc v w c.rest);
  pos_is = omega (arith, p.pos_is, q.pos_is, length-append v w);
  line_is = q.line_is ∙ ap (λ l. line_after l w) p.line_is ∙ sym (line_after-append a.line v w);
  column_is =
      q.column_is ∙ ap (λ k. column_after k w) p.column_is ∙ sym (column_after-append a.column v w);
}

-- A byte that is not NUL is read by `advance`.
pub advance-Consumes :
    (a : DslLexer) {c : ℕ} {cs : Bytes}
    → a.rest ≡ c ∷ cs
    → (c == 0) ≡ false
    → Consumes (c ∷ []) a (advance a) × ((advance a).rest ≡ cs)
unfolding advance
advance-Consumes a {c} {cs} e h = rw (e, advance) (ground arith)

pub advance_flag : (a : DslLexer) → (advance a).read_body_raw_next ≡ a.read_body_raw_next
unfolding advance
advance_flag a = ground arith

-- The run of bytes that a loop reads.
pub record Run (test : ℕ → Bool) (a b : DslLexer) : Type 0 where
  pub text : Bytes
  pub reads : Consumes text a b
  pub all : Every test text
  pub stops : test (peek b) ≡ false
  pub flag_is : b.read_body_raw_next ≡ a.read_body_raw_next

pub peek_lem : (a : DslLexer) {c : ℕ} {cs : Bytes} → a.rest ≡ c ∷ cs → peek a ≡ c
unfolding peek
peek_lem a e = rw (e, peek)

pub peek_end : (a : DslLexer) → a.rest ≡ [] → peek a ≡ 0
unfolding peek
peek_end a e = rw (e, peek)

peek-rest : (a b : DslLexer) → a.rest ≡ b.rest → peek a ≡ peek b
unfolding peek
peek-rest a b e = rw e

-- A test that NUL fails holds of a real byte only.
pub peek_byte :
    (test : ℕ → Bool) (a : DslLexer)
    → test 0 ≡ false
    → test (peek a) ≡ true
    → (c : ℕ) × (cs : Bytes) × (a.rest ≡ c ∷ cs) × ((c == 0) ≡ false) × (test c ≡ true)
peek_byte test a z h = elim (List-cases a.rest) [
  | inl e ↦ let f = rw (peek_end a e) at h in cc
  | inr (c, cs, e) ↦
      let f = rw (peek_lem a e) at h in
      elim (Bool-cases (c == 0)) [
        | inl n ↦ let g = rw ((==_iff c 0).0 n) at f in cc
        | inr n ↦ (c, cs, e, n, f)
      ]
]

Run-stop : (test : ℕ → Bool) (a : DslLexer) → test (peek a) ≡ false → Run test a a
Run-stop test a h = record {
  text = [];
  reads = Consumes-refl a;
  all = tt;
  stops = h;
  flag_is = refl;
}

Run-more :
    (test : ℕ → Bool) (a b : DslLexer) (c : ℕ) (cs : Bytes)
    → a.rest ≡ c ∷ cs
    → (c == 0) ≡ false
    → test c ≡ true
    → Run test (advance a) b
    → Run test a b
Run-more test a b c cs e n h r = record {
  text = c ∷ r.text;
  reads = Consumes-trans (c ∷ []) r.text (advance-Consumes a e n).0 r.reads;
  all = (h, r.all);
  stops = r.stops;
  flag_is = r.flag_is ∙ advance_flag a;
}

advance_rounds-Run :
    (fuel : ℕ) (test : ℕ → Bool) (a : DslLexer)
    → test 0 ≡ false
    → length a.rest ≤ fuel
    → Run test a (advance_rounds fuel test a)
unfolding advance_rounds
advance_rounds-Run zero test a z h = elim (List-cases a.rest) [
  | inl e ↦ Run-stop test a (rw (peek_end a e) z)
  | inr (c, cs, e) ↦ absurd (omega (arith, ap length e))
]
advance_rounds-Run (suc fuel) test a z h = elim (Bool-cases (test (peek a))) [
  | inr done ↦ rw (done, advance_rounds) (Run-stop test a done)
  | inl more ↦
      let (c, cs, e, n, t) = peek_byte test a z more in
      rw (more, advance_rounds)
        (Run-more test a _ c cs e n t (
          advance_rounds-Run fuel test (advance a) z
            (omega (arith, ap length e, ap length (advance-Consumes a e n).1))))
]

-- A loop reads the longest run of bytes that pass its test.
pub advance_while-Run :
    (test : ℕ → Bool) (a : DslLexer) → test 0 ≡ false → Run test a (advance_while test a)
unfolding advance_while
advance_while-Run test a z = advance_rounds-Run (length a.rest) test a z (omega arith)

-- The text of the run is the slice that the lexer copies.
pub Consumes-slice : (w : Bytes) {a b : DslLexer} → Consumes w a b → take (b.pos - a.pos) a.rest ≡ w
Consumes-slice w {a} {b} r =
    let n : b.pos - a.pos ≡ length w = omega (arith, r.pos_is) in
    rw (n, r.rest_is) (take-append w b.rest)

-- A run that starts at a byte which passes the test is not empty, and begins with that byte.
pub Run-head :
    {test : ℕ → Bool} {a b : DslLexer} (r : Run test a b)
    → test (peek a) ≡ true
    → (c : ℕ) × (w : Bytes) × (r.text ≡ c ∷ w) × (peek a ≡ c)
Run-head {test} {a} {b} r h = elim (List-cases r.text) [
  | inl e ↦
      let same : a.rest ≡ b.rest = r.reads.rest_is ∙ ap (λ w. w ++ b.rest) e in
      let q : peek a ≡ peek b = peek-rest a b same in let f = rw q at h in let g = r.stops in cc
  | inr (c, w, e) ↦ (c, w, e, peek_lem a (r.reads.rest_is ∙ ap (λ v. v ++ b.rest) e))
]

advance_rounds_stop :
    (fuel : ℕ) (test : ℕ → Bool) (a : DslLexer)
    → test (peek a) ≡ false
    → advance_rounds fuel test a ≡ a
unfolding advance_rounds
advance_rounds_stop zero test a h = refl
advance_rounds_stop (suc fuel) test a h = rw (h, advance_rounds)

-- A loop whose test fails at once reads nothing.
pub advance_while_stop :
    (test : ℕ → Bool) (a : DslLexer) → test (peek a) ≡ false → advance_while test a ≡ a
unfolding advance_while
advance_while_stop test a h = advance_rounds_stop (length a.rest) test a h
