-- ===== src/Assertion/Header/Lines.antt =====
-- `header_contains` of src/core/assertion.c looks at every line of the header text.
use http_runtime.Base.{
  ℕ, zero, suc, ◌<◌, Bool, true, false, [], ◌∷◌, ◌++◌, ◌≡◌, ◌↔◌, ap, sym, ◌∙◌, ◌⊎◌, inl, inr,
  if◌then◌else◌, Bool-cases, List-cases, length, length-append, Every, Every-append_split, arith,
  Bytes, some, subst, append-nil,
}
use http_runtime.Assertion.Header.Compare.{not_nul, IsCString}
use http_runtime.Assertion.Header.Field.{
  differs, HasField, until-append-from, until-differs, from_cases, until_found, until_missing,
  line_matches_iff,
}
use http_runtime.Assertion.Header.{until, from, line_matches, header_loop, header_contains, tail}

-- `l` is a line of the text: it runs from a line's start up to the next newline or the end.
pub data Line (l : Bytes) : Bytes → Type 0 where
  only : {text : Bytes} → text ≡ l → Every (differs b'\n') l → Line l text
  front :
      {text : Bytes} (rest : Bytes)
      → text ≡ l ++ b'\n' ∷ rest
      → Every (differs b'\n') l
      → Line l text
  behind :
      {text : Bytes} (m rest : Bytes)
      → text ≡ m ++ b'\n' ∷ rest
      → Every (differs b'\n') m
      → Line l rest
      → Line l text

-- Some line of the text is the field.
pub record Contains (name value text : Bytes) : Type 0 where
  pub line : Bytes
  pub is_line : Line line text
  pub field : HasField name value line

not-HasField-nil : (name value : Bytes) → ¬ HasField name value []
not-HasField-nil name value h = elim (List-cases h.key) [
  | inl e ↦ let f = h.split ∙ ap (λ k. k ++ b':' ∷ h.rest) e in cc
  | inr (c, cs, e) ↦ let f = h.split ∙ ap (λ k. k ++ b':' ∷ h.rest) e in cc
]

not-Line-nil : {l : Bytes} → Line l [] → l ≡ []
not-Line-nil (only e _) = sym e
not-Line-nil {l} (front rest e _) =
    absurd (omega (arith, ap length e, length-append l (b'\n' ∷ rest)))
not-Line-nil (behind m rest e _ _) =
    absurd (omega (arith, ap length e, length-append m (b'\n' ∷ rest)))

-- A text with no newline has one line.
Line-last : (text : Bytes) → from b'\n' text ≡ [] → {l : Bytes} → Line l text → l ≡ until b'\n' text
Line-last text none_left (only e h) = sym (ap (until b'\n') e ∙ (until_missing b'\n' _ h).0)
Line-last text none_left (front rest e h) =
    let f = sym none_left ∙ ap (from b'\n') e ∙ (until_found b'\n' _ rest h).1 in cc
Line-last text none_left (behind m rest e h _) =
    let f = sym none_left ∙ ap (from b'\n') e ∙ (until_found b'\n' m rest h).1 in cc

-- A text with a newline has its first line, and the lines behind.
Line-split :
    (text rest : Bytes)
    → from b'\n' text ≡ b'\n' ∷ rest
    → {l : Bytes} → Line l text
    → (l ≡ until b'\n' text) ⊎ Line l rest
Line-split text rest found (only e h) =
    let f = sym found ∙ ap (from b'\n') e ∙ (until_missing b'\n' _ h).1 in cc
Line-split text rest found (front r e h) =
    inl (sym (ap (until b'\n') e ∙ (until_found b'\n' _ r h).0))
Line-split text rest found (behind m r e h later) =
    let same : r ≡ rest =
      ap tail (sym (until_found b'\n' m r h).1 ∙ sym (ap (from b'\n') e) ∙ found) in
    inr (subst (Line _) same later)

module _ (name value : Bytes) where
  loop_last :
      (fuel x : ℕ) (xs : Bytes)
      → from b'\n' (x ∷ xs) ≡ []
      → header_loop (suc fuel) (x ∷ xs) name value ≡ line_matches (until b'\n' (x ∷ xs)) name value
  unfolding header_loop
  loop_last fuel x xs e = rw (e, header_loop) (ground arith)

  loop_more :
      (fuel x : ℕ) (xs rest : Bytes)
      → from b'\n' (x ∷ xs) ≡ b'\n' ∷ rest
      → header_loop (suc fuel) (x ∷ xs) name value ≡ (
          if line_matches (until b'\n' (x ∷ xs)) name value
          then true
          else header_loop fuel rest name value)
  unfolding header_loop
  loop_more fuel x xs rest e = rw (e, header_loop)

  first_line : (text : Bytes) → HasField name value (until b'\n' text) → Contains name value text
  first_line text h = elim (from_cases b'\n' text) [
    | inl e ↦ record {
      line = until b'\n' text;
      is_line =
          only
            (sym (until-append-from b'\n' text)
              ∙ ap (λ r. until b'\n' text ++ r) e
              ∙ append-nil (until b'\n' text))
            (until-differs b'\n' text);
      field = h;
    }
    | inr (rest, e) ↦ record {
      line = until b'\n' text;
      is_line =
          front rest (sym (until-append-from b'\n' text) ∙ ap (λ r. until b'\n' text ++ r) e)
            (until-differs b'\n' text);
      field = h;
    }
  ]

  later_line :
      (text rest : Bytes)
      → from b'\n' text ≡ b'\n' ∷ rest
      → Contains name value rest
      → Contains name value text
  later_line text rest e c = record {
    line = c.line;
    is_line =
        behind (until b'\n' text) rest
          (sym (until-append-from b'\n' text) ∙ ap (λ r. until b'\n' text ++ r) e)
          (until-differs b'\n' text) c.is_line;
    field = c.field;
  }

  header_loop_iff :
      (fuel : ℕ) (text : Bytes)
      → length text < fuel
      → IsCString text
      → (header_loop fuel text name value ≡ true) ↔ Contains name value text
  header_loop_iff zero text lt z = absurd (omega arith)
  header_loop_iff (suc fuel) [] lt z = (
    (λ e. let f : false ≡ true = unfold header_loop in e in cc),
    (λ c. absurd (
        not-HasField-nil name value
          (subst (HasField name value) (not-Line-nil c.is_line) c.field))),
  )
  header_loop_iff (suc fuel) (x ∷ xs) lt z =
      let text = x ∷ xs in
      let whole = until-append-from b'\n' text in
      let (zl, zr) =
        Every-append_split not_nul (until b'\n' text) (from b'\n' text)
          (subst IsCString (sym whole) z) in
      let here = line_matches_iff (until b'\n' text) name value zl in
      elim (from_cases b'\n' text) [
        | inl e ↦ (
          (λ h. first_line text (here.0 (sym (loop_last fuel x xs e) ∙ h))),
          (λ c.
              loop_last fuel x xs e
              ∙ here.1 (subst (HasField name value) (Line-last text e c.is_line) c.field)),
        )
        | inr (rest, e) ↦
            let shorter : length rest < fuel = omega (
              arith,
              ap length whole,
              ap length e,
              length-append (until b'\n' text) (from b'\n' text),
            ) in
            let z' : IsCString (b'\n' ∷ rest) = subst IsCString e zr in
            let ih = header_loop_iff fuel rest shorter z'.1 in
            more text rest e here ih (loop_more fuel x xs rest e)
      ]
    where
      more :
          (text rest : Bytes)
          → from b'\n' text ≡ b'\n' ∷ rest
          → (line_matches (until b'\n' text) name value ≡ true)
            ↔ HasField name value (until b'\n' text)
          → {found later : Bool} → (later ≡ true) ↔ Contains name value rest
          → found ≡ (if line_matches (until b'\n' text) name value then true else later)
          → (found ≡ true) ↔ Contains name value text
      more text rest e here {found} {later} ih step =
          elim (Bool-cases (line_matches (until b'\n' text) name value)) [
            | inl hit ↦ ((λ _. first_line text (here.0 hit)), (λ _. ground arith))
            | inr miss ↦ (
              (λ h. later_line text rest e (ih.0 (ground arith))),
              (λ c. elim (Line-split text rest e c.is_line) [
                | inl same ↦ let hit = here.1 (subst (HasField name value) same c.field) in cc
                | inr l ↦
                    let f = ih.1 (record { line = c.line; is_line = l; field = c.field }) in
                    ground arith
              ]),
            )
          ]

-- A header is found exactly when some line of the header text is that field: the same name up to
-- case, and the same value up to the blanks round it.
pub header_contains_iff :
    (headers name value : Bytes)
    → IsCString headers
    → (header_contains (some headers) (some name) (some value) ≡ true) ↔ Contains name value headers
unfolding header_contains
header_contains_iff headers name value z =
    header_loop_iff name value (suc (length headers)) headers (omega arith) z

-- The empty header text has no field.
pub not-Contains-nil : (name value : Bytes) → ¬ Contains name value []
not-Contains-nil name value c =
    not-HasField-nil name value (subst (HasField name value) (not-Line-nil c.is_line) c.field)
