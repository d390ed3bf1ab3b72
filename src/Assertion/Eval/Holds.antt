-- ===== src/Assertion/Eval/Holds.antt =====
-- What an assertion of src/core/assertion.c says of a response, and that its check decides it.
use http_runtime.Base.{
  true, Option, none, some, ◌≡◌, ◌≢◌, ◌↔◌, refl, ap, sym, ◌∙◌, inl, inr, ◌==◌, ==_iff, Bool-cases,
  Option-cases, length, take, Bytes, arith, [], ◌∷◌, ◌⊎◌, subst, int_eq_iff, ℤ,
}
use http_runtime.Models.{Response}
use http_runtime.Assertion.Search.{Occurs, find_bytes_iff}
use http_runtime.Assertion.Header.Lines.{Contains, not-Contains-nil, header_contains_iff}
use http_runtime.Assertion.Header.Field.{until-differs}
use http_runtime.Assertion.Header.{until}
use http_runtime.Assertion.Eval.{
  eval_status, eval_body, eval_header, eval_as, eval_assertion, body_bytes, header_text,
}
use http_runtime.Assertion.{
  Value, int_value, byte_value, header_value, AssertionType, status_eq, body_contains, Assertion,
  check_equal, bytes_contains,
}
use http_runtime.Assertion

-- The meaning of an assertion: the status is the number; the body is there, not empty, and holds
-- the bytes; or a line of the header text is the field. An assertion whose value has another type
-- than it wants says nothing that could hold.
abbrev pub HoldsAs : AssertionType → Value → Response → Type 0
HoldsAs status_eq (int_value n) r = r.status_code ≡ n
HoldsAs body_contains (byte_value (some p)) r =
    (b : Bytes) × (r.body ≡ some b) × (r.body_len ≢ 0) × Occurs p (take r.body_len b)
HoldsAs Assertion.header_contains (header_value (some n) (some v)) r =
    (h : Bytes) × (r.headers ≡ some h) × Contains n v (until 0 h)
HoldsAs _ _ _ = ⊥

abbrev pub Holds : Assertion → Response → Type 0
Holds a r = HoldsAs a.type a.expected r

status_iff :
    (n : ℤ) (r : Response) → ((eval_status (int_value n) r).passed ≡ true) ↔ (r.status_code ≡ n)
unfolding eval_status
status_iff n r = int_eq_iff r.status_code n

body_bytes_cases :
    (r : Response)
    → ((body_bytes r ≡ none) × ((b : Bytes) → r.body ≡ some b → r.body_len ≢ 0 → ⊥))
      ⊎ ((b : Bytes) × (body_bytes r ≡ some (take r.body_len b))
          × (r.body ≡ some b)
          × (r.body_len ≢ 0))
unfolding body_bytes
body_bytes_cases r = elim (Option-cases r.body) [
  | inl e ↦ inl (rw (e, body_bytes) refl, (λ b f n. cc))
  | inr (b, e) ↦ elim (Bool-cases (r.body_len == 0)) [
    | inl z ↦ inl (rw (e, body_bytes) (rw z), (λ _ _ n. n ((==_iff r.body_len 0).0 z)))
    | inr nz ↦ inr (b, rw (e, body_bytes) (rw nz), e, (λ q. ground arith))
  ]
]

body_iff :
    (p : Bytes) (r : Response)
    → ((eval_body (byte_value (some p)) r).passed ≡ true)
      ↔ HoldsAs body_contains (byte_value (some p)) r
unfolding eval_body
body_iff p r = elim (body_bytes_cases r) [
  | inl (e, missing) ↦ rw (e, eval_body) ((λ h. cc), (λ h. absurd (missing h.0 h.1 h.2)))
  | inr (b, e, f, n) ↦
      rw (e, eval_body)
        (
          (λ h. (b, f, n, (find_bytes_iff (take r.body_len b) p).0 h)),
          (λ h.
              let same : h.0 ≡ b = cc in
              (find_bytes_iff (take r.body_len b) p).1
                (subst (λ x. Occurs p (take r.body_len x)) same h.3)),
        )
]

header_text_cases :
    (r : Response)
    → ((header_text r ≡ none) × ((h : Bytes) → r.headers ≡ some h → until 0 h ≡ []))
      ⊎ ((h : Bytes) × (header_text r ≡ some (until 0 h)) × (r.headers ≡ some h))
unfolding header_text
header_text_cases r = elim (Option-cases r.headers) [
  | inl e ↦ inl (rw (e, header_text) refl, (λ b f. cc))
  | inr (h, e) ↦ elim (Bool-cases (length (until 0 h) == 0)) [
    | inl z ↦ inl (
      rw (e, header_text) (rw z),
      (λ g f.
          let same : h ≡ g = cc in ap (until 0) (sym same) ∙ empty (until 0 h) ((==_iff _ 0).0 z)),
    )
    | inr nz ↦ inr (h, rw (e, header_text) (rw nz), e)
  ]
]
  where
    empty : (w : Bytes) → length w ≡ 0 → w ≡ []
    empty [] z = refl
    empty (c ∷ w) z = absurd (omega arith)

header_iff :
    (n v : Bytes) (r : Response)
    → ((eval_header (header_value (some n) (some v)) r).passed ≡ true)
      ↔ HoldsAs Assertion.header_contains (header_value (some n) (some v)) r
unfolding eval_header
header_iff n v r = elim (header_text_cases r) [
  | inl (e, missing) ↦
      rw (e, eval_header)
        (
          (λ h. cc),
          (λ h. absurd (not-Contains-nil n v (subst (Contains n v) (missing h.0 h.1) h.2))),
        )
  | inr (h, e, f) ↦
      let found = header_contains_iff (until 0 h) n v (until-differs 0 h) in
      rw (e, eval_header)
        (
          (λ k. (h, f, found.0 k)),
          (λ k.
              let same : k.0 ≡ h = cc in found.1 (subst (λ x. Contains n v (until 0 x)) same k.2)),
        )
]

no_pattern : (r : Response) → ((eval_body (byte_value none) r).passed ≡ true) ↔ ⊥
unfolding eval_body
no_pattern r = elim (Option-cases (body_bytes r)) [
  | inl e ↦ rw (e, eval_body) ((λ h. cc), (λ h. absurd h))
  | inr (b, e) ↦ rw (e, eval_body) ((λ h. cc), (λ h. absurd h))
]

no_value :
    (n : Bytes) (r : Response) → ((eval_header (header_value (some n) none) r).passed ≡ true) ↔ ⊥
unfolding eval_header
no_value n r = elim (Option-cases (header_text r)) [
  | inl e ↦ rw (e, eval_header) ((λ h. cc), (λ h. absurd h))
  | inr (b, e) ↦ rw (e, eval_header) ((λ h. cc), (λ h. absurd h))
]

no_name :
    (v : Option Bytes) (r : Response) → ((eval_header (header_value none v) r).passed ≡ true) ↔ ⊥
unfolding eval_header
no_name v r = elim (Option-cases (header_text r)) [
  | inl e ↦ rw (e, eval_header) ((λ h. cc), (λ h. absurd h))
  | inr (b, e) ↦ rw (e, eval_header) ((λ h. cc), (λ h. absurd h))
]

passed_iff :
    (t : AssertionType) (x : Value) (r : Response) → ((eval_as t x r).passed ≡ true) ↔ HoldsAs t x r
unfolding eval_as eval_status eval_body eval_header
passed_iff status_eq (int_value n) r = status_iff n r
passed_iff status_eq _ r = ((λ h. cc), (λ h. absurd h))
passed_iff body_contains (byte_value (some p)) r = body_iff p r
passed_iff body_contains (byte_value none) r = no_pattern r
passed_iff body_contains _ r = ((λ h. cc), (λ h. absurd h))
passed_iff Assertion.header_contains (header_value (some n) (some v)) r = header_iff n v r
passed_iff Assertion.header_contains (header_value (some n) none) r = no_value n r
passed_iff Assertion.header_contains (header_value none v) r = no_name v r
passed_iff Assertion.header_contains _ r = ((λ h. cc), (λ h. absurd h))

-- An assertion passes exactly when it holds of the response.
pub eval_assertion_iff :
    (r : Response) (a : Assertion) → ((eval_assertion (some r) (some a)).passed ≡ true) ↔ Holds a r
unfolding eval_assertion
eval_assertion_iff r a = passed_iff a.type a.expected r
