-- ===== src/Assertion/Header/Field.antt =====
-- One header line of src/core/assertion.c: what `line_matches` accepts.
use http_runtime.Base.{
  ℕ, ◌≤◌, Bool, true, not, ◌&&◌, [], ◌∷◌, ◌++◌, map, map_id, ◌≡◌, ◌↔◌, refl, ap, sym, ◌∙◌, ◌⊎◌, inl,
  inr, ◌==◌, ==_iff, Bool-cases, length, length-map, length-take, take, take-length, Every,
  Every-append_split, arith, Bytes, trimmed_length-le, subst,
}
use http_runtime.Ctype.{tolower}
use http_runtime.Assertion.Header.Compare.{not_nul, IsCString, tolower_nul, strn_eq_iff}
use http_runtime.Assertion.Header.{
  tail, until, from, skip_spaces, rtrim_end, is_trailing, strn_eq, strncasecmp_simple, strncmp,
  line_matches,
}

abbrev pub differs : ℕ → ℕ → Bool
differs b c = not (c == b)

module _ (b : ℕ) where
  pub until-append-from : (w : Bytes) → until b w ++ from b w ≡ w
  unfolding until from
  until-append-from [] = refl
  until-append-from (c ∷ w) = ground (arith, until-append-from w)

  pub until-differs : (w : Bytes) → Every (differs b) (until b w)
  unfolding until
  until-differs [] = tt
  until-differs (c ∷ w) = elim (Bool-cases (c == b)) [
    | inl e ↦ rw (e, until) tt
    | inr e ↦ rw (e, until) (rw e refl, until-differs w)
  ]

  pub from_cases : (w : Bytes) → (from b w ≡ []) ⊎ ((r : Bytes) × (from b w ≡ b ∷ r))
  unfolding from
  from_cases [] = inl refl
  from_cases (c ∷ w) = elim (Bool-cases (c == b)) [
    | inl e ↦ inr (w, rw (e, from) (ap (λ x. x ∷ w) ((==_iff c b).0 e)))
    | inr e ↦ rw (e, from) (from_cases w)
  ]

  pub until_found :
      (k r : Bytes)
      → Every (differs b) k
      → (until b (k ++ b ∷ r) ≡ k) × (from b (k ++ b ∷ r) ≡ b ∷ r)
  unfolding until from
  until_found [] r h = ground arith
  until_found (c ∷ k) r h = ground (arith, until_found k r h.1)

  pub until_missing : (k : Bytes) → Every (differs b) k → (until b k ≡ k) × (from b k ≡ [])
  unfolding until from
  until_missing [] h = (refl, refl)
  until_missing (c ∷ k) h = ground (arith, until_missing k h.1)

-- The line is `name: value`, up to the case of the name, blanks behind the name, and blanks round
-- the value.
pub record HasField (name value line : Bytes) : Type 0 where
  pub key : Bytes
  pub rest : Bytes
  pub split : line ≡ key ++ b':' ∷ rest
  pub no_colon : Every (differs b':') key
  pub name_is : map tolower (take (rtrim_end key) key) ≡ map tolower name
  pub value_is : take (rtrim_end (skip_spaces rest)) (skip_spaces rest) ≡ value

skip_spaces-IsCString : (w : Bytes) → IsCString w → IsCString (skip_spaces w)
unfolding skip_spaces
skip_spaces-IsCString [] h = tt
skip_spaces-IsCString (c ∷ w) h = ground (arith, skip_spaces-IsCString w h.1)

rtrim_end-le : (w : Bytes) → rtrim_end w ≤ length w
unfolding rtrim_end
rtrim_end-le w = trimmed_length-le is_trailing w

-- A text cut to `n` bytes against a whole one, as the code compares them.
cut_iff :
    (f : ℕ → ℕ) (keeps : (c : ℕ) → not_nul c ≡ true → not_nul (f c) ≡ true) (n : ℕ) (w v : Bytes)
    → n ≤ length w
    → IsCString w
    → ((n == length v && strn_eq f n w v) ≡ true) ↔ (map f (take n w) ≡ map f v)
cut_iff f keeps n w v h z = (to, from_eq)
  where
    whole : n ≡ length v → take n v ≡ v
    whole e = ap (λ k. take k v) e ∙ take-length v

    to : (n == length v && strn_eq f n w v) ≡ true → map f (take n w) ≡ map f v
    to e =
        let len : n ≡ length v = ground arith in
        (strn_eq_iff f keeps n w v h (omega arith) z).0 (ground arith) ∙ ap (map f) (whole len)

    from_eq : map f (take n w) ≡ map f v → (n == length v && strn_eq f n w v) ≡ true
    from_eq e =
        let len : n ≡ length v =
          sym (length-take n w h) ∙ sym (length-map f (take n w)) ∙ ap length e ∙ length-map f v in
        let same =
          (strn_eq_iff f keeps n w v h (omega arith) z).1 (e ∙ ap (map f) (sym (whole len))) in
        ground (arith, len, same)

-- The two comparisons of a line whose parts are known.
parts_iff :
    (key rest name value : Bytes)
    → IsCString key
    → IsCString rest
    → let v = skip_spaces rest in
      (((rtrim_end key == length name && strncasecmp_simple (rtrim_end key) key name)
          && (rtrim_end v == length value && strncmp (rtrim_end v) v value))
        ≡ true)
      ↔ ((map tolower (take (rtrim_end key) key) ≡ map tolower name)
          × (take (rtrim_end v) v ≡ value))
unfolding strncasecmp_simple strncmp
parts_iff key rest name value zk zr =
    let v = skip_spaces rest in
    let names = cut_iff tolower tolower_nul (rtrim_end key) key name (rtrim_end-le key) zk in
    let values =
      cut_iff (λ c. c) (λ c h. h) (rtrim_end v) v value (rtrim_end-le v)
        (skip_spaces-IsCString rest zr) in
    (
      (λ e. (
        names.0 (ground arith),
        sym (map_id (take (rtrim_end v) v)) ∙ values.0 (ground arith) ∙ map_id value,
      )),
      (λ p.
          let a = names.1 p.0 in let b = values.1 (ap (map (λ c. c)) p.1) in ground (arith, a, b)),
    )

-- A line of a C string is accepted exactly when it is the field that is asked for.
pub line_matches_iff :
    (line name value : Bytes)
    → IsCString line
    → (line_matches line name value ≡ true) ↔ HasField name value line
unfolding line_matches
line_matches_iff line name value z = elim (from_cases b':' line) [
  | inl none_found ↦
      rw (none_found, line_matches)
        (
          (λ e. cc),
          (λ h.
              let f = (until_found b':' h.key h.rest h.no_colon).1 in
              let g : from b':' line ≡ b':' ∷ h.rest = ap (from b':') h.split ∙ f in cc),
        )
  | inr (rest, found) ↦
      let key = until b':' line in
      let whole : line ≡ key ++ b':' ∷ rest =
        sym (until-append-from b':' line) ∙ ap (λ x. key ++ x) found in
      let (zk, zr) = Every-append_split not_nul key (b':' ∷ rest) (subst IsCString whole z) in
      let parts = parts_iff key rest name value zk zr.1 in
      rw (found, line_matches)
        (
          (λ e.
              let (n, v) = parts.0 e in
              record {
                key = key;
                rest = rest;
                split = whole;
                no_colon = until-differs b':' line;
                name_is = n;
                value_is = v;
              }),
          (λ h.
              let (k, r) = until_found b':' h.key h.rest h.no_colon in
              let key_is : key ≡ h.key = ap (until b':') h.split ∙ k in
              let rest_is : rest ≡ h.rest = ap tail (sym found ∙ ap (from b':') h.split ∙ r) in
              parts.1 (
                ap (λ x. map tolower (take (rtrim_end x) x)) key_is ∙ h.name_is,
                ap (λ x. take (rtrim_end (skip_spaces x)) (skip_spaces x)) rest_is ∙ h.value_is,
              )),
        )
]
