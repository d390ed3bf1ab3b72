-- ===== src/Worker/Lists.antt =====
-- The header lists that `set_curl_headers` of src/core/worker.c makes and frees.
use http_runtime.Base.{
  ℕ, ◌+◌, ◌≤◌, ◌≢◌, ◌++◌, Bool-cases, Bool, true, false, Option, none, some, List, [], ◌∷◌, ◌≡◌,
  refl, inl, inr, length, Bytes, arith,
}
use http_runtime.Worker.Curl.{
  Curl, http_header, header_lines, append_lines, or_null, parse_headers, set_list, set_curl_headers,
}

abbrev pub is_some : {A : Type 0} → Option A → Bool
is_some none = false
is_some (some a) = true

abbrev pub bit : Bool → ℕ
bit false = 0
bit true = 1

pub bit-le : (b : Bool) → bit b ≤ 1
bit-le true = omega arith
bit-le false = omega arith

pub is_some-true : {A : Type 0} (o : Option A) → is_some o ≡ true → (a : A) × (o ≡ some a)
is_some-true none e = absurd (let f : false ≡ true = e in cc)
is_some-true (some a) e = (a, refl)

pub is_some-false : {A : Type 0} (o : Option A) → is_some o ≡ false → o ≡ none
is_some-false none e = refl
is_some-false (some a) e = absurd (let f : true ≡ false = e in cc)

module _ {W : Type 0} (curl : Curl W) where
  append_lines-count :
      (lines list : List Bytes) (w : W)
      → (let r = append_lines curl lines list w in r.2 ≡ bit (is_some (or_null curl r.0)))
  unfolding append_lines
  append_lines-count [] [] w = refl
  append_lines-count [] (line ∷ list) w = refl
  append_lines-count (line ∷ lines) [] w = elim (Bool-cases (curl.slist_append line w).0) [
    | inl e ↦ rw e (append_lines-count lines (line ∷ []) (curl.slist_append line w).1)
    | inr e ↦ rw e refl
  ]
  append_lines-count (line ∷ lines) (l ∷ list) w = elim (Bool-cases (curl.slist_append line w).0) [
    | inl e ↦ rw e (append_lines-count lines (l ∷ (list ++ line ∷ [])) (curl.slist_append line w).1)
    | inr e ↦ rw e (omega arith)
  ]

  parse_headers-count :
      (headers : Bytes) (w : W)
      → (parse_headers curl headers w).2 ≡ bit (is_some (parse_headers curl headers w).0)
  unfolding parse_headers
  parse_headers-count headers w = elim (Bool-cases (curl.malloc w (length headers + 1))) [
    | inl e ↦ rw e (append_lines-count (header_lines [] headers) [] w)
    | inr e ↦ rw e refl
  ]

  abbrev pub Whole : Option (List Bytes) × W × ℕ → Type 0
  Whole r = r.2 ≡ bit (is_some r.0)

  parse_headers-nonempty : (headers : Bytes) (w : W) → (parse_headers curl headers w).0 ≢ some []
  unfolding parse_headers
  parse_headers-nonempty headers w = elim (Bool-cases (curl.malloc w (length headers + 1))) [
    | inl e ↦ rw e (or_null-nonempty (append_lines curl (header_lines [] headers) [] w).0)
    | inr e ↦ rw e (λ f. cc)
  ]
    where
      or_null-nonempty : (o : Option (List Bytes)) → or_null curl o ≢ some []
      or_null-nonempty none e = cc
      or_null-nonempty (some []) e = cc
      or_null-nonempty (some (l ∷ ls)) e = cc

  set_list-Whole :
      (r : Option (List Bytes) × W × ℕ) → r.0 ≢ some [] → Whole r → Whole (set_list curl r)
  set_list-Whole (none, w, n) ne h = h
  set_list-Whole (some [], w, n) ne h = absurd (ne refl)
  set_list-Whole (some (l ∷ ls), w, n) ne h =
      elim (Bool-cases (curl.setopt (http_header (l ∷ ls)) w).0) [
        | inl e ↦ rw e h
        | inr e ↦ rw e (omega (arith, h))
      ]

  -- Exactly the list that is returned is left.
  pub set_curl_headers-Whole : (headers : Bytes) (w : W) → Whole (set_curl_headers curl headers w)
  unfolding set_curl_headers
  set_curl_headers-Whole headers w =
      set_list-Whole (parse_headers curl headers w) (parse_headers-nonempty headers w)
        (parse_headers-count headers w)
