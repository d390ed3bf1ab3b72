-- ===== src/Cli/Output/Summary.antt =====
-- src/cli/cli_output.c: a response on the terminal.
use http_runtime.Base.{
  ℕ, zero, suc, ◌-◌, ◌≤◌, ◌<◌, Bool, true, false, ◌||◌, Option, none, some, [], ◌∷◌, ◌++◌, ◌≡◌,
  refl, ap, sym, ◌∙◌, ltb, ◌==◌, if◌then◌else◌, Bool-cases, inl, inr, ◌⊎◌, length, take, drop,
  take-append-drop, length-take, length-append, append-nil, Bytes, codes, bytes_eq, arith, ltb→lt,
}
use http_runtime.Models.{Response, response_result_to_char}
use http_runtime.Assertion.Header.{until}
use http_runtime.Cli.Output.Decimal.{print_nat, print_int}

abbrev pub header_preview_limit : ℕ
header_preview_limit = 1200

abbrev pub body_preview_limit : ℕ
body_preview_limit = 800

-- `strncmp(s, prefix, strlen(prefix)) == 0`
abbrev pub starts_with : Bytes → Bytes → Bool
starts_with prefix s = bytes_eq (take (length prefix) s) prefix

-- `strstr(s, text) != NULL`
unfoldable pub strstr : Bytes → Bytes → Bool
unfolding bytes_eq
strstr text [] = starts_with text []
strstr text (c ∷ cs) = starts_with text (c ∷ cs) || strstr text cs

unfoldable pub is_text_content_type : Option Bytes → Bool
unfolding strstr bytes_eq
is_text_content_type none = false
is_text_content_type (some content_type) =
    starts_with (codes "text/") content_type
    || strstr (codes "application/json") content_type
    || strstr (codes "application/xml") content_type
    || strstr (codes "application/javascript") content_type
    || strstr (codes "application/x-www-form-urlencoded") content_type

abbrev pub truncated : ℕ → Bytes
truncated n =
    if n == 0 then [] else codes "\n... [truncated, " ++ print_nat n ++ codes " bytes remaining]"

-- The title is never NULL.
unfoldable pub print_preview : Bytes → Option Bytes → ℕ → ℕ → Bytes
unfolding print_nat
print_preview title none len limit = title ++ codes ": -\n"
print_preview title (some block) len limit =
    let preview_len = if ltb len limit then len else limit in
    if len == 0
    then title ++ codes ": -\n"
    else codes "--- "
      ++ title
      ++ codes " Preview ("
      ++ print_nat preview_len
      ++ codes "/"
      ++ print_nat len
      ++ codes " bytes) ---\n"
      ++ take preview_len block
      ++ (if ltb preview_len len
          then codes "\n... [truncated, "
            ++ print_nat (len - preview_len)
            ++ codes " bytes remaining]"
          else [])
      ++ codes "\n---\n"

abbrev pub shown_length : Response → ℕ
shown_length rep =
    if ltb 0 rep.headers_len
    then rep.headers_len
    else elim rep.headers [ none ↦ 0 | some block ↦ length (until 0 block) ]

abbrev pub or_dash : Option Bytes → Bytes
or_dash none = codes "-"
or_dash (some s) = s

unfoldable pub print_headers_part : Response → Bytes
unfolding print_preview
print_headers_part rep = elim rep.headers [
  | none ↦ codes "Headers: -\n"
  | some block ↦
      if ltb 0 (shown_length rep)
      then codes "Headers: "
        ++ print_nat (shown_length rep)
        ++ codes " bytes\n\n"
        ++ print_preview (codes "Headers") (some block) (shown_length rep) header_preview_limit
      else codes "Headers: -\n"
]

unfoldable pub print_body_part : Response → Bytes
unfolding print_preview is_text_content_type
print_body_part rep = elim rep.body [
  | none ↦ []
  | some block ↦
      if rep.body_len == 0
      then []
      else if is_text_content_type rep.content_type
      then print_preview (codes "Body") (some block) rep.body_len body_preview_limit
      else codes "Body preview skipped: binary or unknown content type.\n"
]

-- `fixed3` is what `%.3f` prints of a double.
unfoldable pub print_response_summary : (ℕ → Bytes) → Option Response → Bytes
unfolding print_int print_headers_part print_body_part response_result_to_char
print_response_summary fixed3 none = codes "No response.\n"
print_response_summary fixed3 (some rep) =
    codes "Response ID: "
    ++ print_int rep.id
    ++ codes "\nRequest ID: "
    ++ print_int rep.request_id
    ++ codes "\nResult: "
    ++ response_result_to_char rep.result
    ++ codes "\nStatus: "
    ++ print_int rep.status_code
    ++ codes "\nDuration: "
    ++ fixed3 rep.duration
    ++ codes " sec\nContent-Type: "
    ++ or_dash rep.content_type
    ++ codes "\nBody: "
    ++ print_nat rep.body_len
    ++ codes " bytes\n"
    ++ print_headers_part rep
    ++ print_body_part rep

abbrev pub preview : Bytes → ℕ → ℕ → Bytes → Bytes → Bytes
preview title n len shown rest =
    codes "--- "
    ++ title
    ++ codes " Preview ("
    ++ print_nat n
    ++ codes "/"
    ++ print_nat len
    ++ codes " bytes) ---\n"
    ++ shown
    ++ rest
    ++ codes "\n---\n"

print_preview_all :
    (title block : Bytes) (len limit : ℕ)
    → 0 < len
    → ltb len limit ≡ true
    → print_preview title (some block) len limit ≡ preview title len len (take len block) []
unfolding print_preview
print_preview_all title block len limit nz e =
    let z : (len == 0) ≡ false = ground arith in
    let f : ltb len len ≡ false = ground arith in rw z (rw e (rw f refl))

print_preview_cut :
    (title block : Bytes) (len limit : ℕ)
    → 0 < len
    → ltb len limit ≡ false
    → print_preview title (some block) len limit
      ≡ preview title limit len (take limit block) (truncated (len - limit))
unfolding print_preview
print_preview_cut title block len limit nz e =
    let z : (len == 0) ≡ false = ground arith in
    elim (Bool-cases (ltb limit len)) [
      | inl f ↦
          let g : ((len - limit) == 0) ≡ false = ground arith in rw z (rw e (rw f (rw g refl)))
      | inr f ↦ let g : ((len - limit) == 0) ≡ true = ground arith in rw z (rw e (rw f (rw g refl)))
    ]

take-take : (m n : ℕ) (xs : Bytes) → m ≤ n → take m (take n xs) ≡ take m xs
take-take zero n xs l = refl
take-take (suc m) zero xs l = absurd (omega (arith, l))
take-take (suc m) (suc n) [] l = refl
take-take (suc m) (suc n) (x ∷ xs) l = ap (λ ys. x ∷ ys) (take-take m n xs (omega (arith, l)))

length-rest : (m n : ℕ) (xs : Bytes) → m ≤ n → n ≤ length xs → length (drop m (take n xs)) ≡ n - m
length-rest m n xs l k =
    let a = length-append (take m (take n xs)) (drop m (take n xs)) in
    let b = ap length (take-append-drop m (take n xs)) in
    let c = length-take n xs k in
    let d = length-take m (take n xs) (omega (arith, c, l)) in omega (arith, a, b, c, d)

-- A preview of a block that holds `len` bytes shows the first ones as `shown`, at most `limit`,
-- leaves out the others as `hidden`, and says the length of each; it leaves some out only when it
-- shows `limit` of them.
pub print_preview-shown :
    (title block : Bytes) (len limit : ℕ)
    → 0 < len
    → len ≤ length block
    → (shown : Bytes) × (hidden : Bytes) × (shown ++ hidden ≡ take len block)
      × (length shown ≤ limit)
      × ((hidden ≡ []) ⊎ (length shown ≡ limit))
      × (print_preview title (some block) len limit
          ≡ preview title (length shown) len shown (truncated (length hidden)))
print_preview-shown title block len limit nz fits = elim (Bool-cases (ltb len limit)) [
  | inl e ↦
      let n = length-take len block fits in
      (
        take len block,
        [],
        append-nil (take len block),
        (let l = ltb→lt len limit e in omega (arith, n, l)),
        inl refl,
        print_preview_all title block len limit nz e
            ∙ ap (λ k. preview title k len (take len block) []) (sym n),
      )
  | inr e ↦
      let l : limit ≤ len = ground arith in
      let n = length-take limit block (omega (arith, l, fits)) in
      let h = length-rest limit len block l fits in
      (
        take limit block,
        drop limit (take len block),
        ap (λ xs. xs ++ drop limit (take len block)) (sym (take-take limit len block l))
            ∙ take-append-drop limit (take len block),
        omega (arith, n),
        inr n,
        print_preview_cut title block len limit nz e
            ∙ ap (λ k. preview title k len (take limit block) (truncated (len - limit))) (sym n)
            ∙ ap
                (λ k.
                  preview title (length (take limit block)) len (take limit block) (truncated k))
                (sym h),
      )
]
