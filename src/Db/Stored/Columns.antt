-- ===== src/Db/Stored/Columns.antt =====
-- The columns of a response that src/core/db_manager.c saved, by its fields.
use http_runtime.Base.{
  ℕ, ◌<◌, ◌^◌, ◌%◌, pos, int_of_bits, subst, sym, zero, suc, true, false, Option, none, some, List,
  [], ◌∷◌, ◌≡◌, refl, ap, ◌∙◌, ◌==◌, ltb, length, take, take-length, Bytes, arith, Bool-cases, inl,
  inr,
}
use http_runtime.Models.{
  Response, ResponseResults, response_ok, response_curl_error, response_internal_error,
  response_cancelled,
}
use http_runtime.Db.{Sqlite, Use, bind_int, bind_int64, bind_double, bind_text, bind_blob}
use http_runtime.Db.Save.{result_code, c_text}
use http_runtime.Db.Rows.{result_of_code}
use http_runtime.Db.Stored.{
  IsInt, IsTextCell, IsBlobCell, text_cell, blob_cell, int_cell, cell_of, cell_bytes, cell_size,
  parameter, bound_cell,
}
use http_runtime.Db.Stored.Bound.{text_use, body_use, response_uses}

-- A text or a block without bytes is kept as NULL.
abbrev pub kept : Option Bytes → Option Bytes
kept none = none
kept (some []) = none
kept (some (b ∷ bs)) = some (b ∷ bs)

abbrev pub taken : Option Bytes → ℕ → Option Bytes
taken none len = none
taken (some block) len = some (take len block)

abbrev pub size_of : Option Bytes → ℕ
size_of none = 0
size_of (some s) = length s

-- The size is that of an `int`.
abbrev pub Fits : Option Bytes → Type 0
Fits o = size_of o < 2 ^ 31

int_of_bits-small : (n : ℕ) → n < 2 ^ 31 → int_of_bits n ≡ pos n
int_of_bits-small n h =
    let e : n % 2 ^ 32 ≡ n = omega (arith, h) in
    let l : ltb n (2 ^ 31) ≡ true = ground arith in rw (e, l) refl

text_cell_of : (i : ℕ) (s : Bytes) → length s < 2 ^ 31 → cell_of (text_use i (some s)) ≡ text_cell s
text_cell_of i s h =
    ap (λ z. cell_of (bind_text i (some s) z)) (int_of_bits-small (length s) h)
    ∙ ap text_cell (take-length s)

pub cell_bytes-text : (i : ℕ) (o : Option Bytes) → Fits o → cell_bytes (cell_of (text_use i o)) ≡ o
cell_bytes-text i none h = refl
cell_bytes-text i (some s) h = ap cell_bytes (text_cell_of i s h)

pub cell_size-text :
    (i : ℕ) (o : Option Bytes) → Fits o → cell_size (cell_of (text_use i o)) ≡ size_of o
cell_size-text i none h = refl
cell_size-text i (some s) h = ap cell_size (text_cell_of i s h)

pub text_use-IsTextCell : (i : ℕ) (o : Option Bytes) → Fits o → IsTextCell (cell_of (text_use i o))
text_use-IsTextCell i none h = tt
text_use-IsTextCell i (some s) h = subst IsTextCell (sym (text_cell_of i s h)) tt

blob_cell_of :
    (block : Bytes) (len : ℕ)
    → suc len < 2 ^ 31
    → cell_of (body_use (some block) (suc len)) ≡ blob_cell (take (suc len) block)
blob_cell_of block len h =
    let e : ltb 0 (suc len) ≡ true = ground arith in
    rw e (ap (λ z. cell_of (bind_blob 7 (some block) z)) (int_of_bits-small (suc len) h))

pub cell_bytes-body :
    (o : Option Bytes) (len : ℕ)
    → len < 2 ^ 31
    → cell_bytes (cell_of (body_use o len)) ≡ kept (taken o len)
cell_bytes-body none len h = refl
cell_bytes-body (some block) zero h = refl
cell_bytes-body (some []) (suc len) h = ap cell_bytes (blob_cell_of [] len h)
cell_bytes-body (some (b ∷ bs)) (suc len) h = ap cell_bytes (blob_cell_of (b ∷ bs) len h)

pub cell_size-body :
    (o : Option Bytes) (len : ℕ)
    → len < 2 ^ 31
    → cell_size (cell_of (body_use o len)) ≡ size_of (taken o len)
cell_size-body none len h = refl
cell_size-body (some block) zero h = refl
cell_size-body (some block) (suc len) h = ap cell_size (blob_cell_of block len h)

pub body_use-IsBlobCell :
    (o : Option Bytes) (len : ℕ) → len < 2 ^ 31 → IsBlobCell (cell_of (body_use o len))
body_use-IsBlobCell none len h = tt
body_use-IsBlobCell (some block) zero h = tt
body_use-IsBlobCell (some block) (suc len) h = subst IsBlobCell (sym (blob_cell_of block len h)) tt

pub result_code-IsInt : (r : ResponseResults) → IsInt (result_code r)
unfolding result_code
result_code-IsInt response_ok = omega arith
result_code-IsInt response_curl_error = omega arith
result_code-IsInt response_internal_error = omega arith
result_code-IsInt response_cancelled = omega arith

parameter-text : (i : ℕ) (o : Option Bytes) → parameter (text_use i o) ≡ some i
parameter-text i none = refl
parameter-text i (some s) = refl

parameter-body : (o : Option Bytes) (len : ℕ) → parameter (body_use o len) ≡ some 7
parameter-body none len = refl
parameter-body (some block) len = elim (Bool-cases (ltb 0 len)) [
  | inl e ↦ rw e refl
  | inr e ↦ rw e refl
]

skip_cell :
    (i j : ℕ) (u : Use) (uses : List Use)
    → parameter u ≡ some j
    → (j == i) ≡ false
    → bound_cell i (u ∷ uses) ≡ bound_cell i uses
unfolding bound_cell
skip_cell i j u uses e f = rw e (rw f refl)

hit_cell :
    (i : ℕ) (u : Use) (uses : List Use)
    → parameter u ≡ some i
    → (i == i) ≡ true
    → bound_cell i (u ∷ uses) ≡ cell_of u
unfolding bound_cell
hit_cell i u uses e f = rw e (rw f refl)

pub result_of_code-result_code : (r : ResponseResults) → result_of_code (result_code r) ≡ r
unfolding result_of_code result_code
result_of_code-result_code response_ok = refl
result_of_code-result_code response_curl_error = refl
result_of_code-result_code response_internal_error = refl
result_of_code-result_code response_cancelled = refl

module _ (sqlite : Sqlite) (resp : Response) where
  abbrev uses : List Use
  uses = response_uses sqlite resp

  abbrev fixed : List Use
  fixed =
      bind_double 4 resp.duration
      ∷ bind_int 3 (result_code resp.result)
      ∷ bind_int 2 resp.status_code
      ∷ bind_int 1 resp.request_id
      ∷ []

  abbrev texts : List Use
  texts = text_use 6 resp.content_type ∷ text_use 5 (c_text sqlite resp.headers) ∷ fixed

  past_body : (i : ℕ) → (8 == i) ≡ false → (7 == i) ≡ false → bound_cell i uses ≡ bound_cell i texts
  past_body i e f =
      skip_cell i 8 (bind_int64 8 resp.body_len) (body_use resp.body resp.body_len ∷ texts) refl e
      ∙ skip_cell i 7 (body_use resp.body resp.body_len) texts
          (parameter-body resp.body resp.body_len) f

  past_texts :
      (i : ℕ)
      → (8 == i) ≡ false
      → (7 == i) ≡ false
      → (6 == i) ≡ false
      → (5 == i) ≡ false
      → bound_cell i uses ≡ bound_cell i fixed
  past_texts i e f g h =
      past_body i e f
      ∙ skip_cell i 6 (text_use 6 resp.content_type)
          (text_use 5 (c_text sqlite resp.headers) ∷ fixed) (parameter-text 6 resp.content_type) g
      ∙ skip_cell i 5 (text_use 5 (c_text sqlite resp.headers)) fixed
          (parameter-text 5 (c_text sqlite resp.headers)) h

  pub bound_1 : bound_cell 1 uses ≡ int_cell resp.request_id
  unfolding bound_cell
  bound_1 = past_texts 1 refl refl refl refl

  pub bound_2 : bound_cell 2 uses ≡ int_cell resp.status_code
  unfolding bound_cell
  bound_2 = past_texts 2 refl refl refl refl

  pub bound_3 : bound_cell 3 uses ≡ int_cell (result_code resp.result)
  unfolding bound_cell
  bound_3 = past_texts 3 refl refl refl refl

  pub bound_4 : bound_cell 4 uses ≡ cell_of (bind_double 4 resp.duration)
  unfolding bound_cell
  bound_4 = past_texts 4 refl refl refl refl

  pub bound_5 : bound_cell 5 uses ≡ cell_of (text_use 5 (c_text sqlite resp.headers))
  bound_5 =
      past_body 5 refl refl
      ∙ skip_cell 5 6 (text_use 6 resp.content_type)
          (text_use 5 (c_text sqlite resp.headers) ∷ fixed) (parameter-text 6 resp.content_type)
          refl
      ∙ hit_cell 5 (text_use 5 (c_text sqlite resp.headers)) fixed
          (parameter-text 5 (c_text sqlite resp.headers)) refl

  pub bound_6 : bound_cell 6 uses ≡ cell_of (text_use 6 resp.content_type)
  bound_6 =
      past_body 6 refl refl
      ∙ hit_cell 6 (text_use 6 resp.content_type) (text_use 5 (c_text sqlite resp.headers) ∷ fixed)
          (parameter-text 6 resp.content_type) refl

  pub bound_7 : bound_cell 7 uses ≡ cell_of (body_use resp.body resp.body_len)
  bound_7 =
      skip_cell 7 8 (bind_int64 8 resp.body_len) (body_use resp.body resp.body_len ∷ texts) refl
        refl
      ∙ hit_cell 7 (body_use resp.body resp.body_len) texts (parameter-body resp.body resp.body_len)
          refl
