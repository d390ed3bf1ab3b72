-- ===== src/Worker/Headers.antt =====
-- header_callback of src/core/worker.c keeps its buffer a C string.
use http_runtime.Base.{
  ℕ, ◌+◌, ◌%◌, ◌^◌, ◌≤◌, ◌<◌, Option, none, some, [], ◌∷◌, ◌++◌, ◌≡◌, ap, sym, subst, ◌∙◌, ◌⊎◌, inl,
  inr, length, length-append, append_assoc, arith, Bytes,
}
use http_runtime.Models.{Response}
use http_runtime.Worker.{block, reserve, store, returned, header_callback}
use http_runtime.Worker.Buffer.{Holds, ReallocKeeps, reserve_lem, store_lem}

-- The block has `capacity` bytes, and begins with the `len` bytes of `text` and a NUL.
abbrev pub HoldsString : Option Bytes → ℕ → ℕ → Bytes → Type 0
HoldsString buffer capacity len text =
    (rest : Bytes) × (block buffer ≡ text ++ 0 ∷ [] ++ rest)
    × (length (block buffer) ≡ capacity)
    × (length text ≡ len)

header_refused :
    (realloc : Option Bytes → ℕ → Option Bytes) (ptr : Bytes) (r : Response)
    → reserve realloc r.headers r.headers_capacity ((r.headers_len + length ptr + 1) % 2 ^ 64)
      ≡ none
    → header_callback realloc ptr r ≡ returned 0 r
unfolding header_callback
header_refused realloc ptr r e = ground arith

header_stored :
    (realloc : Option Bytes → ℕ → Option Bytes) (ptr : Bytes) (r : Response) (b : Option Bytes)
    (c : ℕ) (new : Bytes)
    → reserve realloc r.headers r.headers_capacity ((r.headers_len + length ptr + 1) % 2 ^ 64)
      ≡ some (b, c)
    → store b r.headers_len (ptr ++ 0 ∷ []) ≡ some new
    → header_callback realloc ptr r
      ≡ returned (length ptr) (record r {
        headers = some new;
        headers_capacity = c;
        headers_len = (r.headers_len + length ptr) % 2 ^ 64;
      })
unfolding header_callback
header_stored realloc ptr r b c new e f = ground arith

Holds-HoldsString :
    (b : Option Bytes) (c len : ℕ) (text ptr : Bytes)
    → length text ≡ len
    → Holds b c (len + length (ptr ++ 0 ∷ [])) (text ++ (ptr ++ 0 ∷ []))
    → HoldsString b c (len + length ptr) (text ++ ptr)
Holds-HoldsString b c len text ptr k (rest, e, size, l) = (
  rest,
  e ∙ ap (λ xs. xs ++ rest) (sym (append_assoc text ptr (0 ∷ []))),
  size,
  omega (arith, k, length-append text ptr),
)

-- What begins with a text and a NUL begins with the text, so that the next piece can follow.
pub HoldsString-Holds :
    (b : Option Bytes) (c len : ℕ) (text : Bytes) → HoldsString b c len text → Holds b c len text
HoldsString-Holds b c len text (rest, e, size, l) =
    (0 ∷ [] ++ rest, e ∙ append_assoc text (0 ∷ []) rest, size, l)

-- When the buffer of the headers holds `text` and the sizes are within `size_t`,
-- `header_callback` never writes outside the block: it returns 0 and leaves the response when
-- `realloc` refuses, and else returns the size of the piece, with a buffer that holds `text`,
-- the piece, and a NUL behind them.
pub header_callback_lem :
    (realloc : Option Bytes → ℕ → Option Bytes) (ptr text : Bytes) (r : Response)
    → ReallocKeeps realloc
    → Holds r.headers r.headers_capacity r.headers_len text
    → r.headers_len + length ptr + 1 < 2 ^ 64
    → ((header_callback realloc ptr r ≡ returned 0 r) × ((n : ℕ) × (realloc r.headers n ≡ none)))
      ⊎ ((r' : Response) × (header_callback realloc ptr r ≡ returned (length ptr) r')
          × HoldsString r'.headers r'.headers_capacity r'.headers_len (text ++ ptr))
header_callback_lem realloc ptr text r keeps holds small =
    let required = (r.headers_len + length ptr + 1) % 2 ^ 64 in
    let exact : required ≡ r.headers_len + length ptr + 1 = omega (arith, small) in
    let len : (r.headers_len + length ptr) % 2 ^ 64 ≡ r.headers_len + length ptr =
      omega (arith, small) in
    let piece = length-append ptr (0 ∷ []) in
    elim (reserve_lem realloc r.headers r.headers_capacity r.headers_len required text keeps
      holds) [
        | inl (e, why) ↦ inl (header_refused realloc ptr r e, why)
        | inr (b, c, e, held, fits) ↦
            let room : r.headers_len + length (ptr ++ 0 ∷ []) ≤ c =
              omega (arith, piece, exact, fits) in
            let (new, (f, stored)) = store_lem b c r.headers_len text (ptr ++ 0 ∷ []) held room in
            inr (
              _,
              header_stored realloc ptr r b c new e f,
              subst (λ n. HoldsString (some new) c n (text ++ ptr)) (sym len)
                  (Holds-HoldsString (some new) c r.headers_len text ptr holds.3 stored),
            )
      ]
