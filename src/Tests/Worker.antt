-- ===== src/Tests/Worker.antt =====
-- The callbacks on a new response, with a `realloc` that fills new bytes with zeros.
use http_runtime.Base.{
  ℕ, zero, suc, ◌-◌, Option, none, some, [], ◌∷◌, ◌++◌, ◌≡◌, refl, ap, sym, ◌∙◌, ◌⊎◌, length,
  length-append, arith, Bytes, codes,
}
use http_runtime.Models.{Response, empty_response}
use http_runtime.Worker.{block, returned, write_callback, header_callback}
use http_runtime.Worker.Buffer.{Holds, ReallocKeeps, write_callback_lem}
use http_runtime.Worker.Headers.{HoldsString, header_callback_lem}

abbrev zeros : ℕ → Bytes
zeros zero = []
zeros (suc n) = 0 ∷ zeros n

abbrev realloc : Option Bytes → ℕ → Option Bytes
realloc b n = some (block b ++ zeros (n - length (block b)))

length-zeros : (n : ℕ) → length (zeros n) ≡ n
length-zeros zero = refl
length-zeros (suc n) = ap suc (length-zeros n)

realloc-ReallocKeeps : ReallocKeeps realloc
realloc-ReallocKeeps b n new e h =
    let f : block b ++ zeros (n - length (block b)) ≡ new = cc in
    (
      zeros (n - length (block b)),
      sym f,
      ap length (sym f)
          ∙ omega (
            arith,
            h,
            length-append (block b) (zeros (n - length (block b))),
            length-zeros (n - length (block b)),
          ),
    )

write_callback_lem_example :
    ((write_callback realloc (codes "hi") empty_response ≡ returned 0 empty_response)
      × ((n : ℕ) × (realloc none n ≡ none)))
    ⊎ ((r : Response) × (write_callback realloc (codes "hi") empty_response ≡ returned 2 r)
        × Holds r.body r.body_capacity r.body_len (codes "hi"))
write_callback_lem_example =
    write_callback_lem realloc (codes "hi") [] empty_response realloc-ReallocKeeps
      ([], refl, refl, refl) (omega arith)

header_callback_lem_example :
    ((header_callback realloc (codes "a: b") empty_response ≡ returned 0 empty_response)
      × ((n : ℕ) × (realloc none n ≡ none)))
    ⊎ ((r : Response) × (header_callback realloc (codes "a: b") empty_response ≡ returned 4 r)
        × HoldsString r.headers r.headers_capacity r.headers_len (codes "a: b"))
header_callback_lem_example =
    header_callback_lem realloc (codes "a: b") [] empty_response realloc-ReallocKeeps
      ([], refl, refl, refl) (omega arith)
