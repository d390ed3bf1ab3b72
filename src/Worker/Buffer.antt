-- ===== src/Worker/Buffer.antt =====
-- The buffers of the callbacks of src/core/worker.c grow as needed and are never overrun.
use http_runtime.Base.{
  ℕ, zero, suc, ◌+◌, ◌*◌, ◌%◌, ◌^◌, ◌≤◌, ◌<◌, true, false, Option, none, some, [], ◌∷◌, ◌++◌, ◌≡◌,
  refl, ap, sym, subst, ◌∙◌, ◌⊎◌, inl, inr, Bool-cases, Option-cases, ltb, leb, length,
  length-append, take, drop, take-append, length-take, append_assoc, arith, Bytes,
}
use http_runtime.Models.{Response}
use http_runtime.Worker.{
  block, max_size, reserve, store, returned, write_callback, initial_capacity,
}

-- The block has `capacity` bytes, and begins with the `len` bytes of `text`.
abbrev pub Holds : Option Bytes → ℕ → ℕ → Bytes → Type 0
Holds buffer capacity len text =
    (rest : Bytes) × (block buffer ≡ text ++ rest)
    × (length (block buffer) ≡ capacity)
    × (length text ≡ len)

-- `realloc` to a size that is not smaller keeps the bytes of the block and returns a block of
-- that size, or NULL.
abbrev pub ReallocKeeps : (Option Bytes → ℕ → Option Bytes) → Type 0
ReallocKeeps realloc =
    (b : Option Bytes) (n : ℕ) (new : Bytes)
    → realloc b n ≡ some new
    → length (block b) ≤ n
    → (rest : Bytes) × (new ≡ block b ++ rest) × (length new ≡ n)

max_size_le : (a b c : ℕ) → c ≤ max_size a b c
unfolding max_size
max_size_le a b c = ground arith

length-drop : (n : ℕ) (xs : Bytes) → n ≤ length xs → n + length (drop n xs) ≡ length xs
length-drop zero xs h = omega arith
length-drop (suc n) [] h = absurd (omega (arith, h))
length-drop (suc n) (x ∷ xs) h = let e = length-drop n xs (omega (arith, h)) in omega (arith, e)

pub store_lem :
    (b : Option Bytes) (capacity len : ℕ) (text bytes : Bytes)
    → Holds b capacity len text
    → len + length bytes ≤ capacity
    → (new : Bytes) × ((store b len bytes ≡ some new)
        × Holds (some new) capacity (len + length bytes) (text ++ bytes))
unfolding store
store_lem b capacity len text bytes (rest, e, size, l) h =
    let behind = drop (len + length bytes) (block b) in
    let inside : leb (len + length bytes) (length (block b)) ≡ true = ground arith in
    let front : take len (block b) ≡ text =
      ap (λ xs. take len xs) e
      ∙ subst (λ n. take n (text ++ rest) ≡ text) l (take-append text rest) in
    let d = length-drop (len + length bytes) (block b) (omega (arith, h, size)) in
    (
      take len (block b) ++ bytes ++ behind,
      (
        rw inside refl,
        (
          behind,
          ap (λ xs. xs ++ bytes ++ behind) front,
          omega (
            arith,
            size,
            d,
            length-append (take len (block b) ++ bytes) behind,
            length-append (take len (block b)) bytes,
            length-take len (block b) (omega (arith, h, size)),
          ),
          omega (arith, l, length-append text bytes),
        ),
      ),
    )

reserve_enough :
    (realloc : Option Bytes → ℕ → Option Bytes) (b : Option Bytes) (capacity required : ℕ)
    → ltb capacity required ≡ false
    → reserve realloc b capacity required ≡ some (b, capacity)
unfolding reserve
reserve_enough realloc b capacity required e = rw e refl

abbrev next_capacity : ℕ → ℕ → ℕ
next_capacity capacity required = max_size initial_capacity (capacity * 2 % 2 ^ 64) required

reserve_refused :
    (realloc : Option Bytes → ℕ → Option Bytes) (b : Option Bytes) (capacity required : ℕ)
    → ltb capacity required ≡ true
    → realloc b (next_capacity capacity required) ≡ none
    → reserve realloc b capacity required ≡ none
unfolding reserve
reserve_refused realloc b capacity required e f = rw (e, f) refl

reserve_given :
    (realloc : Option Bytes → ℕ → Option Bytes) (b : Option Bytes) (capacity required : ℕ)
    (temp : Bytes)
    → ltb capacity required ≡ true
    → realloc b (next_capacity capacity required) ≡ some temp
    → reserve realloc b capacity required ≡ some (some temp, next_capacity capacity required)
unfolding reserve
reserve_given realloc b capacity required temp e f = rw (e, f) refl

pub reserve_lem :
    (realloc : Option Bytes → ℕ → Option Bytes) (b : Option Bytes) (capacity len required : ℕ)
    (text : Bytes)
    → ReallocKeeps realloc
    → Holds b capacity len text
    → ((reserve realloc b capacity required ≡ none) × ((n : ℕ) × (realloc b n ≡ none)))
      ⊎ ((b' : Option Bytes) × (c : ℕ) × (reserve realloc b capacity required ≡ some (b', c))
          × Holds b' c len text
          × (required ≤ c))
reserve_lem realloc b capacity len required text keeps (rest, e, size, l) =
    elim (Bool-cases (ltb capacity required)) [
      | inr enough ↦ inr (
        b,
        capacity,
        reserve_enough realloc b capacity required enough,
        (rest, e, size, l),
        ground arith,
      )
      | inl small ↦ elim (Option-cases (realloc b (next_capacity capacity required))) [
        | inl refused ↦ inl (
          reserve_refused realloc b capacity required small refused,
          (next_capacity capacity required, refused),
        )
        | inr (temp, given) ↦
            let enough = max_size_le initial_capacity (capacity * 2 % 2 ^ 64) required in
            let fits : length (block b) ≤ next_capacity capacity required =
              ground (arith, enough) in
            let (more, f, n) = keeps b (next_capacity capacity required) temp given fits in
            inr (
              some temp,
              next_capacity capacity required,
              reserve_given realloc b capacity required temp small given,
              (rest ++ more, f ∙ ap (λ xs. xs ++ more) e ∙ append_assoc text rest more, n, l),
              enough,
            )
      ]
    ]

write_refused :
    (realloc : Option Bytes → ℕ → Option Bytes) (ptr : Bytes) (r : Response)
    → reserve realloc r.body r.body_capacity ((r.body_len + length ptr) % 2 ^ 64) ≡ none
    → write_callback realloc ptr r ≡ returned 0 r
unfolding write_callback
write_refused realloc ptr r e = ground arith

write_stored :
    (realloc : Option Bytes → ℕ → Option Bytes) (ptr : Bytes) (r : Response) (b : Option Bytes)
    (c : ℕ) (new : Bytes)
    → reserve realloc r.body r.body_capacity ((r.body_len + length ptr) % 2 ^ 64) ≡ some (b, c)
    → store b r.body_len ptr ≡ some new
    → write_callback realloc ptr r
      ≡ returned (length ptr) (record r {
        body = some new;
        body_capacity = c;
        body_len = (r.body_len + length ptr) % 2 ^ 64;
      })
unfolding write_callback
write_stored realloc ptr r b c new e f = ground arith

-- When the buffer of the body holds `text` and the sizes are within `size_t`, `write_callback`
-- never writes outside the block: it returns 0 and leaves the response when `realloc` refuses,
-- and else returns the size of the piece, with a buffer that holds `text` and the piece.
pub write_callback_lem :
    (realloc : Option Bytes → ℕ → Option Bytes) (ptr text : Bytes) (r : Response)
    → ReallocKeeps realloc
    → Holds r.body r.body_capacity r.body_len text
    → r.body_len + length ptr < 2 ^ 64
    → ((write_callback realloc ptr r ≡ returned 0 r) × ((n : ℕ) × (realloc r.body n ≡ none)))
      ⊎ ((r' : Response) × (write_callback realloc ptr r ≡ returned (length ptr) r')
          × Holds r'.body r'.body_capacity r'.body_len (text ++ ptr))
write_callback_lem realloc ptr text r keeps holds small =
    let required = (r.body_len + length ptr) % 2 ^ 64 in
    let exact : required ≡ r.body_len + length ptr = omega (arith, small) in
    elim (reserve_lem realloc r.body r.body_capacity r.body_len required text keeps holds) [
      | inl (e, why) ↦ inl (write_refused realloc ptr r e, why)
      | inr (b, c, e, held, fits) ↦
          let (new, (f, stored)) =
            store_lem b c r.body_len text ptr held (subst (λ n. n ≤ c) exact fits) in
          inr (
            _,
            write_stored realloc ptr r b c new e f,
            subst (λ n. Holds (some new) c n (text ++ ptr)) (sym exact) stored,
          )
    ]
