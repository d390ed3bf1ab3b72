-- ===== src/Worker.antt =====
-- src/core/worker.c: the callbacks that collect a response.
pub mod Answers
pub mod Buffer
pub mod Curl
pub mod Headers
pub mod Handles
pub mod Http
pub mod Lists
use http_runtime.Base.{
  ℕ, ◌+◌, ◌*◌, ◌%◌, ◌^◌, Bool, true, false, Option, none, some, List, [], ◌∷◌, ◌++◌, ltb, leb,
  if◌then◌else◌, length, take, drop, Bytes,
}
use http_runtime.Models.{Response}

-- The bytes of a block; NULL has none.
abbrev pub block : Option Bytes → Bytes
block none = []
block (some bytes) = bytes

unfoldable pub max_size : ℕ → ℕ → ℕ → ℕ
max_size a b c = if ltb b a then (if ltb c a then a else c) else if ltb c b then b else c

abbrev pub initial_capacity : ℕ
initial_capacity = 4096

-- What a callback returns to libcurl, and the response it leaves; `overrun` is a write outside
-- the block.
pub data Collected : Type 0 where
  returned : ℕ → Response → Collected
  overrun : Collected

-- The block and its capacity once `required` bytes fit; `none` if `realloc` fails.
unfoldable pub reserve :
    (Option Bytes → ℕ → Option Bytes) → Option Bytes → ℕ → ℕ → Option (Option Bytes × ℕ)
reserve realloc buffer capacity required =
    let new_capacity = max_size initial_capacity (capacity * 2 % 2 ^ 64) required in
    if ltb capacity required
    then elim (realloc buffer new_capacity) [
      | none ↦ none
      | some temp ↦ some (some temp, new_capacity)
    ]
    else some (buffer, capacity)

-- `memcpy(buffer + offset, bytes, length)`; `none` if that is not all inside the block.
unfoldable pub store : Option Bytes → ℕ → Bytes → Option Bytes
store buffer offset bytes =
    if leb (offset + length bytes) (length (block buffer))
    then some (take offset (block buffer) ++ bytes ++ drop (offset + length bytes) (block buffer))
    else none

-- `ptr` has the `size * nmemb` bytes, and `userdata` is the response.
unfoldable pub write_callback : (Option Bytes → ℕ → Option Bytes) → Bytes → Response → Collected
write_callback realloc ptr r =
    let total_size = length ptr in
    elim (reserve realloc r.body r.body_capacity ((r.body_len + total_size) % 2 ^ 64)) [
      | none ↦ returned 0 r
      | some grown ↦ elim (store grown.0 r.body_len ptr) [
        | none ↦ overrun
        | some bytes ↦ returned total_size (record r {
          body = some bytes;
          body_capacity = grown.1;
          body_len = (r.body_len + total_size) % 2 ^ 64;
        })
      ]
    ]

unfoldable pub header_callback : (Option Bytes → ℕ → Option Bytes) → Bytes → Response → Collected
header_callback realloc ptr r =
    let total_size = length ptr in
    elim (reserve realloc r.headers r.headers_capacity
      ((r.headers_len + total_size + 1) % 2 ^ 64)) [
        | none ↦ returned 0 r
        | some grown ↦ elim (store grown.0 r.headers_len (ptr ++ 0 ∷ [])) [
          | none ↦ overrun
          | some bytes ↦ returned total_size (record r {
            headers = some bytes;
            headers_capacity = grown.1;
            headers_len = (r.headers_len + total_size) % 2 ^ 64;
          })
        ]
      ]
