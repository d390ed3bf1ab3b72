-- ===== src/Assertion/Header.antt =====
-- `header_contains` of src/core/assertion.c and its helpers. Pointers into the header text are the
-- text from there on.
pub mod Lines
pub mod Compare
pub mod Field
use http_runtime.Base.{
  ℕ, zero, suc, ◌+◌, Bool, true, false, not, ◌&&◌, ◌||◌, Option, none, some, List, [], ◌∷◌, ◌==◌,
  if◌then◌else◌, length, Bytes, trimmed_length,
}
use http_runtime.Ctype.{tolower}

-- The byte that a pointer into a C string shows: NUL at its end.
abbrev pub first : Bytes → ℕ
first [] = 0
first (c ∷ _) = c

abbrev pub tail : Bytes → Bytes
tail [] = []
tail (_ ∷ cs) = cs

-- The loop of `strncasecmp_simple` and of `strncmp`, up to `n` bytes, compared through `f`:
-- whether it returns 0.
unfoldable pub strn_eq : (ℕ → ℕ) → ℕ → Bytes → Bytes → Bool
strn_eq f zero a b = true
strn_eq f (suc n) a b =
    let rest = strn_eq f n (tail a) (tail b) in
    if not (f (first a) == f (first b)) then false else if f (first a) == 0 then true else rest

unfoldable pub strncasecmp_simple : ℕ → Bytes → Bytes → Bool
unfolding strn_eq tolower
strncasecmp_simple = strn_eq tolower

unfoldable pub strncmp : ℕ → Bytes → Bytes → Bool
unfolding strn_eq
strncmp = strn_eq (λ c. c)

unfoldable pub skip_spaces : Bytes → Bytes
skip_spaces [] = []
skip_spaces (c ∷ cs) = let rest = skip_spaces cs in if c == b' ' || c == b'\t' then rest else c ∷ cs

-- `strchr` and `memchr`: the bytes in front of the first `b`, and those from it on.
unfoldable pub until : ℕ → Bytes → Bytes
until b [] = []
until b (c ∷ cs) = if c == b then [] else c ∷ until b cs

unfoldable pub from : ℕ → Bytes → Bytes
from b [] = []
from b (c ∷ cs) = let rest = from b cs in if c == b then c ∷ cs else rest

abbrev pub is_trailing : ℕ → Bool
is_trailing c = c == b' ' || c == b'\t' || c == b'\r'

-- `rtrim_end (start, end) - start`, for the text from `start` to `end`
unfoldable pub rtrim_end : Bytes → ℕ
unfolding trimmed_length
rtrim_end = trimmed_length is_trailing

-- One round of the loop: the test on a line.
unfoldable pub line_matches : Bytes → Bytes → Bytes → Bool
unfolding from until rtrim_end skip_spaces strncasecmp_simple strncmp
line_matches line name value = elim (from b':' line) [
  | [] ↦ false
  | _ ∷ after ↦
      let key = until b':' line in
      let name_len = rtrim_end key in
      let value_start = skip_spaces after in
      let value_len = rtrim_end value_start in
      (name_len == length name && strncasecmp_simple name_len key name)
      && (value_len == length value && strncmp value_len value_start value)
]

-- The loop over the lines, in at most `fuel` rounds.
unfoldable pub header_loop : ℕ → Bytes → Bytes → Bytes → Bool
unfolding line_matches until from
header_loop zero headers name value = false
header_loop (suc fuel) [] name value = false
header_loop (suc fuel) (c ∷ cs) name value =
    let found = line_matches (until b'\n' (c ∷ cs)) name value in
    let later : Bool = elim (from b'\n' (c ∷ cs)) [
      | [] ↦ false
      | _ ∷ rest ↦ header_loop fuel rest name value
    ] in
    if found then true else later

-- A round takes a byte at least.
unfoldable pub header_contains : Option Bytes → Option Bytes → Option Bytes → Bool
unfolding header_loop
header_contains (some headers) (some name) (some value) =
    header_loop (suc (length headers)) headers name value
header_contains _ _ _ = false
