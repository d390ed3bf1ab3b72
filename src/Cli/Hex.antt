-- ===== src/Cli/Hex.antt =====
-- src/cli/cli_parser.c: byte patterns in hexadecimal.
use http_runtime.Base.{
  ℕ, ◌+◌, ◌-◌, ◌*◌, ◌/◌, ◌%◌, Bool, not, ◌&&◌, ◌||◌, Option, none, some, [], ◌∷◌, leb, ◌==◌,
  if◌then◌else◌, length, Bytes,
}

-- `none` is -1. A `char` above 127 is negative on the target, so it is in no range either way.
unfoldable pub hex_digit_value : ℕ → Option ℕ
hex_digit_value c =
    if leb b'0' c && leb c b'9'
    then some (c - b'0')
    else if leb b'a' c && leb c b'f'
    then some (10 + (c - b'a'))
    else if leb b'A' c && leb c b'F'
    then some (10 + (c - b'A'))
    else none

-- `(unsigned char)((hi << 4) | lo)`, where `lo` has four bits; `none` if a digit is -1
unfoldable pub hex_byte : Option ℕ → Option ℕ → Option ℕ
hex_byte (some hi) (some lo) = some ((hi * 16 + lo) % 256)
hex_byte _ _ = none

-- The loop over the pairs of digits: it stops at the first pair that is not one.
unfoldable pub hex_bytes : Bytes → Option Bytes
unfolding hex_digit_value hex_byte
hex_bytes (hi ∷ lo ∷ hex) =
    let rest = hex_bytes hex in
    elim (hex_byte (hex_digit_value hi) (hex_digit_value lo)) [
      | none ↦ none
      | some b ↦ elim rest [ none ↦ none | some bytes ↦ some (b ∷ bytes) ]
    ]
hex_bytes _ = some []

-- `some` is `true` with what stands in `*out_data` and `*out_len`. The first argument says
-- whether `malloc` has a block of a size.
unfoldable pub parse_hex_bytes : (ℕ → Bool) → Option Bytes → Option Bytes
unfolding hex_bytes
parse_hex_bytes malloc none = none
parse_hex_bytes malloc (some hex) =
    if length hex == 0 || not (length hex % 2 == 0)
    then none
    else if malloc (length hex / 2)
    then hex_bytes hex
    else none
