-- ===== src/Cli/Output.antt =====
-- src/cli/cli_output.c: what is printed. What a function writes to the standard output is its
-- result.
pub mod Decimal
pub mod Summary
pub mod Checks
pub mod Lines
pub mod Verdict
use http_runtime.Base.{
  ℕ, ◌+◌, ◌-◌, ◌/◌, ◌%◌, Bool, true, false, ◌||◌, Option, none, some, [], ◌∷◌, ◌++◌, ltb, ◌==◌,
  if◌then◌else◌, Bytes, codes,
}
use http_runtime.Ctype.{isprint}

unfoldable pub is_printable_bytes : Option Bytes → Bool
unfolding isprint
is_printable_bytes none = false
is_printable_bytes (some []) = true
is_printable_bytes (some (c ∷ bytes)) =
    let rest = is_printable_bytes (some bytes) in
    if c == b'\n' || c == b'\r' || c == b'\t' then rest else if isprint c then rest else false

-- A digit of `%X`
unfoldable pub hex_digit : ℕ → ℕ
hex_digit d = if ltb d 10 then b'0' + d else b'A' + (d - 10)

-- `printf("%02X", data[i])` for each byte
unfoldable pub print_hex : Bytes → Bytes
unfolding hex_digit
print_hex [] = []
print_hex (b ∷ bytes) = hex_digit (b / 16) ∷ hex_digit (b % 16) ∷ print_hex bytes

unfoldable pub print_byte_value : Option Bytes → Bytes
unfolding is_printable_bytes print_hex
print_byte_value none = codes "<null>"
print_byte_value (some bytes) =
    if is_printable_bytes (some bytes)
    then codes "\"" ++ bytes ++ codes "\""
    else codes "hex:" ++ print_hex bytes
