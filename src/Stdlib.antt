-- ===== src/Stdlib.antt =====
-- `atoi` of the C library: blanks, a sign, and decimal digits. The value is kept in 32 bits, as
-- `(int) strtol (s, NULL, 10)` on a 64-bit target, where `strtol` stops at its limits.
use http_runtime.Base.{
  ℕ, ◌+◌, ◌-◌, ◌*◌, ◌^◌, [], ◌∷◌, ltb, ◌==◌, if◌then◌else◌, Bytes, ℤ, pos, int_of_bits,
}
use http_runtime.Ctype.{isdigit, isspace}

-- The number that the leading digits spell, behind the value read so far.
unfoldable pub digits_value : ℕ → Bytes → ℕ
unfolding isdigit
digits_value acc [] = acc
digits_value acc (c ∷ cs) =
    let rest = digits_value (acc * 10 + (c - b'0')) cs in if isdigit c then rest else acc

abbrev pub at_most : ℕ → ℕ → ℕ
at_most limit n = if ltb limit n then limit else n

-- The sign, and the digits behind it.
unfoldable pub signed_value : Bytes → ℤ
unfolding digits_value
signed_value [] = pos 0
signed_value (c ∷ cs) =
    if c == b'-'
    then int_of_bits (2 ^ 64 - at_most (2 ^ 63) (digits_value 0 cs))
    else if c == b'+'
    then int_of_bits (at_most (2 ^ 63 - 1) (digits_value 0 cs))
    else int_of_bits (at_most (2 ^ 63 - 1) (digits_value 0 (c ∷ cs)))

unfoldable pub atoi : Bytes → ℤ
unfolding signed_value isspace
atoi [] = pos 0
atoi (c ∷ cs) = let rest = atoi cs in if isspace c then rest else signed_value (c ∷ cs)
