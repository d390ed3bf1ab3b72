-- ===== src/Cli/RoundTrip.antt =====
-- The byte patterns and the status that src/cli/cli_output.c prints are read back by src/cli/cli_parser.c.
use http_runtime.Base.{
  ℕ, ◌*◌, ◌/◌, ◌%◌, ◌<◌, Bool, true, false, some, List, [], ◌∷◌, ◌++◌, ◌≡◌, ◌≢◌, refl, ap, sym,
  subst, ◌∙◌, length, arith, Bytes, codes,
}
use http_runtime.Cli.Hex.{hex_digit_value, hex_byte, hex_bytes, parse_hex_bytes}
use http_runtime.Cli.Output.{is_printable_bytes, hex_digit, print_hex, print_byte_value}
use http_runtime.Cli.Options.{
  CliOptions, next, max_assertion, push_assertion, push_owned, body_assertion, expect_hex_body,
  expect_body,
}

abbrev pub IsBytes : Bytes → Type 0
IsBytes [] = Unit {0}
IsBytes (b ∷ bs) = (b < 256) × IsBytes bs

hex_digit_value-hex_digit : (d : ℕ) → d < 16 → hex_digit_value (hex_digit d) ≡ some d
unfolding hex_digit_value hex_digit
hex_digit_value-hex_digit d h = ground arith

hex_byte-hex_digit :
    (b : ℕ)
    → b < 256
    → hex_byte (hex_digit_value (hex_digit (b / 16))) (hex_digit_value (hex_digit (b % 16)))
      ≡ some b
unfolding hex_byte
hex_byte-hex_digit b h =
    rw
      (
        hex_digit_value-hex_digit (b / 16) (omega (arith, h)),
        hex_digit_value-hex_digit (b % 16) (omega arith),
      )
      (ap some (omega (arith, h)))

hex_bytes_step :
    (hi lo b : ℕ) (hex bs : Bytes)
    → hex_byte (hex_digit_value hi) (hex_digit_value lo) ≡ some b
    → hex_bytes hex ≡ some bs
    → hex_bytes (hi ∷ lo ∷ hex) ≡ some (b ∷ bs)
unfolding hex_bytes
hex_bytes_step hi lo b hex bs e f = ground arith

hex_bytes-print_hex : (bs : Bytes) → IsBytes bs → hex_bytes (print_hex bs) ≡ some bs
unfolding hex_bytes print_hex
hex_bytes-print_hex [] h = refl
hex_bytes-print_hex (b ∷ bs) h =
    hex_bytes_step (hex_digit (b / 16)) (hex_digit (b % 16)) b (print_hex bs) bs
      (hex_byte-hex_digit b h.0) (hex_bytes-print_hex bs h.1)

length-print_hex : (bs : Bytes) → length (print_hex bs) ≡ 2 * length bs
unfolding print_hex
length-print_hex [] = refl
length-print_hex (b ∷ bs) = omega (arith, length-print_hex bs)

parse_hex_bytes_even :
    (malloc : ℕ → Bool) (hex : Bytes) (n : ℕ)
    → length hex ≡ 2 * n
    → n ≢ 0
    → malloc n ≡ true
    → parse_hex_bytes malloc (some hex) ≡ hex_bytes hex
unfolding parse_hex_bytes
parse_hex_bytes_even malloc hex n e ne m =
    let half : length hex / 2 ≡ n = omega (arith, e) in
    let m' : malloc (length hex / 2) ≡ true = ap malloc half ∙ m in ground arith

length_zero : (bs : Bytes) → length bs ≡ 0 → bs ≡ []
length_zero [] e = refl
length_zero (b ∷ bs) e = absurd (omega (arith, e))

-- The digits that are printed for one or more bytes are read back as these bytes, when `malloc`
-- has a block of their number.
pub parse_hex_bytes-print_hex :
    (malloc : ℕ → Bool) (bs : Bytes)
    → IsBytes bs
    → bs ≢ []
    → malloc (length bs) ≡ true
    → parse_hex_bytes malloc (some (print_hex bs)) ≡ some bs
parse_hex_bytes-print_hex malloc bs h ne m =
    parse_hex_bytes_even malloc (print_hex bs) (length bs) (length-print_hex bs)
      (λ e. ne (length_zero bs e)) m
    ∙ hex_bytes-print_hex bs h

print_byte_value_hex :
    (bs : Bytes)
    → is_printable_bytes (some bs) ≡ false
    → print_byte_value (some bs) ≡ codes "hex:" ++ print_hex bs
unfolding print_byte_value
print_byte_value_hex bs e = rw e refl

expect_body_hex :
    (malloc : ℕ → Bool) (hex bs : Bytes) (argv : List Bytes) (options : CliOptions)
    → parse_hex_bytes malloc (some hex) ≡ some bs
    → length options.assertions < max_assertion
    → length options.owned_expected_body < max_assertion
    → expect_body malloc ((codes "hex:" ++ hex) ∷ argv) options
      ≡ next argv (push_owned bs (push_assertion (body_assertion (some bs)) options))
unfolding expect_body expect_hex_body
expect_body_hex malloc hex bs argv options e room owned = ground arith

printable_nil : is_printable_bytes (some []) ≡ true
unfolding is_printable_bytes
printable_nil = refl

-- A pattern that is printed in hexadecimal, since a byte of it is not printable, and given to
-- `--expect-body` as it is printed adds the assertion on the same bytes and owns their copy.
pub expect_body-print_byte_value :
    (malloc : ℕ → Bool) (bs : Bytes) (argv : List Bytes) (options : CliOptions)
    → IsBytes bs
    → is_printable_bytes (some bs) ≡ false
    → malloc (length bs) ≡ true
    → length options.assertions < max_assertion
    → length options.owned_expected_body < max_assertion
    → expect_body malloc (print_byte_value (some bs) ∷ argv) options
      ≡ next argv (push_owned bs (push_assertion (body_assertion (some bs)) options))
expect_body-print_byte_value malloc bs argv options h np m room owned =
    let ne : bs ≢ [] =
      λ e. let f = sym printable_nil ∙ ap (λ b. is_printable_bytes (some b)) (sym e) ∙ np in cc in
    subst
      (λ value.
        expect_body malloc (value ∷ argv) options
        ≡ next argv (push_owned bs (push_assertion (body_assertion (some bs)) options)))
      (sym (print_byte_value_hex bs np))
      (expect_body_hex malloc (print_hex bs) bs argv options
        (parse_hex_bytes-print_hex malloc bs h ne m) room owned)
