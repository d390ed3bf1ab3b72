-- ===== src/Cli/Options.antt =====
-- include/cli/cli_parser.h and src/cli/cli_parser.c: the options. The words of `argv` are C
-- strings; a count is the length of the part of its array that is in use.
use http_runtime.Base.{
  ℕ, zero, suc, ◌+◌, Bool, Option, none, some, List, [], ◌∷◌, ◌++◌, leb, if◌then◌else◌, length,
  take, drop, Bytes, codes, bytes_eq, ℤ, pos, negsuc,
}
use http_runtime.Stdlib.{atoi}
use http_runtime.Assertion
use http_runtime.Assertion.{Assertion, int_value, byte_value, header_value}
use http_runtime.Cli.Hex.{parse_hex_bytes}

abbrev pub max_assertion : ℕ
max_assertion = 16

pub record CliOptions : Type 0 where
  pub command : Option Bytes
  pub url : Option Bytes
  pub assertions : List Assertion
  pub owned_expected_body : List Bytes

-- One round of the loop: it goes on behind the words it read, or the function returns -1.
pub data Round : Type 0 where
  next : List Bytes → CliOptions → Round
  stop : CliOptions → Round

abbrev pub full : CliOptions → Bool
full options = leb max_assertion (length options.assertions)

abbrev pub push_assertion : Assertion → CliOptions → CliOptions
push_assertion a options = record options { assertions = options.assertions ++ a ∷ [] }

abbrev pub push_owned : Bytes → CliOptions → CliOptions
push_owned b options = record options {
  owned_expected_body = options.owned_expected_body ++ b ∷ [];
}

unfoldable pub expect_status : List Bytes → CliOptions → Round
expect_status [] options = stop options
expect_status (value ∷ argv) options =
    if full options
    then stop options
    else next argv (
        push_assertion (record { type = Assertion.status_eq; expected = int_value (atoi value) })
          options)

abbrev pub body_assertion : Option Bytes → Assertion
body_assertion pattern = record { type = Assertion.body_contains; expected = byte_value pattern }

-- The assertion is counted before the digits are read; its data is still NULL, as `main` zeroed
-- the options, when they are wrong.
unfoldable pub expect_hex_body : (ℕ → Bool) → Bytes → List Bytes → CliOptions → Round
expect_hex_body malloc hex argv options = elim (parse_hex_bytes malloc (some hex)) [
  | none ↦ stop (push_assertion (body_assertion none) options)
  | some bytes ↦
      if leb max_assertion (length options.owned_expected_body)
      then stop (push_assertion (body_assertion none) options)
      else next argv (push_owned bytes (push_assertion (body_assertion (some bytes)) options))
]

-- `strncmp(value, "hex:", 4) == 0`
abbrev pub is_hex : Bytes → Bool
is_hex value = bytes_eq (take 4 value) (codes "hex:")

unfoldable pub expect_body : (ℕ → Bool) → List Bytes → CliOptions → Round
unfolding expect_hex_body bytes_eq
expect_body malloc [] options = stop options
expect_body malloc (value ∷ argv) options =
    if full options
    then stop options
    else if is_hex value
    then expect_hex_body malloc (drop 4 value) argv options
    else next argv (push_assertion (body_assertion (some value)) options)

unfoldable pub expect_header : List Bytes → CliOptions → Round
expect_header (key ∷ value ∷ argv) options =
    if full options
    then stop options
    else next argv (
        push_assertion
          (record {
            type = Assertion.header_contains;
            expected = header_value (some key) (some value);
          })
          options)
expect_header _ options = stop options

unfoldable pub read_option : (ℕ → Bool) → Bytes → List Bytes → CliOptions → Round
unfolding expect_status expect_body expect_header bytes_eq
read_option malloc word argv options =
    if bytes_eq word (codes "--expect-status")
    then expect_status argv options
    else if bytes_eq word (codes "--expect-body")
    then expect_body malloc argv options
    else if bytes_eq word (codes "--expect-header")
    then expect_header argv options
    else stop options

-- The loop from `argv + i` on; `none` is the end of the fuel.
unfoldable pub options_loop : (ℕ → Bool) → ℕ → List Bytes → CliOptions → Option (ℤ × CliOptions)
options_loop malloc zero argv options = none
options_loop malloc (suc fuel) [] options = some (pos 0, options)
options_loop malloc (suc fuel) (word ∷ argv) options = elim (read_option malloc word argv options) [
  | stop options' ↦ some (negsuc 0, options')
  | next argv' options' ↦ options_loop malloc fuel argv' options'
]

-- A round reads at least one word. `argc` is the length of `argv`, and `options` is not NULL.
unfoldable pub parse_cli_options : (ℕ → Bool) → List Bytes → CliOptions → Option (ℤ × CliOptions)
parse_cli_options malloc (program ∷ command ∷ url ∷ argv) options =
    options_loop malloc (length argv + 1) argv
      (record options { command = some command; url = some url })
parse_cli_options malloc argv options = some (negsuc 0, options)
