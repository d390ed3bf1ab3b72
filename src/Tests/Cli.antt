-- ===== src/Tests/Cli.antt =====
-- Command lines and byte patterns.
use http_runtime.Base.{
  true, false, none, some, [], ◌∷◌, ◌≡◌, refl, ap, length, arith, List, Bytes, codes, pos,
}
use http_runtime.Assertion.{Assertion}
use http_runtime.Cli.Hex.{parse_hex_bytes}
use http_runtime.Cli.Output.{print_hex, print_byte_value, is_printable_bytes}
use http_runtime.Cli.Options.{
  CliOptions, next, expect_body, push_owned, push_assertion, body_assertion, parse_cli_options,
}
use http_runtime.Cli.RoundTrip.{parse_hex_bytes-print_hex, expect_body-print_byte_value}
use http_runtime.Cli.Bounds.{Returned, parse_cli_options-Returned}
use http_runtime.Cli.Accepts.{
  says_none, says_status, says_header, status_assertion, header_assertion, parse_cli_options-Says,
}

-- `{0}`
abbrev no_options : CliOptions
no_options = record { command = none; url = none; assertions = []; owned_expected_body = [] }

abbrev image_magic : Bytes
image_magic = 0x89 ∷ b'P' ∷ []

magic_not_printable : is_printable_bytes (some image_magic) ≡ false
unfolding is_printable_bytes
magic_not_printable = refl

lower_case_digits :
    parse_hex_bytes (λ n. true) (some (codes "89504e")) ≡ some (0x89 ∷ 0x50 ∷ 0x4e ∷ [])
unfolding parse_hex_bytes
lower_case_digits = refl

parse_hex_bytes-print_hex_example :
    parse_hex_bytes (λ n. true) (some (print_hex image_magic)) ≡ some image_magic
parse_hex_bytes-print_hex_example =
    parse_hex_bytes-print_hex (λ n. true) image_magic (omega arith, (omega arith, tt))
      (λ e. let f : length image_magic ≡ 0 = ap length e in omega (arith, f)) refl

expect_body-print_byte_value_example :
    expect_body (λ n. true) (print_byte_value (some image_magic) ∷ []) no_options
    ≡ next []
        (push_owned image_magic (push_assertion (body_assertion (some image_magic)) no_options))
expect_body-print_byte_value_example =
    expect_body-print_byte_value (λ n. true) image_magic [] no_options
      (omega arith, (omega arith, tt)) magic_not_printable refl (omega arith) (omega arith)

abbrev words : List Bytes
words =
    codes "--expect-status"
    ∷ codes "200"
    ∷ codes "--expect-header"
    ∷ codes "server"
    ∷ codes "nginx"
    ∷ []

abbrev said : List Assertion
said = status_assertion (codes "200") ∷ header_assertion (codes "server") (codes "nginx") ∷ []

parse_cli_options-Returned_example :
    Returned (parse_cli_options (λ n. true) (codes "fman" ∷ codes "get" ∷ words) no_options)
parse_cli_options-Returned_example =
    parse_cli_options-Returned (λ n. true) (codes "fman" ∷ codes "get" ∷ words) no_options
      (omega arith, omega arith)

parse_cli_options-Says_example :
    parse_cli_options
      (λ n. true)
      (codes "fman" ∷ codes "get" ∷ codes "localhost" ∷ words)
      no_options
    ≡ some (
      pos 0,
      record {
        command = some (codes "get");
        url = some (codes "localhost");
        assertions = said;
        owned_expected_body = [];
      },
    )
parse_cli_options-Says_example =
    parse_cli_options-Says (λ n. true) (codes "fman") (codes "get") (codes "localhost") words said
      [] no_options (says_status _ _ _ _ (says_header _ _ _ _ _ says_none))
      (omega arith, omega arith)
