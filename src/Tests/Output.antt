-- ===== src/Tests/Output.antt =====
-- What is printed of numbers, of blocks, and of a case that fails.
use http_runtime.Base.{
  ◌≤◌, none, some, [], ◌∷◌, ◌++◌, ◌≡◌, ◌⊎◌, refl, length, take, map, arith, Bytes, codes, pos,
  negsuc,
}
use http_runtime.Models
use http_runtime.Models.{empty_response, Response}
use http_runtime.Assertion
use http_runtime.Assertion.{int_value}
use http_runtime.RunPlan.{RequestCase}
use http_runtime.Cli.Options.{CliOptions}
use http_runtime.Cli.Output.Decimal.{print_int, decimal}
use http_runtime.Cli.Output.Lines.{print_lines, print_line, lines, concat, print_lines-lines}
use http_runtime.Cli.Output.Summary.{preview, print_preview, truncated, print_preview-shown}

minus_one : print_int (negsuc 41) ≡ codes "-42"
unfolding print_int decimal
minus_one = refl

abbrev no_options : CliOptions
no_options = record { command = none; url = none; assertions = []; owned_expected_body = [] }

abbrev two_headers : Bytes
two_headers = codes "A: b\nC: d"

print_lines-lines_example :
    print_lines 10 two_headers ≡ some (concat (map print_line (lines two_headers)))
print_lines-lines_example = print_lines-lines two_headers

two_lines : print_lines 10 two_headers ≡ some (codes "      A: b\n      C: d\n")
unfolding print_lines
two_lines = refl

print_preview-shown_example :
    (shown : Bytes) × (hidden : Bytes) × (shown ++ hidden ≡ take 9 two_headers)
    × (length shown ≤ 4)
    × ((hidden ≡ []) ⊎ (length shown ≡ 4))
    × (print_preview (codes "Body") (some two_headers) 9 4
        ≡ preview (codes "Body") (length shown) 9 shown (truncated (length hidden)))
print_preview-shown_example =
    print_preview-shown (codes "Body") two_headers 9 4 (omega arith) (omega arith)

abbrev not_found : Response
not_found = record empty_response { status_code = pos 404 }

abbrev wants_ok : RequestCase
wants_ok = record {
  method = Models.get;
  url = some (codes "localhost");
  headers = none;
  body = none;
  body_len = 0;
  assertions = record { type = Assertion.status_eq; expected = int_value (pos 200) } ∷ [];
  timeout_ms = pos 100;
}
