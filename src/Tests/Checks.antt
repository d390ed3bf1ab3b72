-- ===== src/Tests/Checks.antt =====
-- The assertion checks on a small response.
use http_runtime.Base.{true, false, ◌≡◌, ◌↔◌, refl, codes, some, pos}
use http_runtime.Models.{Response, empty_response}
use http_runtime.Assertion
use http_runtime.Assertion.{Assertion, byte_value, header_value, int_value, find_bytes}
use http_runtime.Assertion.Search.{Occurs, find_bytes_iff}
use http_runtime.Assertion.Header
use http_runtime.Assertion.Header.Lines.{Contains, header_contains_iff}
use http_runtime.Assertion.Eval.{eval_assertion}
use http_runtime.Assertion.Eval.Holds.{Holds, eval_assertion_iff}

abbrev page : Response
page = record empty_response {
  status_code = pos 200;
  headers = some (codes "HTTP/1.1 200 OK\r\ncontent-type : text/html \r\n");
  body = some (codes "Example Domain");
  body_len = 14;
}

abbrev wants_html : Assertion
wants_html = record {
  type = Assertion.header_contains;
  expected = header_value (some (codes "Content-Type")) (some (codes "text/html"));
}

html_passes : (eval_assertion (some page) (some wants_html)).passed ≡ true
unfolding eval_assertion
html_passes = refl

status_fails :
    (eval_assertion
      (some page)
      (some (record { type = Assertion.status_eq; expected = int_value (pos 404) }))).passed
    ≡ false
unfolding eval_assertion
status_fails = refl

eval_assertion_iff_example :
    ((eval_assertion (some page) (some wants_html)).passed ≡ true) ↔ Holds wants_html page
eval_assertion_iff_example = eval_assertion_iff page wants_html

find_bytes_iff_example :
    (find_bytes (codes "Example Domain") (codes "Dom") ≡ true)
    ↔ Occurs (codes "Dom") (codes "Example Domain")
find_bytes_iff_example = find_bytes_iff (codes "Example Domain") (codes "Dom")

header_contains_iff_example :
    (Header.header_contains (some (codes "a: b\nc:d")) (some (codes "C")) (some (codes "d")) ≡ true)
    ↔ Contains (codes "C") (codes "d") (codes "a: b\nc:d")
header_contains_iff_example =
    header_contains_iff (codes "a: b\nc:d") (codes "C") (codes "d")
      (refl, (refl, (refl, (refl, (refl, (refl, (refl, (refl, tt))))))))
