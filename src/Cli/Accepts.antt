-- ===== src/Cli/Accepts.antt =====
-- The command lines that parse_cli_options of src/cli/cli_parser.c accepts.
use http_runtime.Base.{
  ℕ, zero, suc, ◌+◌, ◌<◌, ◌≤◌, Bool, false, some, List, [], ◌∷◌, ◌++◌, ◌≡◌, refl, ap, sym, ◌∙◌, leb,
  length, length-append, arith, Bytes, codes, bytes_eq, pos, append_assoc, append-nil,
}
use http_runtime.Stdlib.{atoi}
use http_runtime.Assertion
use http_runtime.Assertion.{Assertion, int_value, byte_value, header_value}
use http_runtime.Cli.Hex.{parse_hex_bytes}
use http_runtime.Cli.Options.{
  CliOptions, next, full, max_assertion, push_assertion, push_owned, body_assertion, expect_status,
  expect_hex_body, expect_body, is_hex, expect_header, read_option, options_loop, parse_cli_options,
}

abbrev pub status_assertion : Bytes → Assertion
status_assertion value = record { type = Assertion.status_eq; expected = int_value (atoi value) }

abbrev pub header_assertion : Bytes → Bytes → Assertion
header_assertion key value = record {
  type = Assertion.header_contains;
  expected = header_value (some key) (some value);
}

-- The options `argv` say the assertions `list`, and the patterns `own` are read from hexadecimal.
pub data Says (malloc : ℕ → Bool) : List Bytes → List Assertion → List Bytes → Type 0 where
  says_none : Says malloc [] [] []
  says_status :
      (value : Bytes) (argv : List Bytes) (list : List Assertion) (own : List Bytes)
      → Says malloc argv list own
      → Says malloc (codes "--expect-status" ∷ value ∷ argv) (status_assertion value ∷ list) own
  says_body :
      (value : Bytes) (argv : List Bytes) (list : List Assertion) (own : List Bytes)
      → is_hex value ≡ false
      → Says malloc argv list own
      → Says malloc (codes "--expect-body" ∷ value ∷ argv) (body_assertion (some value) ∷ list) own
  says_hex_body :
      (hex bytes : Bytes) (argv : List Bytes) (list : List Assertion) (own : List Bytes)
      → parse_hex_bytes malloc (some hex) ≡ some bytes
      → Says malloc argv list own
      → Says malloc
          (codes "--expect-body" ∷ (codes "hex:" ++ hex) ∷ argv)
          (body_assertion (some bytes) ∷ list)
          (bytes ∷ own)
  says_header :
      (key value : Bytes) (argv : List Bytes) (list : List Assertion) (own : List Bytes)
      → Says malloc argv list own
      → Says malloc
          (codes "--expect-header" ∷ key ∷ value ∷ argv)
          (header_assertion key value ∷ list)
          own

abbrev pub with_all : List Assertion → List Bytes → CliOptions → CliOptions
with_all list own o = record o {
  assertions = o.assertions ++ list;
  owned_expected_body = o.owned_expected_body ++ own;
}

-- There is room for the assertions, and for the patterns.
abbrev pub Room : List Assertion → List Bytes → CliOptions → Type 0
Room list own o =
    (length o.assertions + length list ≤ max_assertion)
    × (length o.owned_expected_body + length own ≤ max_assertion)

not_full :
    (a : Assertion) (list : List Assertion) (own : List Bytes) (o : CliOptions)
    → Room (a ∷ list) own o
    → full o ≡ false
not_full a list own o r = let k = r.0 in ground arith

Room-push :
    (a : Assertion) (list : List Assertion) (own : List Bytes) (o : CliOptions)
    → Room (a ∷ list) own o
    → Room list own (push_assertion a o)
Room-push a list own o r =
    let (k, l) = r in (omega (arith, k, length-append o.assertions (a ∷ [])), l)

Room-push_owned :
    (a : Assertion) (list : List Assertion) (b : Bytes) (own : List Bytes) (o : CliOptions)
    → Room (a ∷ list) (b ∷ own) o
    → Room list own (push_owned b (push_assertion a o))
Room-push_owned a list b own o r =
    let (k, l) = r in
    (
      omega (arith, k, length-append o.assertions (a ∷ [])),
      omega (arith, l, length-append o.owned_expected_body (b ∷ [])),
    )

read_status :
    (malloc : ℕ → Bool) (value : Bytes) (argv : List Bytes) (o : CliOptions)
    → full o ≡ false
    → read_option malloc (codes "--expect-status") (value ∷ argv) o
      ≡ next argv (push_assertion (status_assertion value) o)
unfolding read_option expect_status bytes_eq
read_status malloc value argv o e = rw e refl

read_header :
    (malloc : ℕ → Bool) (key value : Bytes) (argv : List Bytes) (o : CliOptions)
    → full o ≡ false
    → read_option malloc (codes "--expect-header") (key ∷ value ∷ argv) o
      ≡ next argv (push_assertion (header_assertion key value) o)
unfolding read_option expect_header bytes_eq
read_header malloc key value argv o e = rw e refl

read_body :
    (malloc : ℕ → Bool) (value : Bytes) (argv : List Bytes) (o : CliOptions)
    → full o ≡ false
    → is_hex value ≡ false
    → read_option malloc (codes "--expect-body") (value ∷ argv) o
      ≡ next argv (push_assertion (body_assertion (some value)) o)
unfolding read_option expect_body bytes_eq
read_body malloc value argv o e f = ground arith

read_hex_body :
    (malloc : ℕ → Bool) (hex bytes : Bytes) (argv : List Bytes) (o : CliOptions)
    → full o ≡ false
    → leb max_assertion (length o.owned_expected_body) ≡ false
    → parse_hex_bytes malloc (some hex) ≡ some bytes
    → read_option malloc (codes "--expect-body") ((codes "hex:" ++ hex) ∷ argv) o
      ≡ next argv (push_owned bytes (push_assertion (body_assertion (some bytes)) o))
unfolding read_option expect_body expect_hex_body bytes_eq
read_hex_body malloc hex bytes argv o e f g = ground arith

with_all_nil : (o : CliOptions) → o ≡ with_all [] [] o
with_all_nil o =
    ap (λ xs. record o { assertions = xs }) (sym (append-nil o.assertions))
    ∙ ap (λ ys. record o { assertions = o.assertions ++ []; owned_expected_body = ys })
        (sym (append-nil o.owned_expected_body))

with_all-push :
    (a : Assertion) (list : List Assertion) (own : List Bytes) (o : CliOptions)
    → with_all list own (push_assertion a o) ≡ with_all (a ∷ list) own o
with_all-push a list own o =
    ap (λ xs. record o { assertions = xs; owned_expected_body = o.owned_expected_body ++ own })
      (append_assoc o.assertions (a ∷ []) list)

with_all-push_owned :
    (a : Assertion) (list : List Assertion) (b : Bytes) (own : List Bytes) (o : CliOptions)
    → with_all list own (push_owned b (push_assertion a o)) ≡ with_all (a ∷ list) (b ∷ own) o
with_all-push_owned a list b own o =
    ap (λ xs. record o { assertions = (o.assertions ++ a ∷ []) ++ list; owned_expected_body = xs })
      (append_assoc o.owned_expected_body (b ∷ []) own)
    ∙ with_all-push a list (b ∷ own) o

options_loop_step :
    (malloc : ℕ → Bool) (fuel : ℕ) (word : Bytes) (argv argv' : List Bytes) (o o' p q : CliOptions)
    → read_option malloc word argv o ≡ next argv' o'
    → options_loop malloc fuel argv' o' ≡ some (pos 0, p)
    → p ≡ q
    → options_loop malloc (suc fuel) (word ∷ argv) o ≡ some (pos 0, q)
unfolding options_loop
options_loop_step malloc fuel word argv argv' o o' p q e f g = ground arith

options_loop-Says :
    (malloc : ℕ → Bool) (fuel : ℕ) (argv : List Bytes) (list : List Assertion) (own : List Bytes)
    (o : CliOptions)
    → length argv < fuel
    → Says malloc argv list own
    → Room list own o
    → options_loop malloc fuel argv o ≡ some (pos 0, with_all list own o)
unfolding options_loop
options_loop-Says malloc zero argv list own o k s r = absurd (omega (arith, k))
options_loop-Says malloc (suc fuel) _ _ _ o k says_none r =
    ap (λ p. some (pos 0, p)) (with_all_nil o)
options_loop-Says malloc (suc fuel) _ _ _ o k (says_status value argv list own s) r =
    let a = status_assertion value in
    options_loop_step malloc fuel _ _ _ _ _ _ _
      (read_status malloc value argv o (not_full a list own o r))
      (options_loop-Says malloc fuel argv list own (push_assertion a o) (omega (arith, k)) s
        (Room-push a list own o r))
      (with_all-push a list own o)
options_loop-Says malloc (suc fuel) _ _ _ o k (says_header key value argv list own s) r =
    let a = header_assertion key value in
    options_loop_step malloc fuel _ _ _ _ _ _ _
      (read_header malloc key value argv o (not_full a list own o r))
      (options_loop-Says malloc fuel argv list own (push_assertion a o) (omega (arith, k)) s
        (Room-push a list own o r))
      (with_all-push a list own o)
options_loop-Says malloc (suc fuel) _ _ _ o k (says_body value argv list own e s) r =
    let a = body_assertion (some value) in
    options_loop_step malloc fuel _ _ _ _ _ _ _
      (read_body malloc value argv o (not_full a list own o r) e)
      (options_loop-Says malloc fuel argv list own (push_assertion a o) (omega (arith, k)) s
        (Room-push a list own o r))
      (with_all-push a list own o)
options_loop-Says malloc (suc fuel) _ _ _ o k (says_hex_body hex bytes argv list own e s) r =
    let a = body_assertion (some bytes) in
    let owned : leb max_assertion (length o.owned_expected_body) ≡ false =
      let l = r.1 in ground arith in
    options_loop_step malloc fuel _ _ _ _ _ _ _
      (read_hex_body malloc hex bytes argv o (not_full a list (bytes ∷ own) o r) owned e)
      (options_loop-Says malloc fuel argv list own (push_owned bytes (push_assertion a o))
        (omega (arith, k)) s (Room-push_owned a list bytes own o r))
      (with_all-push_owned a list bytes own o)

-- When the words behind the URL say the assertions `list`, with the patterns `own` read from
-- hexadecimal, and the arrays have room for them, `parse_cli_options` returns 0 and appends
-- exactly these to `options`, with the command and the URL set.
pub parse_cli_options-Says :
    (malloc : ℕ → Bool) (program command url : Bytes) (argv : List Bytes) (list : List Assertion)
    (own : List Bytes) (o : CliOptions)
    → Says malloc argv list own
    → Room list own o
    → parse_cli_options malloc (program ∷ command ∷ url ∷ argv) o
      ≡ some (pos 0, with_all list own (record o { command = some command; url = some url }))
unfolding parse_cli_options
parse_cli_options-Says malloc program command url argv list own o s r =
    options_loop-Says malloc (length argv + 1) argv list own
      (record o { command = some command; url = some url }) (omega arith) s r
