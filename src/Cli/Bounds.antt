-- ===== src/Cli/Bounds.antt =====
-- parse_cli_options of src/cli/cli_parser.c returns, and stays within its arrays.
use http_runtime.Base.{
  ℕ, zero, suc, ◌+◌, ◌<◌, ◌≤◌, Bool, true, false, Option, none, some, List, [], ◌∷◌, ◌≡◌, refl, leb,
  if◌then◌else◌, length, length-append, drop, arith, Bytes, codes, bytes_eq, ℤ, pos, negsuc,
}
use http_runtime.Assertion.{Assertion}
use http_runtime.Cli.Hex.{parse_hex_bytes}
use http_runtime.Cli.Options.{
  CliOptions, Round, next, stop, full, max_assertion, push_assertion, push_owned, body_assertion,
  expect_status, expect_hex_body, expect_body, is_hex, expect_header, read_option, options_loop,
  parse_cli_options,
}

-- The counts are within the arrays, and each owned pattern belongs to an assertion.
abbrev pub Bounded : CliOptions → Type 0
Bounded o =
    (length o.assertions ≤ max_assertion) × (length o.owned_expected_body ≤ length o.assertions)

-- A round that goes on has fewer than `n` words before it.
abbrev RoundOk : ℕ → Round → Type 0
RoundOk n (next argv o) = (length argv < n) × Bounded o
RoundOk n (stop o) = Bounded o

RoundOk-if :
    (n : ℕ) (b : Bool) (x y : Round)
    → (b ≡ true → RoundOk n x)
    → (b ≡ false → RoundOk n y)
    → RoundOk n (if b then x else y)
RoundOk-if n true x y f g = f refl
RoundOk-if n false x y f g = g refl

push-Bounded :
    (a : Assertion) (o : CliOptions) → full o ≡ false → Bounded o → Bounded (push_assertion a o)
push-Bounded a o room h =
    let (h0, h1) = h in
    let e = length-append o.assertions (a ∷ []) in (ground (arith, e), omega (arith, e, h1))

push_owned-Bounded :
    (a : Assertion) (bs : Bytes) (o : CliOptions)
    → full o ≡ false
    → Bounded o
    → Bounded (push_owned bs (push_assertion a o))
push_owned-Bounded a bs o room h =
    let (h0, h1) = h in
    let e = length-append o.assertions (a ∷ []) in
    let f = length-append o.owned_expected_body (bs ∷ []) in
    (ground (arith, e), omega (arith, e, f, h1))

expect_status-RoundOk :
    (argv : List Bytes) (o : CliOptions)
    → Bounded o
    → RoundOk (suc (length argv)) (expect_status argv o)
unfolding expect_status
expect_status-RoundOk [] o h = h
expect_status-RoundOk (v ∷ argv) o h =
    RoundOk-if _ (full o) _ _ (λ e. h) (λ e. (omega arith, push-Bounded _ o e h))

expect_header-RoundOk :
    (argv : List Bytes) (o : CliOptions)
    → Bounded o
    → RoundOk (suc (length argv)) (expect_header argv o)
unfolding expect_header
expect_header-RoundOk [] o h = h
expect_header-RoundOk (k ∷ []) o h = h
expect_header-RoundOk (k ∷ v ∷ argv) o h =
    RoundOk-if _ (full o) _ _ (λ e. h) (λ e. (omega arith, push-Bounded _ o e h))

expect_hex_body-RoundOk :
    (malloc : ℕ → Bool) (hex : Bytes) (argv : List Bytes) (o : CliOptions) (n : ℕ)
    → length argv < n
    → full o ≡ false
    → Bounded o
    → RoundOk n (expect_hex_body malloc hex argv o)
unfolding expect_hex_body
expect_hex_body-RoundOk malloc hex argv o n k e h = read_pattern (parse_hex_bytes malloc (some hex))
  where
    read_pattern :
        (r : Option Bytes)
        → RoundOk n (elim r [
          | none ↦ stop (push_assertion (body_assertion none) o)
          | some bytes ↦
              if leb max_assertion (length o.owned_expected_body)
              then stop (push_assertion (body_assertion none) o)
              else next argv (push_owned bytes (push_assertion (body_assertion (some bytes)) o))
        ])
    read_pattern none = push-Bounded (body_assertion none) o e h
    read_pattern (some bs) =
        RoundOk-if n (leb max_assertion (length o.owned_expected_body)) _ _
          (λ _. push-Bounded (body_assertion none) o e h)
          (λ _. (k, push_owned-Bounded (body_assertion (some bs)) bs o e h))

expect_body-RoundOk :
    (malloc : ℕ → Bool) (argv : List Bytes) (o : CliOptions)
    → Bounded o
    → RoundOk (suc (length argv)) (expect_body malloc argv o)
unfolding expect_body
expect_body-RoundOk malloc [] o h = h
expect_body-RoundOk malloc (v ∷ argv) o h =
    RoundOk-if _ (full o) _ _ (λ e. h)
      (λ e.
        RoundOk-if _ (is_hex v) _ _
          (λ _. expect_hex_body-RoundOk malloc (drop 4 v) argv o _ (omega arith) e h)
          (λ _. (omega arith, push-Bounded _ o e h)))

read_option-RoundOk :
    (malloc : ℕ → Bool) (word : Bytes) (argv : List Bytes) (o : CliOptions)
    → Bounded o
    → RoundOk (suc (length argv)) (read_option malloc word argv o)
unfolding read_option
read_option-RoundOk malloc word argv o h =
    RoundOk-if _ (bytes_eq word (codes "--expect-status")) _ _ (λ _. expect_status-RoundOk argv o h)
      (λ _.
        RoundOk-if _ (bytes_eq word (codes "--expect-body")) _ _
          (λ _. expect_body-RoundOk malloc argv o h)
          (λ _.
            RoundOk-if _ (bytes_eq word (codes "--expect-header")) _ _
              (λ _. expect_header-RoundOk argv o h) (λ _. h)))

-- Returned, within the arrays
abbrev pub Returned : Option (ℤ × CliOptions) → Type 0
Returned r = (rc : ℤ) × (o : CliOptions) × (r ≡ some (rc, o)) × Bounded o

options_loop-Returned :
    (malloc : ℕ → Bool) (fuel : ℕ) (argv : List Bytes) (o : CliOptions)
    → length argv < fuel
    → Bounded o
    → Returned (options_loop malloc fuel argv o)
unfolding options_loop
options_loop-Returned malloc zero argv o k h = absurd (omega (arith, k))
options_loop-Returned malloc (suc fuel) [] o k h = (pos 0, o, refl, h)
options_loop-Returned malloc (suc fuel) (word ∷ argv) o k h =
    go_on (λ a p l b. options_loop-Returned malloc fuel a p l b) (read_option malloc word argv o)
      (read_option-RoundOk malloc word argv o h)
  where
    go_on :
        ((a : List Bytes) (p : CliOptions)
          → length a < fuel
          → Bounded p
          → Returned (options_loop malloc fuel a p))
        → (r : Round) → RoundOk (suc (length argv)) r
        → Returned (elim r [
          | stop o' ↦ some (negsuc 0, o')
          | next argv' o' ↦ options_loop malloc fuel argv' o'
        ])
    go_on f (stop o') ok = (negsuc 0, o', refl, ok)
    go_on f (next argv' o') ok = f argv' o' (let l = ok.0 in omega (arith, k, l)) ok.1

-- On every command line, with the counts of `options` within the arrays, `parse_cli_options`
-- returns and leaves them so, also when it refuses the command line: no index is out of range.
pub parse_cli_options-Returned :
    (malloc : ℕ → Bool) (argv : List Bytes) (o : CliOptions)
    → Bounded o
    → Returned (parse_cli_options malloc argv o)
unfolding parse_cli_options
parse_cli_options-Returned malloc [] o h = (negsuc 0, o, refl, h)
parse_cli_options-Returned malloc (a ∷ []) o h = (negsuc 0, o, refl, h)
parse_cli_options-Returned malloc (a ∷ b ∷ []) o h = (negsuc 0, o, refl, h)
parse_cli_options-Returned malloc (a ∷ b ∷ c ∷ argv) o h =
    options_loop-Returned malloc (length argv + 1) argv _ (omega arith) h
