-- ===== src/Cli/Commands.antt =====
-- src/cli/commands.c and src/cli/main.c. What they print of a result is in Output/Checks.
use http_runtime.Base.{
  ℕ, ◌+◌, Bool, true, ◌||◌, Option, none, some, List, [], ◌∷◌, ltb, ◌==◌, if◌then◌else◌, length,
  map, Bytes, codes, bytes_eq, ℤ, pos, negsuc, int_eq,
}
use http_runtime.Models
use http_runtime.Assertion.{
  Value, byte_value, header_value, Assertion, AssertionType, body_contains, header_contains,
}
use http_runtime.RunPlan.{RequestCase, RunPlan, init_run_plan, zero_plan, max_case_assertions}
use http_runtime.Cli.Options.{CliOptions, parse_cli_options}
use http_runtime.Engine.{Services, run_plan}
use http_runtime.Dsl.Parser.{DslParseError}
use http_runtime.Dsl.Parser.Program.{
  DslParseResult, parse_ok, parse_error, io_error, Parsed, plain_error, dsl_parse_run_plan,
}

unfoldable pub dup_string : (ℕ → Bool) → Option Bytes → Option Bytes
dup_string malloc none = none
dup_string malloc (some s) = if malloc (length s + 1) then some s else none

-- The bytes of a pattern, copied.
abbrev pub dup_bytes : (ℕ → Bool) → Option Bytes → Option Bytes
dup_bytes malloc none = none
dup_bytes malloc (some data_bytes) = if malloc (length data_bytes) then some data_bytes else none

abbrev pub copied : (ℕ → Bool) → AssertionType → Value → Value
copied malloc body_contains (byte_value pattern) = byte_value (dup_bytes malloc pattern)
copied malloc header_contains (header_value name value) =
    header_value (dup_string malloc name) (dup_string malloc value)
copied malloc _ v = v

-- One round of the loop over the assertions. A copy for which there is no memory is NULL.
unfoldable pub copy_assertion : (ℕ → Bool) → Assertion → Assertion
unfolding dup_string
copy_assertion malloc a = record a { expected = copied malloc a.type a.expected }

-- The fields of the plan but for its case
abbrev pub default_plan : Option Bytes → Option Bytes → RunPlan
default_plan db_path collection_name = record init_run_plan {
  worker_count = 1;
  save_history = true;
  db_path = db_path;
  collection_name = collection_name;
  default_timeout_ms = pos 5000;
}

abbrev pub get_case : Option Bytes → List Assertion → RequestCase
get_case url assertions = record {
  method = Models.get;
  url = url;
  headers = none;
  body = none;
  body_len = 0;
  assertions = assertions;
  timeout_ms = pos 5000;
}

abbrev is_missing : Option Bytes → Bool
is_missing none = true
is_missing (some s) = length s == 0

-- The plan is also what is left when -1 is returned; a case without a URL counts no assertions.
unfoldable pub cli_options_to_run_plan : (ℕ → Bool) → CliOptions → RunPlan → ℤ × RunPlan
unfolding dup_string copy_assertion
cli_options_to_run_plan malloc options plan =
    let db_path = dup_string malloc (some (codes "runner.db")) in
    let collection_name = dup_string malloc (some (codes "DEFAULT")) in
    let made = default_plan db_path collection_name in
    let url = dup_string malloc options.url in
    let bare = record made { cases = get_case url [] ∷ [] } in
    let assertions = map (copy_assertion malloc) options.assertions in
    if is_missing options.url
    then (negsuc 0, plan)
    else if is_missing db_path || is_missing collection_name
    then (negsuc 0, made)
    else if is_missing url || ltb max_case_assertions (length options.assertions)
    then (negsuc 0, bare)
    else (pos 0, record made { cases = get_case url assertions ∷ [] })

-- What `fopen`, `ftell` and `fread` give of a file: its size, and the bytes read.
pub record File : Type 0 where
  pub size : ℤ
  pub bytes : Bytes

-- src/dsl/dsl.c
unfoldable pub read_file : (ℕ → Bool) → (Bytes → Option File) → Bytes → Option Bytes
read_file malloc fopen path = elim (fopen path) [
  | none ↦ none
  | some file ↦ elim file.size [
    | negsuc n ↦ none
    | pos size ↦ if malloc (size + 1) then some file.bytes else none
  ]
]

unfoldable pub dsl_parse_run_plan_file :
    (ℕ → Bool) → (Bytes → Option File) → Bytes → RunPlan → Option DslParseError → Option Parsed
unfolding read_file
dsl_parse_run_plan_file malloc fopen path plan error = elim (read_file malloc fopen path) [
  | none ↦ some (record {
    result = io_error;
    plan = plan;
    error = plain_error (codes "Failed to read DSL file.") error;
  })
  | some text ↦ dsl_parse_run_plan malloc (some text) plan error
]

abbrev pub result_code : DslParseResult → ℤ
result_code parse_ok = pos 0
result_code parse_error = pos 1
result_code io_error = pos 2

-- `run_run_command` leaves it unset; whatever is in it is not read before it is written.
abbrev pub zero_error : DslParseError
zero_error = record { message = []; line = 0; column = 0 }

-- `CliOptions options = {0};`
abbrev pub zero_options : CliOptions
zero_options = record { command = none; url = none; assertions = []; owned_expected_body = [] }

module _ {W : Type 0} (services : Services W) where
  abbrev run_made_plan : RunPlan → W → ℤ × W
  run_made_plan plan w = let e = run_plan services plan w in (e.result.exit_code, e.world)

  unfoldable pub run_get_command : (ℕ → Bool) → CliOptions → W → ℤ × W
  unfolding cli_options_to_run_plan
  run_get_command malloc options w =
      let r = cli_options_to_run_plan malloc options init_run_plan in
      if int_eq r.0 (pos 0) then run_made_plan r.1 w else (pos 1, w)

  -- `none` means that the parser has a fault, as in `dsl_parse_run_plan`.
  unfoldable pub run_run_command : (ℕ → Bool) → (Bytes → Option File) → Bytes → W → Option (ℤ × W)
  unfolding dsl_parse_run_plan_file
  run_run_command malloc fopen path w =
      elim (dsl_parse_run_plan_file malloc fopen path zero_plan (some zero_error)) [
        | none ↦ none
        | some parsed ↦ elim parsed.result [
          | parse_ok ↦ some (run_made_plan parsed.plan w)
          | _ ↦ some (result_code parsed.result, w)
        ]
      ]

  abbrev or_null : Option Bytes → Bytes
  or_null none = []
  or_null (some s) = s

  -- `main` sets the URL together with the command.
  unfoldable pub run_command : (ℕ → Bool) → (Bytes → Option File) → CliOptions → W → Option (ℤ × W)
  unfolding run_get_command run_run_command bytes_eq
  run_command malloc fopen options w = elim options.command [
    | none ↦ some (pos 1, w)
    | some command ↦
        if bytes_eq (codes "get") command
        then some (run_get_command malloc options w)
        else if bytes_eq (codes "post") command
        then some (pos 0, w)
        else if bytes_eq (codes "run") command
        then run_run_command malloc fopen (or_null options.url) w
        else some (pos 1, w)
  ]

  unfoldable pub main : (ℕ → Bool) → (Bytes → Option File) → List Bytes → W → Option (ℤ × W)
  unfolding run_command
  main malloc fopen argv w =
      if ltb (length argv) 3
      then some (negsuc 0, w)
      else elim (parse_cli_options malloc argv zero_options) [
        | none ↦ none
        | some (code, options) ↦
            if int_eq code (negsuc 0) then some (code, w) else run_command malloc fopen options w
      ]
