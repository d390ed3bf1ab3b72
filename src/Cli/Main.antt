-- ===== src/Cli/Main.antt =====
-- The exit code of src/cli/main.c.
use http_runtime.Base.{
  ℕ, ◌+◌, ◌≤◌, Bool, true, Option, none, some, List, [], ◌∷◌, ◌≡◌, ◌≢◌, ◌↔◌, refl, ap, ◌∙◌, length,
  map, Bytes, codes, bytes_eq, ℤ, pos, arith,
}
use http_runtime.Assertion.{
  Value, none_value, int_value, string_value, bool_value, double_value, byte_value, header_value,
  Assertion, AssertionType, status_eq, body_contains, header_contains,
}
use http_runtime.RunPlan.{RunPlan, init_run_plan, max_case_assertions}
use http_runtime.Cli.Options.{CliOptions, parse_cli_options}
use http_runtime.Cli.Accepts.{Says, with_all, parse_cli_options-Says}
use http_runtime.Cli.Commands.{
  dup_string, dup_bytes, copied, copy_assertion, default_plan, get_case, cli_options_to_run_plan,
  File, run_get_command, run_command, zero_options, main,
}
use http_runtime.Engine.{Services, run_plan}
use http_runtime.Engine.Verdict.{AllPass, run_plan_iff}

-- `malloc` always has a block.
abbrev pub Ample : (ℕ → Bool) → Type 0
Ample malloc = (n : ℕ) → malloc n ≡ true

module _ (malloc : ℕ → Bool) (ample : Ample malloc) where
  dup_string-all : (s : Option Bytes) → dup_string malloc s ≡ s
  unfolding dup_string
  dup_string-all none = refl
  dup_string-all (some s) = let e = ample (length s + 1) in ground arith

  dup_bytes-all : (s : Option Bytes) → dup_bytes malloc s ≡ s
  dup_bytes-all none = refl
  dup_bytes-all (some s) = let e = ample (length s) in ground arith

  copied-all : (t : AssertionType) (v : Value) → copied malloc t v ≡ v
  copied-all body_contains (byte_value pattern) = ap byte_value (dup_bytes-all pattern)
  copied-all header_contains (header_value name value) =
      ap (λ n. header_value n (dup_string malloc value)) (dup_string-all name)
      ∙ ap (header_value name) (dup_string-all value)
  copied-all status_eq v = refl
  copied-all body_contains none_value = refl
  copied-all body_contains (int_value x) = refl
  copied-all body_contains (string_value x) = refl
  copied-all body_contains (bool_value x) = refl
  copied-all body_contains (double_value x) = refl
  copied-all body_contains (header_value x y) = refl
  copied-all header_contains none_value = refl
  copied-all header_contains (int_value x) = refl
  copied-all header_contains (string_value x) = refl
  copied-all header_contains (bool_value x) = refl
  copied-all header_contains (double_value x) = refl
  copied-all header_contains (byte_value x) = refl

  copy_assertion-all : (a : Assertion) → copy_assertion malloc a ≡ a
  unfolding copy_assertion
  copy_assertion-all a = ap (λ v. record a { expected = v }) (copied-all a.type a.expected)

  map-copy : (list : List Assertion) → map (copy_assertion malloc) list ≡ list
  map-copy [] = refl
  map-copy (a ∷ list) =
      ap (λ x. x ∷ map (copy_assertion malloc) list) (copy_assertion-all a)
      ∙ ap (λ x. a ∷ x) (map-copy list)

length-zero : (s : Bytes) → length s ≡ 0 → s ≡ []
length-zero [] e = refl
length-zero (c ∷ s) e = absurd (omega (arith, e))

-- The plan of a GET of `url`
abbrev pub get_plan : Bytes → List Assertion → RunPlan
get_plan url list = record (default_plan (some (codes "runner.db")) (some (codes "DEFAULT"))) {
  cases = get_case (some url) list ∷ [];
}

options-plan :
    (malloc : ℕ → Bool) (url : Bytes) (options : CliOptions) (plan : RunPlan)
    → Ample malloc
    → url ≢ []
    → options.url ≡ some url
    → length options.assertions ≤ max_case_assertions
    → cli_options_to_run_plan malloc options plan ≡ (pos 0, get_plan url options.assertions)
unfolding cli_options_to_run_plan
options-plan malloc url options plan ample ne e l =
    let a = ample 10 in
    let b = ample 8 in
    let c = dup_string-all malloc ample options.url in
    let d = map-copy malloc ample options.assertions in
    let f : length url ≢ 0 = λ g. ne (length-zero url g) in ground arith

module _ {W : Type 0} (services : Services W) (malloc : ℕ → Bool)
    (fopen : Bytes → Option File) where
  main_parsed :
      (program command url : Bytes) (argv : List Bytes) (options : CliOptions) (w : W)
      → parse_cli_options malloc (program ∷ command ∷ url ∷ argv) zero_options
        ≡ some (pos 0, options)
      → main services malloc fopen (program ∷ command ∷ url ∷ argv) w
        ≡ run_command services malloc fopen options w
  unfolding main
  main_parsed program command url argv options w e = ground arith

  run_get_command_made :
      (options : CliOptions) (plan : RunPlan) (w : W)
      → cli_options_to_run_plan malloc options init_run_plan ≡ (pos 0, plan)
      → run_get_command services malloc options w
        ≡ (let e = run_plan services plan w in (e.result.exit_code, e.world))
  unfolding run_get_command
  run_get_command_made options plan w e = ground arith

  abbrev got : Bytes → List Assertion → List Bytes → CliOptions
  got url list own =
      with_all list own (record zero_options { command = some (codes "get"); url = some url })

  run_command_get :
      (url : Bytes) (list : List Assertion) (own : List Bytes) (w : W)
      → run_command services malloc fopen (got url list own) w
        ≡ some (run_get_command services malloc (got url list own) w)
  unfolding run_command bytes_eq
  run_command_get url list own w = refl

  -- When memory does not run out before the run, the URL is not empty, and the words behind it
  -- say the assertions `list`, at most 16 of them with at most 16 patterns in hexadecimal: `main`
  -- with the command "get" runs the plan of this one request, and its exit code is 0 exactly when
  -- the run leaves a response of which every assertion of `list` holds, whatever the database and
  -- the runtime do.
  pub main-AllPass :
      (program url : Bytes) (argv : List Bytes) (list : List Assertion) (own : List Bytes) (w : W)
      → Ample malloc
      → url ≢ []
      → Says malloc argv list own
      → length list ≤ 16
      → length own ≤ 16
      → (code : ℤ) × (w' : W) × (main services malloc fopen (program ∷ codes "get" ∷ url ∷ argv) w
          ≡ some (code, w'))
        × ((code ≡ pos 0)
            ↔ AllPass
                (get_case (some url) list ∷ [])
                (run_plan services (get_plan url list) w).result.case_results)
  main-AllPass program url argv list own w ample ne says l k =
      let e = run_plan services (get_plan url list) w in
      let parsed =
        parse_cli_options-Says malloc program (codes "get") url argv list own zero_options says
          (omega (arith, l), omega (arith, k)) in
      let plan =
        options-plan malloc url (got url list own) init_run_plan ample ne refl (omega (arith, l)) in
      (
        e.result.exit_code,
        e.world,
        main_parsed program (codes "get") url argv (got url list own) w parsed
            ∙ run_command_get url list own w
            ∙ ap some (run_get_command_made (got url list own) (get_plan url list) w plan),
        run_plan_iff services (get_plan url list) w one_case (omega (arith, l), tt),
      )
    where
      one_case : {A : Type 0} {a : A} → a ∷ [] ≢ []
      one_case e = let f = ap length e in absurd (omega (arith, f))
