-- ===== src/Memory/Plan.antt =====
-- src/cli/commands.c: the blocks of the plan that is made from the options.
use http_runtime.Base.{
  ℕ, ◌+◌, Bool, true, false, ◌||◌, Option, none, some, List, [], ◌∷◌, ltb, ◌==◌, if◌then◌else◌,
  length, Bytes, codes, ℤ, pos, negsuc,
}
use http_runtime.Assertion.{
  Value, byte_value, header_value, Assertion, AssertionType, body_contains, header_contains,
}
use http_runtime.RunPlan.{max_case_assertions}
use http_runtime.Cli.Options.{CliOptions}
use http_runtime.Memory.{
  Heap, write, AssertionBlocks, status_blocks, body_blocks, header_blocks, CaseBlocks, PlanBlocks,
  no_plan, free_run_plan,
}

-- The address of a block of a size, or NULL
abbrev pub Malloc : Type 0
Malloc = ℕ → Heap → Option ℕ

module _ (malloc : Malloc) where
  abbrev pub alloc : ℕ → Heap → Option ℕ × Heap
  alloc size h = elim (malloc size h) [ none ↦ (none, h) | some p ↦ (some p, write h p true) ]

  unfoldable pub dup_string_block : Option Bytes → Heap → Option ℕ × Heap
  dup_string_block none h = (none, h)
  dup_string_block (some s) h = alloc (length s + 1) h

  -- `malloc(data_len)`, for a pattern that is not NULL
  unfoldable pub dup_pattern_block : Option Bytes → Heap → Option ℕ × Heap
  dup_pattern_block none h = (none, h)
  dup_pattern_block (some pattern) h = alloc (length pattern) h

  abbrev pub copy_as : AssertionType → Value → Heap → AssertionBlocks × Heap
  copy_as body_contains (byte_value pattern) h =
      let r = dup_pattern_block pattern h in (body_blocks r.0, r.1)
  copy_as header_contains (header_value name value) h =
      let r = dup_string_block name h in
      let t = dup_string_block value r.1 in (header_blocks r.0 t.0, t.1)
  copy_as _ _ h = (status_blocks, h)

  unfoldable pub copy_assertion_blocks : List Assertion → Heap → List AssertionBlocks × Heap
  unfolding dup_string_block dup_pattern_block
  copy_assertion_blocks [] h = ([], h)
  copy_assertion_blocks (a ∷ assertions) h =
      let r = copy_as a.type a.expected h in
      let t = copy_assertion_blocks assertions r.1 in (r.0 ∷ t.0, t.1)

  abbrev pub case_of : Option ℕ → List AssertionBlocks → CaseBlocks
  case_of url assertions = record {
    url = url;
    headers = none;
    body = none;
    assertions = assertions;
  }

  abbrev pub is_null : Option ℕ → Bool
  is_null none = true
  is_null (some p) = false

  abbrev pub is_missing : Option Bytes → Bool
  is_missing none = true
  is_missing (some s) = length s == 0

  abbrev pub plan_of : Option ℕ → Option ℕ → List CaseBlocks → PlanBlocks
  plan_of db_path collection_name cases = record {
    cases = cases;
    db_path = db_path;
    collection_name = collection_name;
  }

  -- The way behind the two names: the case is counted before its URL is copied.
  unfoldable pub make_case_blocks : CliOptions → Heap → ℤ × CaseBlocks × Heap
  unfolding dup_string_block copy_assertion_blocks
  make_case_blocks options h =
      let url = dup_string_block options.url h in
      let copies = copy_assertion_blocks options.assertions url.1 in
      if is_null url.0 || ltb max_case_assertions (length options.assertions)
      then (negsuc 0, case_of url.0 [], url.1)
      else (pos 0, case_of url.0 copies.0, copies.1)

  -- The code returned, the plan as it is left, and the heap
  unfoldable pub cli_options_to_plan_blocks : CliOptions → Heap → ℤ × PlanBlocks × Heap
  unfolding dup_string_block make_case_blocks
  cli_options_to_plan_blocks options h =
      let db_path = dup_string_block (some (codes "runner.db")) h in
      let collection_name = dup_string_block (some (codes "DEFAULT")) db_path.1 in
      let made = make_case_blocks options collection_name.1 in
      if is_missing options.url
      then (negsuc 0, no_plan, h)
      else if is_null db_path.0 || is_null collection_name.0
      then (negsuc 0, plan_of db_path.0 collection_name.0 [], collection_name.1)
      else (made.0, plan_of db_path.0 collection_name.0 (made.1 ∷ []), made.2)

  -- `run_get_command`, but for the run, which leaves the plan alone.
  unfoldable pub get_command_blocks : CliOptions → Heap → Option (PlanBlocks × Heap)
  unfolding cli_options_to_plan_blocks free_run_plan
  get_command_blocks options h =
      let r = cli_options_to_plan_blocks options h in free_run_plan r.1 r.2
