-- ===== src/Memory/Clean.antt =====
-- `run_get_command` of src/cli/commands.c leaves the heap as it was.
use http_runtime.Base.{
  ℕ, ◌+◌, true, false, ◌||◌, Option, none, some, List, [], ◌∷◌, ◌++◌, ◌≡◌, refl, ap, sym, ◌∙◌,
  subst, ltb, ◌==◌, ==_iff, Bool-cases, Option-cases, inl, inr, length, Bytes, codes, arith,
  append_assoc, append-nil,
}
use http_runtime.Assertion.{
  Value, none_value, int_value, string_value, bool_value, double_value, byte_value, header_value,
  Assertion, AssertionType, status_eq, body_contains, header_contains,
}
use http_runtime.Cli.Options.{CliOptions}
use http_runtime.Memory.{AssertionBlocks, Heap, write, no_plan}
use http_runtime.Memory.Frees.{
  block, Owned, plan_blocks, case_blocks, all_assertion_blocks, assertion_blocks,
  free_run_plan-Freed,
}
use http_runtime.Memory.Grew.{Grew, Grew-none, Grew-after, Grew-before}
use http_runtime.RunPlan.{max_case_assertions}
use http_runtime.Memory.Plan.{
  Malloc, alloc, dup_string_block, dup_pattern_block, copy_as, copy_assertion_blocks, case_of,
  make_case_blocks, cli_options_to_plan_blocks, get_command_blocks, is_null, is_missing,
}

-- `malloc` never returns the address of a block that is in use.
abbrev pub GivesFresh : Malloc → Type 0
GivesFresh malloc = (size : ℕ) (h : Heap) (p : ℕ) → malloc size h ≡ some p → h p ≡ false

abbrev Gave : Malloc → Heap → Option ℕ × Heap → Type 0
Gave malloc h r = Grew h (block r.0) r.1

module _ (malloc : Malloc) (fresh : GivesFresh malloc) where
  alloc-Grew : (size : ℕ) (h : Heap) → Gave malloc h (alloc malloc size h)
  alloc-Grew size h = elim (Option-cases (malloc size h)) [
    | inl e ↦ rw (e, alloc) (Grew-none h)
    | inr (p, e) ↦ rw (e, alloc) (one p (fresh size h p e))
  ]
    where
      one : (p : ℕ) → h p ≡ false → Grew h (p ∷ []) (write h p true)
      one p f = record {
        distinct = (refl, tt);
        were_free = λ q m. elim (Bool-cases (q == p)) [
          | inl e ↦ subst (λ r. h r ≡ false) (sym ((==_iff q p).0 e)) f
          | inr e ↦ ground arith
        ];
        grown = λ q. ground arith;
      }

  dup_string_block-Grew :
      (s : Option Bytes) (h : Heap) → Gave malloc h (dup_string_block malloc s h)
  unfolding dup_string_block
  dup_string_block-Grew none h = Grew-none h
  dup_string_block-Grew (some s) h = alloc-Grew (length s + 1) h

  dup_pattern_block-Grew :
      (s : Option Bytes) (h : Heap) → Gave malloc h (dup_pattern_block malloc s h)
  unfolding dup_pattern_block
  dup_pattern_block-Grew none h = Grew-none h
  dup_pattern_block-Grew (some s) h = alloc-Grew (length s) h

  copy_as-Grew :
      (t : AssertionType) (v : Value) (h : Heap)
      → (let r = copy_as malloc t v h in Grew h (assertion_blocks r.0) r.1)
  copy_as-Grew status_eq v h = Grew-none h
  copy_as-Grew body_contains (byte_value pattern) h = dup_pattern_block-Grew pattern h
  copy_as-Grew body_contains none_value h = Grew-none h
  copy_as-Grew body_contains (int_value x) h = Grew-none h
  copy_as-Grew body_contains (string_value x) h = Grew-none h
  copy_as-Grew body_contains (bool_value x) h = Grew-none h
  copy_as-Grew body_contains (double_value x) h = Grew-none h
  copy_as-Grew body_contains (header_value x y) h = Grew-none h
  copy_as-Grew header_contains (header_value name value) h =
      Grew-after h _ _ _ _ (dup_string_block-Grew name h) (dup_string_block-Grew value _)
  copy_as-Grew header_contains none_value h = Grew-none h
  copy_as-Grew header_contains (int_value x) h = Grew-none h
  copy_as-Grew header_contains (string_value x) h = Grew-none h
  copy_as-Grew header_contains (bool_value x) h = Grew-none h
  copy_as-Grew header_contains (double_value x) h = Grew-none h
  copy_as-Grew header_contains (byte_value x) h = Grew-none h

  copy_assertion_blocks-Grew :
      (assertions : List Assertion) (h : Heap)
      → (let r = copy_assertion_blocks malloc assertions h in Grew h (all_assertion_blocks r.0) r.1)
  unfolding copy_assertion_blocks
  copy_assertion_blocks-Grew [] h = Grew-none h
  copy_assertion_blocks-Grew (a ∷ assertions) h =
      Grew-after h _ _ _ _ (copy_as-Grew a.type a.expected h)
        (copy_assertion_blocks-Grew assertions _)

  case_blocks-block :
      (url : Option ℕ) (assertions : List AssertionBlocks)
      → case_blocks (case_of malloc url assertions) ≡ block url ++ all_assertion_blocks assertions
  case_blocks-block none assertions = refl
  case_blocks-block (some p) assertions = refl

  make_case_blocks-Grew :
      (options : CliOptions) (h : Heap)
      → (let r = make_case_blocks malloc options h in Grew h (case_blocks r.1) r.2)
  unfolding make_case_blocks
  make_case_blocks-Grew options h =
      let url = dup_string_block malloc options.url h in
      let copies = copy_assertion_blocks malloc options.assertions url.1 in
      elim (Bool-cases
        (is_null malloc url.0 || ltb max_case_assertions (length options.assertions))) [
          | inl e ↦ rw e (
              subst (λ ps. Grew h ps url.1)
                (sym (case_blocks-block url.0 [] ∙ append-nil (block url.0)))
                (dup_string_block-Grew options.url h))
          | inr e ↦ rw e (
              subst (λ ps. Grew h ps copies.1) (sym (case_blocks-block url.0 copies.0))
                (Grew-after h _ _ _ _ (dup_string_block-Grew options.url h)
                  (copy_assertion_blocks-Grew options.assertions url.1)))
        ]

  regroup : (cs ds es : List ℕ) → cs ++ (ds ++ es) ≡ ((cs ++ []) ++ ds) ++ es
  regroup cs ds es = sym (append_assoc cs ds es) ∙ ap (λ xs. (xs ++ ds) ++ es) (sym (append-nil cs))

  options-Grew :
      (options : CliOptions) (h : Heap)
      → (let r = cli_options_to_plan_blocks malloc options h in Grew h (plan_blocks r.1) r.2)
  unfolding cli_options_to_plan_blocks
  options-Grew options h =
      let db = dup_string_block malloc (some (codes "runner.db")) h in
      let coll = dup_string_block malloc (some (codes "DEFAULT")) db.1 in
      let made = make_case_blocks malloc options coll.1 in
      let names =
        Grew-after h _ _ _ _ (dup_string_block-Grew (some (codes "runner.db")) h)
          (dup_string_block-Grew (some (codes "DEFAULT")) db.1) in
      elim (Bool-cases (is_missing malloc options.url)) [
        | inl e ↦ rw e (Grew-none h)
        | inr e ↦ elim (Bool-cases (is_null malloc db.0 || is_null malloc coll.0)) [
          | inl f ↦ rw e (rw f names)
          | inr f ↦ rw e (
              rw f (
                subst (λ ps. Grew h ps made.2)
                  (regroup (case_blocks made.1) (block db.0) (block coll.0))
                  (Grew-before h _ _ _ _ names (make_case_blocks-Grew options coll.1))))
        ]
      ]

  -- When `malloc` never returns a block that is in use, and whether it fails anywhere or not,
  -- making the plan of the command "get" and freeing it frees nothing twice, nothing that is not
  -- in use, and leaves the same blocks in use as before.
  pub get_command_blocks-Clean :
      (options : CliOptions) (h : Heap)
      → (h' : Heap) × (get_command_blocks malloc options h ≡ some (no_plan, h'))
        × ((q : ℕ) → h' q ≡ h q)
  unfolding get_command_blocks
  get_command_blocks-Clean options h =
      let r = cli_options_to_plan_blocks malloc options h in
      let g = options-Grew options h in
      let owned : Owned (plan_blocks r.1) r.2 =
        (g.distinct, λ q m. let e = g.grown q in ground arith) in
      let (h', e, f, again) = free_run_plan-Freed r.1 r.2 owned in
      (h', e, λ q. let a = f q in let b = g.grown q in let c = g.were_free q in ground arith)
