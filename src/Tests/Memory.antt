-- ===== src/Tests/Memory.antt =====
-- The blocks of a plan, and of the command "get" with an allocator that takes the next address.
use http_runtime.Base.{
  ℕ, false, Option, none, some, List, [], ◌∷◌, ◌≡◌, refl, subst, inl, inr, Bool-cases, ltb, codes,
  arith, if◌then◌else◌,
}
use http_runtime.Assertion
use http_runtime.Assertion.{int_value, header_value}
use http_runtime.Cli.Options.{CliOptions}
use http_runtime.Memory.{
  Heap, PlanBlocks, no_plan, status_blocks, body_blocks, header_blocks, ResponseBlocks,
  free_run_plan, free_run_result,
}
use http_runtime.Memory.Frees.{
  Owned, Freed, plan_blocks, all_response_blocks, free_run_plan-Freed, free_run_result-Freed,
}
use http_runtime.Memory.Plan.{Malloc, get_command_blocks}
use http_runtime.Memory.Clean.{GivesFresh, get_command_blocks-Clean}

abbrev low : Heap
low = λ q. ltb q 10

abbrev plan : PlanBlocks
plan = record {
  cases =
      record {
        url = some 1;
        headers = none;
        body = some 2;
        assertions = status_blocks ∷ body_blocks (some 3) ∷ header_blocks (some 4) none ∷ [];
      }
      ∷ [];
  db_path = some 5;
  collection_name = some 6;
}

plan-Owned : Owned (plan_blocks plan) low
plan-Owned = ((refl, (refl, (refl, (refl, (refl, (refl, tt)))))), λ q m. ground arith)

free_run_plan-Freed_example :
    (h' : Heap) × (free_run_plan plan low ≡ some (no_plan, h'))
    × Freed (plan_blocks plan) low h'
    × (free_run_plan no_plan h' ≡ some (no_plan, h'))
free_run_plan-Freed_example = free_run_plan-Freed plan low plan-Owned

abbrev responses : List (Option ResponseBlocks)
responses =
    none ∷ some (record { self = 1; body = some 2; headers = some 3; content_type = none }) ∷ []

responses-Owned : Owned (all_response_blocks responses) low
responses-Owned = ((refl, (refl, (refl, tt))), λ q m. ground arith)

free_run_result-Freed_example :
    (h' : Heap) × (free_run_result responses low ≡ some ([], h'))
    × Freed (all_response_blocks responses) low h'
    × (free_run_result [] h' ≡ some ([], h'))
free_run_result-Freed_example = free_run_result-Freed responses low responses-Owned

abbrev first_free : List ℕ → Heap → Option ℕ
first_free [] h = none
first_free (p ∷ ps) h = let rest = first_free ps h in if h p then rest else some p

first_free-fresh : (ps : List ℕ) (h : Heap) (p : ℕ) → first_free ps h ≡ some p → h p ≡ false
first_free-fresh [] h p e = absurd (cc)
first_free-fresh (q ∷ ps) h p e = elim (Bool-cases (h q)) [
  | inl t ↦ first_free-fresh ps h p (rw t at e)
  | inr t ↦
      let f : some q ≡ some p = rw t at e in let g : q ≡ p = cc in subst (λ a. h a ≡ false) g t
]

abbrev first_fit : Malloc
first_fit size h = first_free (20 ∷ 21 ∷ 22 ∷ 23 ∷ []) h

first_fit-fresh : GivesFresh first_fit
first_fit-fresh size h p e = first_free-fresh (20 ∷ 21 ∷ 22 ∷ 23 ∷ []) h p e

abbrev options : CliOptions
options = record {
  command = some (codes "get");
  url = some (codes "localhost");
  assertions =
      record {
        type = Assertion.header_contains;
        expected = header_value (some (codes "Accept")) (some (codes "text/plain"));
      }
      ∷ [];
  owned_expected_body = [];
}

get_command_blocks-Clean_example :
    (h' : Heap) × (get_command_blocks first_fit options low ≡ some (no_plan, h'))
    × ((q : ℕ) → h' q ≡ low q)
get_command_blocks-Clean_example = get_command_blocks-Clean first_fit first_fit-fresh options low
