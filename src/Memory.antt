-- ===== src/Memory.antt =====
-- The functions of src/core/models.c, src/core/run_plan.c and src/cli/cli_parser.c that give heap
-- blocks back. A block is its address; what the blocks hold is left out.
pub mod Frees
pub mod Grew
pub mod Plan
pub mod Clean
use http_runtime.Base.{
  ℕ, Bool, true, false, not, ◌&&◌, Option, none, some, List, [], ◌∷◌, ◌++◌, ◌==◌, if◌then◌else◌,
}

-- Which addresses are those of blocks in use
abbrev pub Heap : Type 0
Heap = ℕ → Bool

abbrev pub write : Heap → ℕ → Bool → Heap
write h p b = λ q. if q == p then b else h q

-- `free`; `none` is a block that is not in use, such as one that is freed again.
unfoldable pub free : Option ℕ → Heap → Option Heap
free none h = some h
free (some p) h = if h p then some (write h p false) else none

-- One free behind another
abbrev pub and_then : Option Heap → (Heap → Option Heap) → Option Heap
and_then none f = none
and_then (some h) f = f h

infixl 5 ◌then_free◌
abbrev pub ◌then_free◌ : Option Heap → Option ℕ → Option Heap
h then_free p = and_then h (free p)

-- The addresses of a Request and of what it points to
pub record RequestBlocks : Type 0 where
  pub self : ℕ
  pub url : Option ℕ
  pub headers : Option ℕ
  pub body : Option ℕ

pub record ResponseBlocks : Type 0 where
  pub self : ℕ
  pub body : Option ℕ
  pub headers : Option ℕ
  pub content_type : Option ℕ

pub record CollectionBlocks : Type 0 where
  pub self : ℕ
  pub name : Option ℕ

unfoldable pub free_request : Option RequestBlocks → Heap → Option Heap
unfolding free
free_request none h = some h
free_request (some req) h =
    free req.url h then_free req.headers then_free req.body then_free some req.self

unfoldable pub free_response : Option ResponseBlocks → Heap → Option Heap
unfolding free
free_response none h = some h
free_response (some resp) h =
    free resp.body h then_free resp.headers then_free resp.content_type then_free some resp.self

unfoldable pub free_collection : Option CollectionBlocks → Heap → Option Heap
unfolding free
free_collection none h = some h
free_collection (some coll) h = free coll.name h then_free some coll.self

-- An assertion of a plan, by its type
pub data AssertionBlocks : Type 0 where
  status_blocks : AssertionBlocks
  body_blocks : Option ℕ → AssertionBlocks
  header_blocks : Option ℕ → Option ℕ → AssertionBlocks

pub record CaseBlocks : Type 0 where
  pub url : Option ℕ
  pub headers : Option ℕ
  pub body : Option ℕ
  pub assertions : List AssertionBlocks

pub record PlanBlocks : Type 0 where
  pub cases : List CaseBlocks
  pub db_path : Option ℕ
  pub collection_name : Option ℕ

unfoldable pub free_assertion : AssertionBlocks → Heap → Option Heap
unfolding free
free_assertion status_blocks h = some h
free_assertion (body_blocks pattern) h = free pattern h
free_assertion (header_blocks name value) h = free name h then_free value

unfoldable pub free_assertions : List AssertionBlocks → Heap → Option Heap
unfolding free_assertion
free_assertions [] h = some h
free_assertions (a ∷ assertions) h = and_then (free_assertion a h) (free_assertions assertions)

unfoldable pub free_case : CaseBlocks → Heap → Option Heap
unfolding free free_assertions
free_case c h =
    and_then (free c.url h then_free c.headers then_free c.body) (free_assertions c.assertions)

unfoldable pub free_cases : List CaseBlocks → Heap → Option Heap
unfolding free_case
free_cases [] h = some h
free_cases (c ∷ cases) h = and_then (free_case c h) (free_cases cases)

abbrev pub no_plan : PlanBlocks
no_plan = record { cases = []; db_path = none; collection_name = none }

abbrev pub zeroed : {A : Type 0} → A → Option Heap → Option (A × Heap)
zeroed zero none = none
zeroed zero (some h) = some (zero, h)

-- The plan is zeroed in the end.
unfoldable pub free_run_plan : PlanBlocks → Heap → Option (PlanBlocks × Heap)
unfolding free_cases free
free_run_plan plan h =
    zeroed no_plan (free_cases plan.cases h then_free plan.db_path then_free plan.collection_name)

-- The responses of the results of a run
unfoldable pub free_responses : List (Option ResponseBlocks) → Heap → Option Heap
unfolding free_response
free_responses [] h = some h
free_responses (r ∷ responses) h = and_then (free_response r h) (free_responses responses)

unfoldable pub free_run_result :
    List (Option ResponseBlocks) → Heap → Option (List (Option ResponseBlocks) × Heap)
unfolding free_responses
free_run_result responses h = zeroed [] (free_responses responses h)

unfoldable pub free_cli_options : List (Option ℕ) → Heap → Option Heap
unfolding free
free_cli_options [] h = some h
free_cli_options (p ∷ owned_expected_body) h =
    and_then (free p h) (free_cli_options owned_expected_body)
