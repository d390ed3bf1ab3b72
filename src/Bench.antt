-- ===== src/Bench.antt =====
-- tools/bench_run_plan_parallel.c, less the time it takes and prints.
pub mod Filled
use http_runtime.Base.{
  ℕ, zero, suc, ◌+◌, ◌-◌, ◌^◌, Bool, true, Option, none, some, List, [], ◌∷◌, ltb, if◌then◌else◌,
  length, Bytes, codes, int_eq, ℤ, pos, negsuc,
}
use http_runtime.Models
use http_runtime.Assertion.{int_value, Assertion, status_eq}
use http_runtime.RunPlan.{RequestCase, RunPlan, init_run_plan, max_request_cases}
use http_runtime.Engine.{Services, run_plan}
use http_runtime.Stdlib.{atoi}

-- `strdup`
abbrev pub strdup : (ℕ → Bool) → Bytes → Option Bytes
strdup malloc s = if malloc (length s + 1) then some s else none

-- What `memset` leaves of a case
abbrev pub zero_case : RequestCase
zero_case = record {
  method = Models.get;
  url = none;
  headers = none;
  body = none;
  body_len = 0;
  assertions = [];
  timeout_ms = pos 0;
}

-- A case with its URL, before its assertion is set
abbrev pub bare_case : Option Bytes → RequestCase
bare_case url = record zero_case { url = url; timeout_ms = pos 10000 }

abbrev pub bench_case : Bytes → RequestCase
bench_case url = record (bare_case (some url)) {
  assertions = record { type = status_eq; expected = int_value (pos 200) } ∷ [];
}

unfoldable pub copies : ℕ → RequestCase → List RequestCase
copies zero c = []
copies (suc n) c = c ∷ copies n c

abbrev pub put_before : RequestCase → Option (ℤ × List RequestCase) → Option (ℤ × List RequestCase)
put_before c none = none
put_before c (some (code, cases)) = some (code, c ∷ cases)

abbrev pub delay_url : Bytes
delay_url = codes "http://127.0.0.1:9090/delay"

module _ (malloc : ℕ → Bool) where
  -- The loop of `fill_plan` from the case `i` on; `none` is a write behind the array of the cases.
  unfoldable pub fill_cases : ℕ → ℕ → Option (ℤ × List RequestCase)
  fill_cases zero i = some (pos 0, [])
  fill_cases (suc left) i =
      let rest = fill_cases left (i + 1) in
      if ltb i max_request_cases
      then elim (strdup malloc delay_url) as (λ _. Option (ℤ × List RequestCase)) [
        | none ↦ some (negsuc 0, bare_case none ∷ copies left zero_case)
        | some url ↦ put_before (bench_case url) rest
      ]
      else none

  abbrev pub with_cases : RunPlan → Option (ℤ × List RequestCase) → Option (ℤ × RunPlan)
  with_cases plan none = none
  with_cases plan (some (code, cases)) = some (code, record plan { cases = cases })

  abbrev pub bench_fields : ℕ → Option Bytes → Option Bytes → RunPlan
  bench_fields worker_count db_path collection_name = record init_run_plan {
    worker_count = worker_count;
    default_timeout_ms = pos 10000;
    save_history = true;
    db_path = db_path;
    collection_name = collection_name;
  }

  -- Behind the two names; the cases are counted before these are tested.
  abbrev pub with_names : ℕ → ℕ → Option Bytes → Option Bytes → Option (ℤ × RunPlan)
  with_names request_count worker_count (some path) (some name) =
      with_cases (bench_fields worker_count (some path) (some name)) (fill_cases request_count 0)
  with_names request_count worker_count db_path collection_name = some (
    negsuc 0,
    record (bench_fields worker_count db_path collection_name) {
      cases = copies request_count zero_case;
    },
  )

  unfoldable pub fill_plan : ℕ → ℕ → Option (ℤ × RunPlan)
  fill_plan request_count worker_count =
      with_names request_count worker_count (strdup malloc (codes "bench_runner.db"))
        (strdup malloc (codes "BENCH"))

  module _ {W : Type 0} (services : Services W) where
    -- `free_run_plan` reads as many cases as are counted; `none` is a read behind the array.
    abbrev pub given_up : RunPlan → W → Option (ℤ × W)
    given_up plan w = if ltb max_request_cases (length plan.cases) then none else some (pos 1, w)

    abbrev pub run_filled : W → Option (ℤ × RunPlan) → Option (ℤ × W)
    run_filled w none = none
    run_filled w (some (code, plan)) =
        let e = run_plan services plan w in
        if int_eq code (pos 0) then some (e.result.exit_code, e.world) else given_up plan w

    unfoldable pub run_bench : ℕ → ℕ → W → Option (ℤ × W)
    run_bench request_count worker_count w = run_filled w (fill_plan request_count worker_count)

    -- An `int` as a `size_t`
    abbrev pub size_of_int : ℤ → ℕ
    size_of_int (pos n) = n
    size_of_int (negsuc n) = 2 ^ 64 - (n + 1)

    unfoldable pub main : List Bytes → W → Option (ℤ × W)
    main (program ∷ requests ∷ workers ∷ rest) w =
        elim (run_bench (size_of_int (atoi requests)) (size_of_int (atoi workers)) w)
          as (λ _. Option (ℤ × W)) [ none ↦ none | some ended ↦ some (pos 0, ended.1) ]
    main _ w = some (pos 0, w)
