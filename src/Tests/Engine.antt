-- ===== src/Tests/Engine.antt =====
-- A plan with one case, run on services that always succeed.
use http_runtime.Base.{
  ℕ, ◌+◌, true, false, some, none, [], ◌∷◌, ◌≡◌, ◌↔◌, refl, ap, length, arith, codes, pos,
}
use http_runtime.Models.{empty_response, Response}
use http_runtime.Models
use http_runtime.Assertion
use http_runtime.Assertion.{int_value}
use http_runtime.RunPlan.{RunPlan, init_run_plan}
use http_runtime.Assertion.Eval.{eval_assertion}
use http_runtime.Exec.{on_failure, ◌>>=◌, pure}
use http_runtime.Models.Create.{
  create_collection, create_request, create_http_worker_task, safe_copy_string, safe_copy_blob,
}
use http_runtime.Engine.{
  Services, run_plan, run_cases, unless, call, make_collection, save_made_collection, make_runtime,
  begin_results, dispatch_cases, dispatch_case, make_request, save_made_request, make_task,
  dispatch_made_task, collect,
}
use http_runtime.Engine.Verdict.{AllPass, run_plan_iff}
use http_runtime.Engine.Ownership.{Left, run_plan-Left}

abbrev found : Response
found = record empty_response { status_code = pos 200 }

-- The state counts the calls.
abbrev pub calm : Services ℕ
calm = record {
  db_init = λ name w. (pos 0, w + 1);
  save_collection = λ coll w. ((pos 0, coll), w + 1);
  save_request = λ req w. ((pos 0, record req { id = pos w }), w + 1);
  create_runtime = λ n w. (true, w + 1);
  dispatch = λ task w. (true, w + 1);
  wait_for_response = λ id timeout w. (some found, w + 1);
  destroy_runtime = λ w. w + 1;
  db_close = λ w. w + 1;
  malloc = λ w n. true;
}

abbrev pub one_case : RunPlan
one_case = record init_run_plan {
  cases =
      record {
        method = Models.get;
        url = some (codes "localhost");
        headers = none;
        body = none;
        body_len = 0;
        assertions = record { type = Assertion.status_eq; expected = int_value (pos 200) } ∷ [];
        timeout_ms = pos 100;
      }
      ∷ [];
}

one_case_passes : (run_plan calm one_case 0).result.exit_code ≡ pos 0
unfolding run_plan on_failure run_cases ◌>>=◌ unless pure call make_collection create_collection
    safe_copy_string safe_copy_blob save_made_collection make_runtime begin_results dispatch_cases
    dispatch_case make_request create_request save_made_request make_task create_http_worker_task
    dispatch_made_task collect eval_assertion
one_case_passes = refl

run_plan_iff_example :
    ((run_plan calm one_case 0).result.exit_code ≡ pos 0)
    ↔ AllPass one_case.cases (run_plan calm one_case 0).result.case_results
run_plan_iff_example =
    run_plan_iff calm one_case 0
      (λ e. let f : length one_case.cases ≡ 0 = ap length e in omega (arith, f)) (omega arith, tt)

run_plan-Left_example :
    ((run_plan calm one_case 0).crashed ≡ false) × Left calm (run_plan calm one_case 0).owned
run_plan-Left_example = run_plan-Left calm one_case 0 (λ w. refl)
