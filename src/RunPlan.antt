-- ===== src/RunPlan.antt =====
-- include/core/run_plan.h and src/core/run_plan.c: the plan that both front ends build, and the
-- result of running it. An array with its count is the list of the entries that count.
use http_runtime.Base.{ℕ, suc, Bool, true, false, Option, none, List, [], Bytes, ℤ, pos}
use http_runtime.Models.{Method, Response}
use http_runtime.Assertion.{Assertion, AssertionResult}

abbrev pub max_request_cases : ℕ
max_request_cases = 128

abbrev pub max_case_assertions : ℕ
max_case_assertions = 32

pub record RequestCase : Type 0 where
  pub method : Method
  pub url : Option Bytes
  pub headers : Option Bytes
  pub body : Option Bytes
  pub body_len : ℕ
  pub assertions : List Assertion
  pub timeout_ms : ℤ

pub record RunPlan : Type 0 where
  pub cases : List RequestCase
  pub worker_count : ℕ
  pub save_history : Bool
  pub db_path : Option Bytes
  pub collection_name : Option Bytes
  pub default_timeout_ms : ℤ

pub record RequestCaseResult : Type 0 where
  pub response : Option Response
  pub assertion_results : List AssertionResult
  pub request_ok : Bool
  pub assertions_ok : Bool

pub record RunResult : Type 0 where
  pub case_results : List RequestCaseResult
  pub all_requests_ok : Bool
  pub all_assertions_ok : Bool
  pub exit_code : ℤ

-- `memset (plan, 0, sizeof (*plan))`
abbrev pub zero_plan : RunPlan
zero_plan = record {
  cases = [];
  worker_count = 0;
  save_history = false;
  db_path = none;
  collection_name = none;
  default_timeout_ms = pos 0;
}

abbrev pub init_run_plan : RunPlan
init_run_plan = record zero_plan {
  worker_count = 4;
  save_history = true;
  default_timeout_ms = pos 5000;
}

-- What is left of a plan whose memory is given back.
abbrev pub free_run_plan : RunPlan → RunPlan
free_run_plan plan = zero_plan

abbrev pub init_run_result : RunResult
init_run_result = record {
  case_results = [];
  all_requests_ok = false;
  all_assertions_ok = false;
  exit_code = pos 1;
}

abbrev pub zero_result : RunResult
zero_result = record init_run_result { exit_code = pos 0 }

abbrev pub free_run_result : RunResult → RunResult
free_run_result result = zero_result

-- `n > 0` on an `int`
abbrev pub is_positive : ℤ → Bool
is_positive (pos (suc n)) = true
is_positive _ = false
