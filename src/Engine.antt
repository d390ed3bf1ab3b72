-- ===== src/Engine.antt =====
-- src/core/engine.c: running a plan. The database and the runtime are behind an interface.
pub mod Verdict
pub mod Ownership
use http_runtime.Base.{
  ℕ, zero, suc, ◌+◌, ◌-◌, Bool, true, false, not, ◌&&◌, Option, none, some, List, [], ◌∷◌, ◌++◌,
  ltb, leb, ◌==◌, if◌then◌else◌, length, Bytes, codes, ℤ, pos, negsuc, int_eq, int_of_bits,
}
use http_runtime.Models.{Request, Collection, Response}
use http_runtime.Models.Create.{
  create_request, create_collection, WorkerTask, create_http_worker_task,
}
use http_runtime.RunPlan.{
  RequestCase, RunPlan, RequestCaseResult, RunResult, init_run_result, max_request_cases,
  max_case_assertions, is_positive,
}
use http_runtime.Assertion.{Assertion, AssertionResult}
use http_runtime.Assertion.Eval.{eval_assertion}
use http_runtime.Exec.{Exec, Result, ok, failure, pure, goto_failure, ◌>>=◌, ◌>>◌, on_failure}

-- What the engine calls: db_manager.h and orchestrator.h over an unknown state, and the
-- allocator in that state. A request with its id comes back from `save_request`; `dispatch` and
-- `create_runtime` return whether they succeed.
pub record Services (W : Type 0) : Type 0 where
  pub db_init : Bytes → W → ℤ × W
  pub save_collection : Collection → W → (ℤ × Collection) × W
  pub save_request : Request → W → (ℤ × Request) × W
  pub create_runtime : ℤ → W → Bool × W
  pub dispatch : WorkerTask → W → Bool × W
  pub wait_for_response : ℤ → ℤ → W → Option Response × W
  pub destroy_runtime : W → W
  pub db_close : W → W
  pub malloc : W → ℕ → Bool

-- How many objects of each kind the engine has made and neither freed nor handed over.
pub record Objects : Type 0 where
  pub requests : ℕ
  pub tasks : ℕ
  pub runtimes : ℕ
  pub collections : ℕ
  pub refused : ℕ  -- tasks that the runtime has refused

-- The local variables of `run_plan`, and the result that it fills.
pub record Engine (W : Type 0) : Type 0 where
  pub world : W
  pub result : RunResult
  pub coll : Option Collection
  pub runtime : Bool
  pub req : Option Request
  pub task : Option WorkerTask
  pub owned : Objects
  pub crashed : Bool  -- a write through NULL, behind which nothing runs

abbrev pub sqlite_error : ℤ
sqlite_error = pos 1

abbrev pub or_default : Option Bytes → Bytes → Bytes
or_default none s = s
or_default (some t) s = t

abbrev pub zero_case : RequestCaseResult
zero_case = record {
  response = none;
  assertion_results = [];
  request_ok = false;
  assertions_ok = false;
}

-- The entries that a count brings into use are zero.
abbrev pub zero_cases : List RequestCase → List RequestCaseResult
zero_cases [] = []
zero_cases (c ∷ cases) = zero_case ∷ zero_cases cases

-- `timeout_ms`, with the plan's value and 5000 for what is not positive
unfoldable pub case_timeout : RequestCase → RunPlan → ℤ
case_timeout c plan =
    let t = if is_positive c.timeout_ms then c.timeout_ms else plan.default_timeout_ms in
    if is_positive t then t else pos 5000

-- The loop over the assertions of a case: the results so far, and whether all is well.
unfoldable pub check_assertions :
    Response → List Assertion → List AssertionResult → Bool → List AssertionResult × Bool
check_assertions resp [] results all_ok = (results, all_ok)
check_assertions resp (a ∷ assertions) results all_ok =
    let r = eval_assertion (some resp) (some a) in
    let rest = check_assertions resp assertions (results ++ r ∷ []) (all_ok && r.passed) in
    if leb max_case_assertions (length results) then (results, false) else rest

unfoldable pub judge : RequestCase → Option Response → RequestCaseResult
unfolding check_assertions
judge c none = zero_case
judge c (some resp) =
    let checked = check_assertions resp c.assertions [] true in
    record {
      response = some resp;
      assertion_results = checked.0;
      request_ok = true;
      assertions_ok = checked.1;
    }

module _ {W : Type 0} (services : Services W) where
  -- A call that changes the world only
  unfoldable pub call : {A : Type 0} → (W → A × W) → Exec (Engine W) A
  call f s = let r = f s.world in (ok r.0, record s { world = r.1 })

  -- `if (…) goto cleanup;`
  unfoldable pub unless : Bool → Exec (Engine W) (Unit {0})
  unless bad = if bad then goto_failure else pure tt

  -- `result->all_requests_ok = false; goto cleanup;`
  abbrev pub lost : {A : Type 0} → Exec (Engine W) A
  lost s = (failure, record s { result = record s.result { all_requests_ok = false } })

  unfoldable pub make_collection : Option Bytes → Exec (Engine W) Collection
  make_collection name s = elim (create_collection (services.malloc s.world) name) [
    | none ↦ (failure, s)
    | some coll ↦ (
      ok coll,
      record s {
        coll = some coll;
        owned = record s.owned { collections = s.owned.collections + 1 };
      },
    )
  ]

  unfoldable pub make_runtime : ℕ → Exec (Engine W) (Unit {0})
  make_runtime count s =
      let r = services.create_runtime (int_of_bits count) s.world in
      let t = record s { world = r.1 } in
      if r.0
      then (
        ok tt,
        record t { runtime = true; owned = record t.owned { runtimes = t.owned.runtimes + 1 } },
      )
      else (failure, t)

  -- `rc = db_save_collection(coll)` fills in the id.
  unfoldable pub save_made_collection : Collection → Exec (Engine W) Collection
  save_made_collection coll s =
      let r = services.save_collection coll s.world in
      let t = record s { world = r.1; coll = some r.0.1 } in
      if int_eq r.0.0 sqlite_error then (failure, t) else (ok r.0.1, t)

  unfoldable pub make_request : ℤ → RequestCase → Exec (Engine W) Request
  make_request collection_id c s =
      elim (create_request (services.malloc s.world) c.method collection_id c.url c.headers c.body
        c.body_len) [
          | none ↦ lost s
          | some req ↦ (
            ok req,
            record s { req = some req; owned = record s.owned { requests = s.owned.requests + 1 } },
          )
        ]

  unfoldable pub save_made_request : Request → Exec (Engine W) Request
  save_made_request req s =
      let r = services.save_request req s.world in
      let t = record s { world = r.1; req = some r.0.1 } in
      if int_eq r.0.0 sqlite_error then lost t else (ok r.0.1, t)

  -- The request belongs to the task from here on. `create_http_worker_task` writes through NULL
  -- when `calloc` fails.
  unfoldable pub make_task : Request → Exec (Engine W) WorkerTask
  make_task req s = elim (create_http_worker_task (services.malloc s.world) (some req)) [
    | none ↦ (failure, record s { crashed = true })
    | some task ↦ (
      ok task,
      record s {
        req = none;
        task = some task;
        owned = record s.owned { tasks = s.owned.tasks + 1 };
      },
    )
  ]

  -- What is dispatched belongs to the runtime, the task and its request.
  unfoldable pub dispatch_made_task : WorkerTask → Exec (Engine W) (Unit {0})
  dispatch_made_task task s =
      let r = services.dispatch task s.world in
      let t = record s { world = r.1 } in
      if r.0
      then (
        ok tt,
        record t {
          task = none;
          owned = record t.owned { tasks = t.owned.tasks - 1; requests = t.owned.requests - 1 };
        },
      )
      else lost (record t { owned = record t.owned { refused = t.owned.refused + 1 } })

  unfoldable pub dispatch_case : ℤ → RequestCase → Exec (Engine W) ℤ
  dispatch_case collection_id c = do
    req ← make_request collection_id c
    saved ← save_made_request req
    task ← make_task saved
    dispatch_made_task task
    pure saved.id

  -- The first loop: the ids of the requests.
  unfoldable pub dispatch_cases : ℤ → List RequestCase → Exec (Engine W) (List ℤ)
  dispatch_cases collection_id [] = pure []
  dispatch_cases collection_id (c ∷ cases) = do
    id ← dispatch_case collection_id c
    ids ← dispatch_cases collection_id cases
    pure (id ∷ ids)

  -- The entries of `request_ids` are -1 at first.
  abbrev pub first_id : List ℤ → ℤ
  first_id [] = negsuc 0
  first_id (id ∷ ids) = id

  abbrev pub other_ids : List ℤ → List ℤ
  other_ids [] = []
  other_ids (id ∷ ids) = ids

  -- The second loop: the results of the cases.
  unfoldable pub wait_cases : RunPlan → List RequestCase → List ℤ → W → List RequestCaseResult × W
  unfolding judge
  wait_cases plan [] ids w = ([], w)
  wait_cases plan (c ∷ cases) ids w =
      let r = services.wait_for_response (first_id ids) (case_timeout c plan) w in
      let rest = wait_cases plan cases (other_ids ids) r.1 in (judge c r.0 ∷ rest.0, rest.1)

  -- The flags after the second loop.
  abbrev pub all_requests : List RequestCaseResult → Bool
  all_requests [] = true
  all_requests (r ∷ results) = r.request_ok && all_requests results

  abbrev pub all_assertions : List RequestCaseResult → Bool
  all_assertions [] = true
  all_assertions (r ∷ results) = r.assertions_ok && all_assertions results

  abbrev pub judged : List RequestCaseResult → RunResult → RunResult
  judged cases result = record result {
    case_results = cases;
    all_requests_ok = all_requests cases;
    all_assertions_ok = all_assertions cases;
  }

  -- `exit_code` behind the second loop
  unfoldable pub collect : RunPlan → List ℤ → Exec (Engine W) ℤ
  unfolding wait_cases
  collect plan ids s =
      let r = wait_cases plan plan.cases ids s.world in
      let t = record s { world = r.1; result = judged r.0 s.result } in
      (ok (if all_requests r.0 && all_assertions r.0 then pos 0 else pos 1), t)

  unfoldable pub begin_results : RunPlan → Exec (Engine W) (Unit {0})
  begin_results plan s = (
    ok tt,
    record s {
      result = record s.result {
        all_requests_ok = true;
        all_assertions_ok = true;
        case_results = zero_cases plan.cases;
      };
    },
  )

  abbrev pub at_least_one : ℕ → ℕ
  at_least_one n = if ltb 0 n then n else 1

  unfoldable pub run_cases : RunPlan → Exec (Engine W) ℤ
  run_cases plan = do
    unless (ltb max_request_cases (length plan.cases))
    rc ← call (services.db_init (or_default plan.db_path (codes "default.db")))
    unless (int_eq rc sqlite_error)
    coll ← make_collection (some (or_default plan.collection_name (codes "default")))
    saved ← save_made_collection coll
    make_runtime (at_least_one plan.worker_count)
    begin_results plan
    ids ← dispatch_cases saved.id plan.cases
    collect plan ids

  -- Behind `cleanup:`, each object that is still there is freed.
  abbrev pub free_task : Engine W → Engine W
  free_task s = elim s.task [
    | none ↦ s
    | some _ ↦ record s { task = none; owned = record s.owned { tasks = s.owned.tasks - 1 } }
  ]

  abbrev pub free_request : Engine W → Engine W
  free_request s = elim s.req [
    | none ↦ s
    | some _ ↦ record s { req = none; owned = record s.owned { requests = s.owned.requests - 1 } }
  ]

  abbrev pub destroy_runtime : Engine W → Engine W
  destroy_runtime s =
      if s.runtime
      then record s {
        runtime = false;
        world = services.destroy_runtime s.world;
        owned = record s.owned { runtimes = s.owned.runtimes - 1 };
      }
      else s

  abbrev pub free_collection : Engine W → Engine W
  free_collection s = elim s.coll [
    | none ↦ s
    | some _ ↦ record s {
      coll = none;
      owned = record s.owned { collections = s.owned.collections - 1 };
    }
  ]

  abbrev pub released : Engine W → Engine W
  released s =
      let t = free_collection (destroy_runtime (free_request (free_task s))) in
      record t { world = services.db_close t.world }

  unfoldable pub cleanup : Engine W → Engine W
  cleanup s = if s.crashed then s else released s

  abbrev pub entered : W → Engine W
  entered w = record {
    world = w;
    result = init_run_result;
    coll = none;
    runtime = false;
    req = none;
    task = none;
    owned = record { requests = 0; tasks = 0; runtimes = 0; collections = 0; refused = 0 };
    crashed = false;
  }

  -- `plan` and `result` are not NULL. The exit code is also returned.
  unfoldable pub run_plan : RunPlan → W → Engine W
  unfolding cleanup
  run_plan plan w =
      let r = on_failure (run_cases plan) (λ s. (pos 1, s)) (entered w) in
      let t = cleanup r.1 in record t { result = record t.result { exit_code = r.0 } }
