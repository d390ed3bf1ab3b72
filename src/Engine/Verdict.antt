-- ===== src/Engine/Verdict.antt =====
-- When src/core/engine.c returns 0.
use http_runtime.Base.{
  ℕ, ◌+◌, ◌≤◌, ◌<◌, Bool, true, false, ◌&&◌, Option, none, some, List, [], ◌∷◌, ◌++◌, ◌≡◌, ◌≢◌, ◌↔◌,
  refl, sym, subst, if◌then◌else◌, length, length-append, arith, ℤ, pos, Bytes, int_eq, int_of_bits,
}
use http_runtime.Models.{Request, Collection, Response}
use http_runtime.Models.Create.{
  create_request, create_collection, WorkerTask, create_http_worker_task,
}
use http_runtime.RunPlan.{RequestCase, RunPlan, RequestCaseResult, max_case_assertions}
use http_runtime.Assertion.{Assertion, AssertionResult}
use http_runtime.Assertion.Eval.{eval_assertion}
use http_runtime.Assertion.Eval.Holds.{Holds, eval_assertion_iff}
use http_runtime.Exec.{
  Result, ok, failure, on_failure, Gives, Leads, Leads-pure, Keeps-bind, Keeps_then, Outcome-if,
  Outcome-Option, goto_failure, pure, Return,
}
use http_runtime.Engine.{
  Services, Engine, zero_cases, check_assertions, judge, wait_cases, all_requests, all_assertions,
  first_id, other_ids, case_timeout, collect, call, unless, make_collection, save_made_collection,
  make_runtime, make_request, save_made_request, make_task, dispatch_made_task, dispatch_case,
  dispatch_cases, begin_results, sqlite_error, entered, cleanup, run_cases, run_plan,
}

-- Every assertion holds of the response.
abbrev pub AllHold : List Assertion → Response → Type 0
AllHold [] resp = Unit {0}
AllHold (a ∷ assertions) resp = Holds a resp × AllHold assertions resp

-- A response came, and every assertion of the case holds of it.
abbrev pub Passes : RequestCase → RequestCaseResult → Type 0
Passes c r = (resp : Response) × (r.response ≡ some resp) × AllHold c.assertions resp

abbrev pub AllPass : List RequestCase → List RequestCaseResult → Type 0
AllPass [] [] = Unit {0}
AllPass (c ∷ cases) (r ∷ results) = Passes c r × AllPass cases results
AllPass _ _ = ⊥

-- Each case has as many assertions as its results have room for.
abbrev pub Fit : List RequestCase → Type 0
Fit [] = Unit {0}
Fit (c ∷ cases) = (length c.assertions ≤ max_case_assertions) × Fit cases

check_step :
    (resp : Response) (a : Assertion) (as' : List Assertion) (results : List AssertionResult)
    (b : Bool)
    → length results < max_case_assertions
    → check_assertions resp (a ∷ as') results b
      ≡ check_assertions resp as'
          (results ++ eval_assertion (some resp) (some a) ∷ [])
          (b && (eval_assertion (some resp) (some a)).passed)
unfolding check_assertions
check_step resp a as' results b h = ground arith

and_true : (b c : Bool) → (b && c) ≡ true → (b ≡ true) × (c ≡ true)
and_true b c e = ground arith

true_and : (b c : Bool) → b ≡ true → c ≡ true → (b && c) ≡ true
true_and b c e f = ground arith

check_assertions_iff :
    (resp : Response) (as' : List Assertion) (results : List AssertionResult) (b : Bool)
    → length results + length as' ≤ max_case_assertions
    → ((check_assertions resp as' results b).1 ≡ true) ↔ ((b ≡ true) × AllHold as' resp)
unfolding check_assertions
check_assertions_iff resp [] results b h = ((λ e. (e, tt)), (λ e. e.0))
check_assertions_iff resp (a ∷ as') results b h =
    let p = (eval_assertion (some resp) (some a)).passed in
    let e = length-append results (eval_assertion (some resp) (some a) ∷ []) in
    let (to_all, from_all) =
      check_assertions_iff resp as' (results ++ eval_assertion (some resp) (some a) ∷ []) (b && p)
        (omega (arith, h, e)) in
    let (to_holds, from_holds) = eval_assertion_iff resp a in
    subst (λ r. (r.1 ≡ true) ↔ ((b ≡ true) × AllHold (a ∷ as') resp))
      (sym (check_step resp a as' results b (omega (arith, h))))
      (
        (λ t. let (u, v) = to_all t in let (x, y) = and_true b p u in (x, (to_holds y, v))),
        (λ t. from_all (true_and b p t.0 (from_holds t.1.0), t.1.1)),
      )

judge_iff :
    (c : RequestCase) (o : Option Response)
    → length c.assertions ≤ max_case_assertions
    → (((judge c o).request_ok && (judge c o).assertions_ok) ≡ true) ↔ Passes c (judge c o)
unfolding judge
judge_iff c none h =
    ((λ e. absurd (let f : false ≡ true = e in cc)), (λ p. absurd (let f = p.1 in cc)))
judge_iff c (some resp) h =
    let (to_all, from_all) = check_assertions_iff resp c.assertions [] true (omega (arith, h)) in
    (
      (λ e. (resp, refl, (to_all e).1)),
      (λ p. from_all (refl, subst (AllHold c.assertions) (let f = p.1 in cc) p.2)),
    )

-- The flag of a case with a response says whether every assertion holds.
pub judge-AllHold :
    (c : RequestCase) (resp : Response)
    → length c.assertions ≤ max_case_assertions
    → ((judge c (some resp)).assertions_ok ≡ true) ↔ AllHold c.assertions resp
unfolding judge
judge-AllHold c resp h =
    let (to_all, from_all) = check_assertions_iff resp c.assertions [] true (omega (arith, h)) in
    ((λ e. (to_all e).1), (λ p. from_all (refl, p)))

regroup :
    (a b c d : Bool) → (((a && b) && (c && d)) ≡ true) ↔ (((a && c) ≡ true) × ((b && d) ≡ true))
regroup a b c d = ground arith

module _ {W : Type 0} (services : Services W) where
  flags_iff :
      (plan : RunPlan) (cases : List RequestCase) (ids : List ℤ) (w : W)
      → Fit cases
      → (let rs = (wait_cases services plan cases ids w).0 in
          ((all_requests services rs && all_assertions services rs) ≡ true) ↔ AllPass cases rs)
  unfolding wait_cases
  flags_iff plan [] ids w fit = ((λ e. tt), (λ e. refl))
  flags_iff plan (c ∷ cases) ids w fit =
      let r = services.wait_for_response (first_id services ids) (case_timeout c plan) w in
      let (to_rest, from_rest) = flags_iff plan cases (other_ids services ids) r.1 fit.1 in
      let (to_pass, from_pass) = judge_iff c r.0 fit.0 in
      let rs = (wait_cases services plan cases (other_ids services ids) r.1).0 in
      let (split, join) =
        regroup (judge c r.0).request_ok (all_requests services rs) (judge c r.0).assertions_ok
          (all_assertions services rs) in
      (
        (λ e. let (x, y) = split e in (to_pass x, to_rest y)),
        (λ p. join (from_pass p.0, from_rest p.1)),
      )

  -- Not every case passes by the results so far.
  abbrev Open : RunPlan → Engine W → Type 0
  Open plan s = ¬ AllPass plan.cases s.result.case_results

  abbrev Judged : RunPlan → ℤ → Engine W → Type 0
  Judged plan code s = (code ≡ pos 0) ↔ AllPass plan.cases s.result.case_results

  -- What leaves `case_results` alone
  module _ (plan : RunPlan) where
    call-Leads :
        {A : Type 0} (f : W → A × W) → Leads (Open plan) (Open plan) (Open plan) (call services f)
    unfolding call
    call-Leads f = record { at = λ s h. h }

    unless-Leads : (bad : Bool) → Leads (Open plan) (Open plan) (Open plan) (unless services bad)
    unfolding unless goto_failure pure
    unless-Leads true = record { at = λ s h. h }
    unless-Leads false = record { at = λ s h. h }

    make_collection-Leads :
        (name : Option Bytes)
        → Leads (Open plan) (Open plan) (Open plan) (make_collection services name)
    unfolding make_collection
    make_collection-Leads name = record {
      at = λ s h.
          Outcome-Option (Open plan) (Open plan) (create_collection (services.malloc s.world) name)
            _ _ h (λ coll. h);
    }

    save_made_collection-Leads :
        (coll : Collection)
        → Leads (Open plan) (Open plan) (Open plan) (save_made_collection services coll)
    unfolding save_made_collection
    save_made_collection-Leads coll = record {
      at = λ s h.
          Outcome-if (Open plan) (Open plan)
            (int_eq (services.save_collection coll s.world).0.0 sqlite_error) _ _ (λ e. h) (λ e. h);
    }

    make_runtime-Leads :
        (n : ℕ) → Leads (Open plan) (Open plan) (Open plan) (make_runtime services n)
    unfolding make_runtime
    make_runtime-Leads n = record {
      at = λ s h.
          Outcome-if (Open plan) (Open plan) (services.create_runtime (int_of_bits n) s.world).0 _ _
            (λ e. h) (λ e. h);
    }

    make_request-Leads :
        (id : ℤ) (c : RequestCase)
        → Leads (Open plan) (Open plan) (Open plan) (make_request services id c)
    unfolding make_request
    make_request-Leads id c = record {
      at = λ s h.
          Outcome-Option (Open plan) (Open plan)
            (create_request (services.malloc s.world) c.method id c.url c.headers c.body c.body_len)
            _ _ h (λ req. h);
    }

    save_made_request-Leads :
        (req : Request) → Leads (Open plan) (Open plan) (Open plan) (save_made_request services req)
    unfolding save_made_request
    save_made_request-Leads req = record {
      at = λ s h.
          Outcome-if (Open plan) (Open plan)
            (int_eq (services.save_request req s.world).0.0 sqlite_error) _ _ (λ e. h) (λ e. h);
    }

    make_task-Leads :
        (req : Request) → Leads (Open plan) (Open plan) (Open plan) (make_task services req)
    unfolding make_task
    make_task-Leads req = record {
      at = λ s h.
          Outcome-Option (Open plan) (Open plan)
            (create_http_worker_task (services.malloc s.world) (some req)) _ _ h (λ task. h);
    }

    dispatch_made_task-Leads :
        (task : WorkerTask)
        → Leads (Open plan) (Open plan) (Open plan) (dispatch_made_task services task)
    unfolding dispatch_made_task
    dispatch_made_task-Leads task = record {
      at = λ s h.
          Outcome-if (Open plan) (Open plan) (services.dispatch task s.world).0 _ _ (λ e. h)
            (λ e. h);
    }

    dispatch_case-Leads :
        (id : ℤ) (c : RequestCase)
        → Leads (Open plan) (Open plan) (Open plan) (dispatch_case services id c)
    unfolding dispatch_case
    dispatch_case-Leads id c =
        search
          (
            Keeps-bind, Leads-pure, make_request-Leads, save_made_request-Leads, make_task-Leads,
            dispatch_made_task-Leads,
          )
          depth 12

    dispatch_cases-Leads :
        (id : ℤ) (cases : List RequestCase)
        → Leads (Open plan) (Open plan) (Open plan) (dispatch_cases services id cases)
    unfolding dispatch_cases
    dispatch_cases-Leads id [] = Leads-pure []
    dispatch_cases-Leads id (c ∷ cases) =
        Keeps-bind _ _ (dispatch_case-Leads id c)
          (λ a. Keeps-bind _ _ (dispatch_cases-Leads id cases) (λ b. Leads-pure (a ∷ b)))

    zero-Open : (cases : List RequestCase) → cases ≢ [] → ¬ AllPass cases (zero_cases cases)
    zero-Open [] ne h = ne refl
    zero-Open (c ∷ cases) ne h = let f = h.0.1 in cc

    begin_results-Leads :
        plan.cases ≢ [] → Leads (Open plan) (Open plan) (Open plan) (begin_results services plan)
    unfolding begin_results
    begin_results-Leads ne = record { at = λ s h. zero-Open plan.cases ne }

    collect-Gives :
        (ids : List ℤ)
        → Fit plan.cases
        → Gives (Open plan) (Open plan) (Judged plan) (collect services plan ids)
    unfolding collect
    collect-Gives ids fit = record {
      at = λ s h.
          let rs = (wait_cases services plan plan.cases ids s.world).0 in
          let (to_pass, from_pass) = flags_iff plan plan.cases ids s.world fit in
          code_iff (all_requests services rs && all_assertions services rs) to_pass from_pass;
    }
      where
        code_iff :
            {P : Type 0} (b : Bool)
            → (b ≡ true → P)
            → (P → b ≡ true)
            → ((if b then pos 0 else pos 1) ≡ pos 0) ↔ P
        code_iff true f g = ((λ e. f refl), (λ p. refl))
        code_iff false f g =
            ((λ e. absurd (let k : pos 1 ≡ pos 0 = e in cc)), (λ p. absurd (let k = g p in cc)))

    run_cases-Gives :
        plan.cases ≢ []
        → Fit plan.cases
        → Gives (Open plan) (Open plan) (Judged plan) (run_cases services plan)
    unfolding run_cases
    run_cases-Gives ne fit = Keeps_then _ _ (unless-Leads _) (λ _.
        Keeps_then _ _ (call-Leads _) (λ rc. Keeps_then _ _ (unless-Leads _) (λ _.
          Keeps_then _ _ (make_collection-Leads _) (λ coll.
            Keeps_then _ _ (save_made_collection-Leads coll) (λ saved.
              Keeps_then _ _ (make_runtime-Leads _) (λ _.
                Keeps_then _ _ (begin_results-Leads ne) (λ _.
                  Keeps_then _ _ (dispatch_cases-Leads saved.id plan.cases)
                    (λ ids. collect-Gives ids fit))))))))

  cleanup-result : (s : Engine W) → (cleanup services s).result ≡ s.result
  unfolding cleanup
  cleanup-result s = ground arith

  -- Behind the label the exit code is 1.
  ended :
      (plan : RunPlan) (r : Result ℤ × Engine W)
      → Return (Open plan) (Judged plan) r
      → (let e = elim r.0 as (λ _. ℤ × Engine W) [
        | ok code ↦ (code, r.1)
        | failure ↦ (pos 1, r.1)
      ] in
          Judged plan e.0 e.1)
  ended plan (ok code, s) h = h
  ended plan (failure, s) h = ((λ e. absurd (let k : pos 1 ≡ pos 0 = e in cc)), (λ p. absurd (h p)))

  -- For a plan with at least one case, and no more assertions in a case than the results have
  -- room for, whatever the database, the runtime and the allocator do: `run_plan` returns 0
  -- exactly when the results it leaves have for each case of the plan a response, of which every
  -- assertion of the case holds.
  pub run_plan_iff :
      (plan : RunPlan) (w : W)
      → plan.cases ≢ []
      → Fit plan.cases
      → ((run_plan services plan w).result.exit_code ≡ pos 0)
        ↔ AllPass plan.cases (run_plan services plan w).result.case_results
  unfolding run_plan on_failure
  run_plan_iff plan w ne fit =
      let r = run_cases services plan (entered services w) in
      let e = elim r.0 as (λ _. ℤ × Engine W) [ ok code ↦ (code, r.1) | failure ↦ (pos 1, r.1) ] in
      subst (λ result. (e.0 ≡ pos 0) ↔ AllPass plan.cases result.case_results)
        (sym (cleanup-result e.1))
        (ended plan r
          ((run_cases-Gives plan ne fit).at (entered services w) (none_yet plan.cases ne)))
    where
      none_yet : (cases : List RequestCase) → cases ≢ [] → ¬ AllPass cases []
      none_yet [] k h = k refl
      none_yet (c ∷ cases) k h = h
