-- ===== src/Engine/Ownership.antt =====
-- What src/core/engine.c owns: every object that it makes is freed or handed over once.
use http_runtime.Base.{
  ℕ, ◌+◌, Bool, true, false, Option, none, some, List, [], ◌∷◌, ◌≡◌, refl, sym, ◌∙◌, subst, Bytes,
  ℤ, pos, int_eq, int_of_bits, arith,
}
use http_runtime.Models.{Request, Collection}
use http_runtime.Models.Create.{
  create_request, create_collection, WorkerTask, create_http_worker_task, worker_task_size,
}
use http_runtime.RunPlan.{RequestCase, RunPlan}
use http_runtime.Exec.{
  Result, ok, failure, on_failure, on_failure-Leads, Leads, Leads-pure, Leads-bind, Outcome,
  Outcome-if, Outcome-Option, goto_failure, pure,
}
use http_runtime.Engine.{
  Services, Engine, Objects, call, unless, make_collection, save_made_collection, make_runtime,
  make_request, save_made_request, make_task, dispatch_made_task, dispatch_case, dispatch_cases,
  begin_results, collect, cleanup, released, run_cases, entered, run_plan, sqlite_error,
}

abbrev pub is_some : {A : Type 0} → Option A → Bool
is_some none = false
is_some (some a) = true

abbrev bit : Bool → ℕ
bit false = 0
bit true = 1

module _ {W : Type 0} (services : Services W) where
  -- Which of the variables are set, that they are all that is owned, where a task owns its
  -- request, how many tasks were refused, and that the program runs.
  abbrev Parts : Bool → Bool → Bool → Bool → ℕ → Engine W → Type 0
  Parts r t c k n s =
      (is_some s.req ≡ r)
      × (is_some s.task ≡ t)
      × (is_some s.coll ≡ c)
      × (s.runtime ≡ k)
      × (s.owned.requests ≡ bit r + bit t)
      × (s.owned.tasks ≡ bit t)
      × (s.owned.runtimes ≡ bit k)
      × (s.owned.collections ≡ bit c)
      × (s.owned.refused ≡ n)
      × (s.crashed ≡ false)

  abbrev At : Bool → Bool → Bool → Bool → Engine W → Type 0
  At r t c k s = Parts r t c k 0 s

  -- A task is left at the label when it was refused.
  abbrev Stopped : Engine W → Type 0
  Stopped s = (r : Bool) × (t : Bool) × (c : Bool) × (k : Bool) × Parts r t c k (bit t) s

  call-At :
      {A : Type 0} (f : W → A × W) (c k : Bool)
      → Leads Stopped (At false false c k) (At false false c k) (call services f)
  unfolding call
  call-At f c k = record { at = λ s h. h }

  unless-At :
      (bad c k : Bool)
      → Leads Stopped (At false false c k) (At false false c k) (unless services bad)
  unfolding unless goto_failure pure
  unless-At true c k = record { at = λ s h. (false, false, c, k, h) }
  unless-At false c k = record { at = λ s h. h }

  make_collection-At :
      (name : Option Bytes)
      → Leads Stopped
          (At false false false false)
          (At false false true false)
          (make_collection services name)
  unfolding make_collection
  make_collection-At name = record {
    at = λ s h.
        Outcome-Option Stopped (At false false true false)
          (create_collection (services.malloc s.world) name) _ _ (false, false, false, false, h)
          (λ coll. (h.0, h.1, refl, h.3, h.4, h.5, h.6, omega (arith, h.7), h.8, h.9));
  }

  save_made_collection-At :
      (coll : Collection)
      → Leads Stopped
          (At false false true false)
          (At false false true false)
          (save_made_collection services coll)
  unfolding save_made_collection
  save_made_collection-At coll = record {
    at = λ s h.
        Outcome-if Stopped (At false false true false)
          (int_eq (services.save_collection coll s.world).0.0 sqlite_error) _ _
          (λ e. (false, false, true, false, (h.0, h.1, refl, h.3, h.4, h.5, h.6, h.7, h.8, h.9)))
          (λ e. (h.0, h.1, refl, h.3, h.4, h.5, h.6, h.7, h.8, h.9));
  }

  make_runtime-At :
      (n : ℕ)
      → Leads Stopped
          (At false false true false)
          (At false false true true)
          (make_runtime services n)
  unfolding make_runtime
  make_runtime-At n = record {
    at = λ s h.
        Outcome-if Stopped (At false false true true)
          (services.create_runtime (int_of_bits n) s.world).0 _ _
          (λ e. (h.0, h.1, h.2, refl, h.4, h.5, omega (arith, h.6), h.7, h.8, h.9))
          (λ e. (false, false, true, false, h));
  }

  make_request-At :
      (id : ℤ) (c : RequestCase)
      → Leads Stopped
          (At false false true true)
          (At true false true true)
          (make_request services id c)
  unfolding make_request
  make_request-At id c = record {
    at = λ s h.
        Outcome-Option Stopped (At true false true true)
          (create_request (services.malloc s.world) c.method id c.url c.headers c.body c.body_len) _
          _ (false, false, true, true, h)
          (λ req. (refl, h.1, h.2, h.3, omega (arith, h.4), h.5, h.6, h.7, h.8, h.9));
  }

  save_made_request-At :
      (req : Request)
      → Leads Stopped
          (At true false true true)
          (At true false true true)
          (save_made_request services req)
  unfolding save_made_request
  save_made_request-At req = record {
    at = λ s h.
        Outcome-if Stopped (At true false true true)
          (int_eq (services.save_request req s.world).0.0 sqlite_error) _ _
          (λ e. (true, false, true, true, (refl, h.1, h.2, h.3, h.4, h.5, h.6, h.7, h.8, h.9)))
          (λ e. (refl, h.1, h.2, h.3, h.4, h.5, h.6, h.7, h.8, h.9));
  }

  make_task-some :
      (req : Request) (s : Engine W)
      → services.malloc s.world worker_task_size ≡ true
      → make_task services req s ≡ (
        ok (record { request = some req }),
        record s {
          req = none;
          task = some (record { request = some req });
          owned = record s.owned { tasks = s.owned.tasks + 1 };
        },
      )
  unfolding make_task create_http_worker_task
  make_task-some req s e = ground arith

  make_task-At :
      (room : (w : W) → services.malloc w worker_task_size ≡ true) (req : Request)
      → Leads Stopped (At true false true true) (At false true true true) (make_task services req)
  make_task-At room req = record {
    at = λ s h.
        subst (Outcome Stopped (At false true true true))
          (sym (make_task-some req s (room s.world)))
          (refl, refl, h.2, h.3, omega (arith, h.4), omega (arith, h.5), h.6, h.7, h.8, h.9);
  }

  dispatch_made_task-At :
      (task : WorkerTask)
      → Leads Stopped
          (At false true true true)
          (At false false true true)
          (dispatch_made_task services task)
  unfolding dispatch_made_task
  dispatch_made_task-At task = record {
    at = λ s h.
        Outcome-if Stopped (At false false true true) (services.dispatch task s.world).0 _ _
          (λ e. (h.0, refl, h.2, h.3, omega (arith, h.4), omega (arith, h.5), h.6, h.7, h.8, h.9))
          (λ e. (
            false,
            true,
            true,
            true,
            (h.0, h.1, h.2, h.3, h.4, h.5, h.6, h.7, omega (arith, h.8), h.9),
          ));
  }

  dispatch_case-At :
      (room : (w : W) → services.malloc w worker_task_size ≡ true) (id : ℤ) (c : RequestCase)
      → Leads Stopped
          (At false false true true)
          (At false false true true)
          (dispatch_case services id c)
  unfolding dispatch_case
  dispatch_case-At room id c = Leads-bind _ _ (make_request-At id c) (λ req.
      Leads-bind _ _ (save_made_request-At req) (λ saved.
        Leads-bind _ _ (make_task-At room saved)
          (λ task. Leads-bind _ _ (dispatch_made_task-At task) (λ _. Leads-pure saved.id))))

  dispatch_cases-At :
      (room : (w : W) → services.malloc w worker_task_size ≡ true) (id : ℤ)
      (cases : List RequestCase)
      → Leads Stopped
          (At false false true true)
          (At false false true true)
          (dispatch_cases services id cases)
  unfolding dispatch_cases
  dispatch_cases-At room id [] = Leads-pure []
  dispatch_cases-At room id (c ∷ cases) =
      Leads-bind _ _ (dispatch_case-At room id c)
        (λ a. Leads-bind _ _ (dispatch_cases-At room id cases) (λ ids. Leads-pure (a ∷ ids)))

  begin_results-At :
      (plan : RunPlan)
      → Leads Stopped
          (At false false true true)
          (At false false true true)
          (begin_results services plan)
  unfolding begin_results
  begin_results-At plan = record { at = λ s h. h }

  collect-At :
      (plan : RunPlan) (ids : List ℤ)
      → Leads Stopped
          (At false false true true)
          (At false false true true)
          (collect services plan ids)
  unfolding collect
  collect-At plan ids = record { at = λ s h. h }

  run_cases-At :
      (room : (w : W) → services.malloc w worker_task_size ≡ true) (plan : RunPlan)
      → Leads Stopped
          (At false false false false)
          (At false false true true)
          (run_cases services plan)
  unfolding run_cases
  run_cases-At room plan = Leads-bind _ _ (unless-At _ false false) (λ _.
      Leads-bind _ _ (call-At _ false false) (λ rc. Leads-bind _ _ (unless-At _ false false) (λ _.
        Leads-bind _ _ (make_collection-At _) (λ coll.
          Leads-bind _ _ (save_made_collection-At coll) (λ saved.
            Leads-bind _ _ (make_runtime-At _) (λ _. Leads-bind _ _ (begin_results-At plan) (λ _.
              Leads-bind _ _ (dispatch_cases-At room saved.id plan.cases)
                (λ ids. collect-At plan ids))))))))

  -- Nothing is left, except the request of a task.
  released-requests :
      (r t : Bool) (s : Engine W)
      → is_some s.req ≡ r
      → s.owned.requests ≡ bit r + bit t
      → (released services s).owned.requests ≡ bit t
  released-requests r t s e f = ground arith

  released-tasks :
      (t : Bool) (s : Engine W)
      → is_some s.task ≡ t
      → s.owned.tasks ≡ bit t
      → (released services s).owned.tasks ≡ 0
  released-tasks t s e f = ground arith

  released-runtimes :
      (k : Bool) (s : Engine W)
      → s.runtime ≡ k
      → s.owned.runtimes ≡ bit k
      → (released services s).owned.runtimes ≡ 0
  released-runtimes k s e f = ground arith

  released-collections :
      (c : Bool) (s : Engine W)
      → is_some s.coll ≡ c
      → s.owned.collections ≡ bit c
      → (released services s).owned.collections ≡ 0
  released-collections c s e f = ground arith

  released-refused : (s : Engine W) → (released services s).owned.refused ≡ s.owned.refused
  released-refused s = ground arith

  released-crashed : (s : Engine W) → (released services s).crashed ≡ s.crashed
  released-crashed s = ground arith

  cleanup-released : (s : Engine W) → s.crashed ≡ false → cleanup services s ≡ released services s
  unfolding cleanup
  cleanup-released s e = rw e refl

  abbrev pub Left : Objects → Type 0
  Left o = (o.tasks ≡ 0) × (o.runtimes ≡ 0) × (o.collections ≡ 0) × (o.requests ≡ o.refused)

  abbrev Ended : Engine W → Type 0
  Ended e = (e.crashed ≡ false) × Left e.owned

  Stopped-Ended : (s : Engine W) → Stopped s → Ended (cleanup services s)
  Stopped-Ended s (r, t, c, k, h) = subst Ended (sym (cleanup-released s h.9)) (
    released-crashed s ∙ h.9,
    (
      released-tasks t s h.1 h.5,
      released-runtimes k s h.3 h.6,
      released-collections c s h.2 h.7,
      released-requests r t s h.0 h.4 ∙ sym (released-refused s ∙ h.8),
    ),
  )

  -- When `calloc` has a block for each task, and whatever the database, the runtime and the rest
  -- of the allocator do, `run_plan` comes to its end, with every task, runtime and collection that
  -- it made freed or handed over; so too every request, but for those of the tasks that the
  -- runtime refused in the run, which are lost.
  pub run_plan-Left :
      (plan : RunPlan) (w : W)
      → ((w : W) → services.malloc w worker_task_size ≡ true)
      → ((run_plan services plan w).crashed ≡ false) × Left (run_plan services plan w).owned
  unfolding run_plan
  run_plan-Left plan w room =
      Stopped-Ended (on_failure (run_cases services plan) (λ s. (pos 1, s)) (entered services w)).1
        (on_failure-Leads {E = Stopped} {P = At false false false false} {Q = Stopped}
          (run_cases services plan) _ (weaken (run_cases-At room plan)) (λ s h. h)
          (entered services w) (refl, refl, refl, refl, refl, refl, refl, refl, refl, refl))
    where
      weaken :
          Leads Stopped
            (At false false false false)
            (At false false true true)
            (run_cases services plan)
          → Leads Stopped (At false false false false) Stopped (run_cases services plan)
      weaken k = record { at = λ s h. later (run_cases services plan s) (k.at s h) }
        where
          later :
              (r : Result ℤ × Engine W)
              → Outcome Stopped (At false false true true) r
              → Outcome Stopped Stopped r
          later (ok a, t) x = (false, false, true, true, x)
          later (failure, t) x = x
