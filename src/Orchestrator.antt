-- ===== src/Orchestrator.antt =====
-- src/core/orchestrator.c: the runtime, its queues and its threads. The queues are the lists that
-- Queue/Refine relates to their nodes.
pub mod Wait
pub mod Pipeline
pub mod Delivers
pub mod Shutdown
pub mod Turns
pub mod Complete
pub mod Ends
pub mod Lifetime
use http_runtime.Base.{
  ℕ, zero, suc, ◌+◌, Bool, true, false, Option, none, some, List, [], ◌∷◌, ◌++◌, ltb, leb,
  if◌then◌else◌, ℤ, pos, negsuc,
}
use http_runtime.Models.{Request, Response, Collection}
use http_runtime.Models.Create.{WorkerTask}

pub record Channel (A : Type 0) : Type 0 where
  pub items : List A
  pub closed : Bool

-- `queue_push`; the Boolean says whether `malloc` has a node.
unfoldable pub offer : {A : Type 0} → Bool → A → Channel A → Bool × Channel A
offer malloc x q =
    if q.closed
    then (false, q)
    else if malloc
    then (true, record q { items = q.items ++ x ∷ [] })
    else (false, q)

-- `queue_shutdown`
abbrev pub close : {A : Type 0} → Channel A → Channel A
close q = record q { closed = true }

-- A task of the database's worker, by its type. Of the callback of
-- `DB_TASK_GET_NEXT_REQUEST` it is known whether there is one.
pub data DbTask : Type 0 where
  save_collection : Collection → DbTask
  save_request : Request → DbTask
  save_response : Response → DbTask
  update_status : ℤ → ℤ → DbTask
  get_next_request : Bool → DbTask
  shutdown : DbTask

-- What the worker calls, over an unknown state.
pub record DbCalls (W : Type 0) : Type 0 where
  pub db_save_request : Request → W → W
  pub db_save_response : Response → W → W
  pub db_save_collection : Collection → W → W
  pub db_get_next_pending_request : W → Option Request × W
  pub db_update_request_status : ℤ → ℤ → W → W
  pub callback : Option Request → W → W

module _ {W : Type 0} (calls : DbCalls W) where
  -- The switch of `db_worker_routine`; whether the loop goes on.
  unfoldable pub handle_db_task : DbTask → W → Bool × W
  handle_db_task (save_request req) w = (true, calls.db_save_request req w)
  handle_db_task (save_response resp) w = (true, calls.db_save_response resp w)
  handle_db_task (save_collection coll) w = (true, calls.db_save_collection coll w)
  handle_db_task shutdown w = (false, w)
  handle_db_task (get_next_request has_callback) w =
      let r = calls.db_get_next_pending_request w in
      (true, if has_callback then calls.callback r.0 r.1 else r.1)
  handle_db_task (update_status request_id code) w =
      (true, calls.db_update_request_status request_id code w)

  -- The tasks that `queue_pop` returns in turn, before NULL.
  unfoldable pub db_worker_routine : List DbTask → W → W
  unfolding handle_db_task
  db_worker_routine [] w = w
  db_worker_routine (task ∷ tasks) w =
      let r = handle_db_task task w in
      let rest = db_worker_routine tasks r.1 in if r.0 then rest else r.1

abbrev pub int_max : ℕ
int_max = 2147483647

-- `elapsed < timeout_ms`
abbrev pub before : ℕ → ℤ → Bool
before elapsed (pos timeout) = ltb elapsed timeout
before elapsed (negsuc n) = false

abbrev pub timeout_of : ℤ → ℕ
timeout_of (pos timeout) = timeout
timeout_of (negsuc n) = 0

module _ {W : Type 0} (get : ℤ → W → Option Response × W) (sleep : ℕ → W → W) where
  -- The loop of `wait_for_response`; the outer `none` is the end of the fuel, or an `elapsed` that
  -- is no `int` any more.
  unfoldable pub poll : ℕ → ℕ → ℤ → ℤ → W → Option (Option Response × W)
  poll zero elapsed request_id timeout_ms w = none
  poll (suc fuel) elapsed request_id timeout_ms w =
      let r = get request_id w in
      let rest = poll fuel (elapsed + 100) request_id timeout_ms (sleep 100000 r.1) in
      if before elapsed timeout_ms
      then elim r.0 [
        | none ↦ if leb (elapsed + 100) int_max then rest else none
        | some resp ↦ some (some resp, r.1)
      ]
      else some (none, w)

  unfoldable pub wait_for_response : ℤ → ℤ → W → Option (Option Response × W)
  unfolding poll
  wait_for_response request_id timeout_ms w =
      poll (suc (timeout_of timeout_ms)) 0 request_id timeout_ms w
