-- ===== src/Orchestrator/Pipeline.antt =====
-- The threads of a runtime of src/core/orchestrator.c as steps in any order: the owner that
-- dispatches and then destroys the runtime, the workers, the dispatcher and the worker of the
-- database. A step has one call on a queue at most.
use http_runtime.Base.{
  Option, none, some, if◌then◌else◌, ℕ, zero, suc, ◌+◌, ◌&&◌, pos, Bool, true, false, none, some,
  List, [], ◌∷◌, ◌++◌, ◌≡◌, if◌then◌else◌, ℤ,
}
use http_runtime.Models.{Response}
use http_runtime.Models.Create.{WorkerTask}
use http_runtime.Orchestrator.{Channel, offer, close, save_response, DbCalls, handle_db_task}

-- A thread stands before `queue_pop`, has what it returned, or has returned.
pub data Thread : Type 0 where
  waiting : Thread
  holds : Response → Thread
  ended : Thread

-- How far the owner is in `destroy_runtime`.
pub data Owner : Type 0 where
  running joins_workers joins_dispatcher joins_db destroyed : Owner

-- `workers` counts the workers before `queue_pop`, `busy` has the tasks of the others. In the
-- queue `db_tasks` each task is a `DB_TASK_SAVE_RESPONSE`, since the dispatcher alone fills it.
-- The ids of the requests that were dispatched, and of those whose response is lost for want of
-- memory, or because a queue was shut.
pub record Runtime : Type 0 where
  pub requests : Channel WorkerTask
  pub responses : Channel Response
  pub db_tasks : Channel Response
  pub workers : ℕ
  pub busy : List WorkerTask
  pub dispatcher : Thread
  pub db_worker : Thread
  pub owner : Owner
  pub saved : List ℤ
  pub unsaved : List ℤ
  pub dispatched : List ℤ
  pub dropped : List ℤ
  pub refused : List ℤ

abbrev pub empty_channel : {A : Type 0} → Channel A
empty_channel = record { items = []; closed = false }

-- All threads wait, since nothing is pushed before `create_runtime` returns.
abbrev pub started : ℕ → Runtime
started n = record {
  requests = empty_channel;
  responses = empty_channel;
  db_tasks = empty_channel;
  workers = n;
  busy = [];
  dispatcher = waiting;
  db_worker = waiting;
  owner = running;
  saved = [];
  unsaved = [];
  dispatched = [];
  dropped = [];
  refused = [];
}

-- What `create_runtime` asks for: blocks, queues and threads
pub data Resource : Type 0 where
  runtime_block db_queue request_queue response_queue thread_array db_thread dispatcher_thread :
      Resource
  http_thread : ℕ → Resource

-- The loop that makes the workers
unfoldable pub make_workers : (Resource → Bool) → ℕ → ℕ → Bool
make_workers can_make i zero = true
make_workers can_make i (suc n) =
    let rest = make_workers can_make (i + 1) n in can_make (http_thread i) && rest

-- When something cannot be made, what was made is destroyed, and the result is NULL.
unfoldable pub create_runtime : (Resource → Bool) → ℤ → Option Runtime
unfolding make_workers
create_runtime can_make (pos (suc n)) =
    if can_make runtime_block
      && can_make db_queue
      && can_make request_queue
      && can_make response_queue
      && can_make thread_array
      && can_make db_thread
      && can_make dispatcher_thread
      && make_workers can_make 0 (suc n)
    then some (started (suc n))
    else none
create_runtime can_make num_http_worker = none

abbrev pub task_ids : WorkerTask → List ℤ
task_ids task = elim task.request [ none ↦ [] | some req ↦ req.id ∷ [] ]

-- `dispatch_task` with `WORKER`, the only type that the program passes; what is refused stays
-- with the caller.
unfoldable pub dispatch_task : Bool → WorkerTask → Runtime → Bool × Runtime
dispatch_task malloc task s =
    let r = offer malloc task s.requests in
    (
      r.0,
      record s {
        requests = r.1;
        dispatched = if r.0 then s.dispatched ++ task_ids task else s.dispatched;
      },
    )

-- A response that is freed: for want of memory, or else because of the shutdown.
abbrev pub lose : Bool → Response → Runtime → Runtime
lose memory r s =
    if memory
    then record s { refused = s.refused ++ r.request_id ∷ [] }
    else record s { dropped = s.dropped ++ r.request_id ∷ [] }

-- `push_response_or_free`
unfoldable pub send_response : Bool → Response → Runtime → Runtime
send_response malloc response s =
    let r = offer malloc response s.responses in
    let t = record s { responses = r.1 } in if r.0 then t else lose malloc response t

-- The body of the loop of `dispatcher_routine`, behind `queue_pop`
unfoldable pub dispatch_response : Bool → Bool → Response → Runtime → Runtime
dispatch_response calloc malloc resp s =
    let r = offer malloc resp s.db_tasks in
    let t = record s { db_tasks = r.1 } in
    if calloc then (if r.0 then t else lose malloc resp t) else lose false resp s

-- The database as the list of the ids whose response was saved, beside those whose INSERT it
-- refused, of which the worker does not learn.
abbrev pub recorder : Bool → DbCalls (List ℤ × List ℤ)
recorder stored = record {
  db_save_request = λ req w. w;
  db_save_response = λ resp w.
      if stored then (w.0 ++ resp.request_id ∷ [], w.1) else (w.0, w.1 ++ resp.request_id ∷ []);
  db_save_collection = λ coll w. w;
  db_get_next_pending_request = λ w. (none, w);
  db_update_request_status = λ request_id code w. w;
  callback = λ req w. w;
}

abbrev pub save : Bool → Response → Runtime → Runtime
save stored resp s =
    let w = (handle_db_task (recorder stored) (save_response resp) (s.saved, s.unsaved)).1 in
    record s { saved = w.0; unsaved = w.1 }

pub data Turn : Runtime → Runtime → Type 0 where
  dispatch :
      (s : Runtime) (malloc : Bool) (task : WorkerTask)
      → s.owner ≡ running
      → Turn s (dispatch_task malloc task s).1
  take_task :
      (s : Runtime) (n : ℕ) (task : WorkerTask) (tasks : List WorkerTask)
      → s.requests.items ≡ task ∷ tasks
      → s.workers ≡ suc n
      → Turn s (record s {
        requests = record s.requests { items = tasks };
        workers = n;
        busy = task ∷ s.busy;
      })
  -- Any of the busy workers is through.
  respond :
      (s : Runtime) (malloc : Bool) (us vs : List WorkerTask) (task : WorkerTask) (r : Response)
      → s.busy ≡ us ++ task ∷ vs
      → task_ids task ≡ r.request_id ∷ []
      → Turn s (send_response malloc r (record s { workers = suc s.workers; busy = us ++ vs }))
  no_response :
      (s : Runtime) (us vs : List WorkerTask) (task : WorkerTask)
      → s.busy ≡ us ++ task ∷ vs
      → Turn s (record s {
        workers = suc s.workers;
        busy = us ++ vs;
        dropped = s.dropped ++ task_ids task;
      })
  worker_ends :
      (s : Runtime) (n : ℕ)
      → s.requests.items ≡ []
      → s.requests.closed ≡ true
      → s.workers ≡ suc n
      → Turn s (record s { workers = n })
  take_response :
      (s : Runtime) (r : Response) (rs : List Response)
      → s.responses.items ≡ r ∷ rs
      → s.dispatcher ≡ waiting
      → Turn s (record s { responses = record s.responses { items = rs }; dispatcher = holds r })
  pass_on :
      (s : Runtime) (calloc malloc : Bool) (r : Response)
      → s.dispatcher ≡ holds r
      → Turn s (dispatch_response calloc malloc r (record s { dispatcher = waiting }))
  dispatcher_ends :
      (s : Runtime)
      → s.responses.items ≡ []
      → s.responses.closed ≡ true
      → s.dispatcher ≡ waiting
      → Turn s (record s { dispatcher = ended })
  take_db_task :
      (s : Runtime) (r : Response) (rs : List Response)
      → s.db_tasks.items ≡ r ∷ rs
      → s.db_worker ≡ waiting
      → Turn s (record s { db_tasks = record s.db_tasks { items = rs }; db_worker = holds r })
  run_db_task :
      (s : Runtime) (stored : Bool) (r : Response)
      → s.db_worker ≡ holds r
      → Turn s (save stored r (record s { db_worker = waiting }))
  db_worker_ends :
      (s : Runtime)
      → s.db_tasks.items ≡ []
      → s.db_tasks.closed ≡ true
      → s.db_worker ≡ waiting
      → Turn s (record s { db_worker = ended })
  -- `destroy_runtime`: each queue is shut once the threads that fill it are joined.
  shut_requests :
      (s : Runtime)
      → s.owner ≡ running
      → Turn s (record s { requests = close s.requests; owner = joins_workers })
  shut_responses :
      (s : Runtime)
      → s.owner ≡ joins_workers
      → s.workers ≡ 0
      → s.busy ≡ []
      → Turn s (record s { responses = close s.responses; owner = joins_dispatcher })
  shut_db_tasks :
      (s : Runtime)
      → s.owner ≡ joins_dispatcher
      → s.dispatcher ≡ ended
      → Turn s (record s { db_tasks = close s.db_tasks; owner = joins_db })
  destroy :
      (s : Runtime)
      → s.owner ≡ joins_db
      → s.db_worker ≡ ended
      → Turn s (record s { owner = destroyed })

-- The states of a runtime that was created
pub data Reachable : Runtime → Type 0 where
  start :
      (can_make : Resource → Bool) (num_http_worker : ℤ) (s : Runtime)
      → create_runtime can_make num_http_worker ≡ some s
      → Reachable s
  then_step : (s t : Runtime) → Reachable s → Turn s t → Reachable t
