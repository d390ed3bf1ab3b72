-- ===== src/Orchestrator/Lifetime.antt =====
-- src/core/orchestrator.c: what `create_runtime` takes of the system, with the way to its label
-- `cleanup`, and what `destroy_runtime` gives back. Its calls are logged, newest first; whether a
-- request is granted is a parameter, a function of the log and of the request.
pub mod Live
pub mod Destroyed
pub mod Clean
pub mod Granted
use http_runtime.Base.{
  ℕ, zero, suc, ◌+◌, Bool, true, false, ◌&&◌, Option, none, some, List, [], ◌∷◌, ◌==◌, ltb,
  if◌then◌else◌, ℤ, pos,
}
use http_runtime.Exec.{Exec, ok, failure, Result, pure, ◌>>=◌, ◌>>◌}

pub data QueueName : Type 0 where
  requests responses db_tasks : QueueName

pub data SystemResource : Type 0 where
  runtime_block : SystemResource
  threads_block : ℕ → SystemResource
  queue : QueueName → SystemResource
  db_worker dispatcher : SystemResource
  http_worker : ℕ → SystemResource

pub data Act : Type 0 where
  asked : SystemResource → Bool → Act
  queue_shutdown destroy_queue : QueueName → Act
  pthread_join : SystemResource → Act
  free_threads free_runtime : Act

abbrev pub Log : Type 0
Log = List Act

-- A field is whether the pointer is not NULL.
pub record RuntimeParts : Type 0 where
  pub db_queue : Bool
  pub request_queue : Bool
  pub response_queue : Bool
  pub http_worker_threads : Bool
  pub http_worker_count : ℕ
  pub is_running : Bool
  pub db_worker_started : Bool
  pub dispatcher_started : Bool

-- `calloc`
abbrev pub empty_runtime : RuntimeParts
empty_runtime = record {
  db_queue = false;
  request_queue = false;
  response_queue = false;
  http_worker_threads = false;
  http_worker_count = 0;
  is_running = false;
  db_worker_started = false;
  dispatcher_started = false;
}

abbrev pub act_if : Bool → Act → Log → Log
act_if b act log = if b then act ∷ log else log

-- The workers from `i` on
unfoldable pub join_workers : ℕ → ℕ → Log → Log
join_workers zero i log = log
join_workers (suc left) i log = join_workers left (i + 1) (pthread_join (http_worker i) ∷ log)

-- `destroy_queue` and `free` do nothing with NULL.
unfoldable pub destroy_runtime : RuntimeParts → Log → Log
destroy_runtime o log =
    let without_workers =
      join_workers o.http_worker_count 0 (act_if o.request_queue (queue_shutdown requests) log) in
    let without_dispatcher =
      act_if o.dispatcher_started (pthread_join dispatcher)
        (act_if o.response_queue (queue_shutdown responses) without_workers) in
    let without_threads =
      act_if o.db_worker_started (pthread_join db_worker)
        (act_if o.db_queue (queue_shutdown db_tasks) without_dispatcher) in
    let without_queues = act_if o.db_queue (destroy_queue db_tasks) (
      act_if o.response_queue (destroy_queue responses)
        (act_if o.request_queue (destroy_queue requests) without_threads)) in
    free_runtime ∷ act_if o.http_worker_threads free_threads without_queues

module _ (grants : Log → SystemResource → Bool) where
  -- A request, what is stored when it is granted, and `goto cleanup` when not
  unfoldable pub obtain :
      SystemResource → (RuntimeParts → RuntimeParts) → Exec (RuntimeParts × Log) (Unit {0})
  obtain resource store (o, log) =
      let granted = grants log resource in
      if granted
      then (ok tt, (store o, asked resource granted ∷ log))
      else (failure, (o, asked resource granted ∷ log))

  -- The loop over the workers, from `i` on
  unfoldable pub start_workers : ℕ → ℕ → Exec (RuntimeParts × Log) (Unit {0})
  start_workers zero i = pure tt
  start_workers (suc left) i = do
    obtain (http_worker i) (λ o. record o { http_worker_count = o.http_worker_count + 1 })
    start_workers left (i + 1)

  unfoldable pub set_up : ℕ → Exec (RuntimeParts × Log) (Unit {0})
  set_up num_http_worker = do
    obtain (queue db_tasks) (λ o. record o { db_queue = true })
    obtain (queue requests) (λ o. record o { request_queue = true })
    obtain (queue responses) (λ o. record o { response_queue = true })
    obtain (threads_block num_http_worker) (λ o. record o { http_worker_threads = true })
    obtain db_worker (λ o. record o { db_worker_started = true })
    obtain dispatcher (λ o. record o { dispatcher_started = true })
    start_workers num_http_worker 0

  -- The end of the function: the runtime, or `cleanup`
  abbrev pub returned : Result (Unit {0}) × (RuntimeParts × Log) → Option RuntimeParts × Log
  returned (ok u, (o, log)) = (some (record o { is_running = true }), log)
  returned (failure, (o, log)) = (none, destroy_runtime o log)

  unfoldable pub create_runtime : ℤ → Log → Option RuntimeParts × Log
  create_runtime (pos (suc n)) log =
      let granted = grants log runtime_block in
      let asked_log = asked runtime_block granted ∷ log in
      let set = returned (set_up (suc n) (empty_runtime, asked_log)) in
      if granted then set else (none, asked_log)
  create_runtime num_http_worker log = (none, log)
