-- ===== src/Tests/Lifetime.antt =====
-- Runtimes that are made and destroyed, with a thread that cannot be started and without.
use http_runtime.Base.{suc, Bool, true, false, some, none, [], ◌∷◌, ◌≡◌, refl, pos}
use http_runtime.Exec.{pure, ◌>>=◌}
use http_runtime.Orchestrator.Lifetime.{
  SystemResource, http_worker, db_worker, dispatcher, requests, responses, db_tasks, queue_shutdown,
  destroy_queue, pthread_join, free_threads, free_runtime, Log, RuntimeParts, create_runtime,
  obtain, set_up, start_workers, destroy_runtime, join_workers,
}
use http_runtime.Orchestrator.Lifetime.Live.{nothing, live_after}
use http_runtime.Orchestrator.Lifetime.Clean.{Complete, gone, create_runtime-Complete}
use http_runtime.Orchestrator.Lifetime.Granted.{create_runtime-some}

-- Every thread but the workers behind the first
abbrev one_worker : Log → SystemResource → Bool
one_worker log (http_worker (suc i)) = false
one_worker log _ = true

gives_up : (create_runtime one_worker (pos 2) []).0 ≡ none
unfolding create_runtime set_up obtain start_workers pure ◌>>=◌
gives_up = refl

abbrev whole : RuntimeParts
whole = record {
  db_queue = true;
  request_queue = true;
  response_queue = true;
  http_worker_threads = true;
  http_worker_count = 1;
  is_running = true;
  db_worker_started = true;
  dispatcher_started = true;
}

-- The calls of `destroy_runtime`, newest first
in_order :
    destroy_runtime whole []
    ≡ free_runtime
      ∷ free_threads
      ∷ destroy_queue db_tasks
      ∷ destroy_queue responses
      ∷ destroy_queue requests
      ∷ pthread_join db_worker
      ∷ queue_shutdown db_tasks
      ∷ pthread_join dispatcher
      ∷ queue_shutdown responses
      ∷ pthread_join (http_worker 0)
      ∷ queue_shutdown requests
      ∷ []
unfolding destroy_runtime join_workers
in_order = refl

create_runtime-Complete_example :
    Complete (pos 2) (create_runtime one_worker (pos 2) [])
    × (live_after (gone (create_runtime one_worker (pos 2) [])) ≡ some nothing)
unfolding live_after
create_runtime-Complete_example = create_runtime-Complete one_worker (pos 2) [] refl

create_runtime-some_example :
    (o : RuntimeParts) × ((create_runtime (λ log r. true) (pos 2) []).0 ≡ some o)
create_runtime-some_example = create_runtime-some (λ log r. true) (λ log r. refl) 1 []
