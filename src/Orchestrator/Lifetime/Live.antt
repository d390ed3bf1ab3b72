-- ===== src/Orchestrator/Lifetime/Live.antt =====
-- What a runtime has of the system, by the log of the calls in src/core/orchestrator.c.
use http_runtime.Base.{
  ℕ, ◌+◌, Bool, true, false, ◌&&◌, Option, none, some, [], ◌∷◌, ◌==◌, ltb, if◌then◌else◌,
}
use http_runtime.Orchestrator.Lifetime.{
  requests, responses, db_tasks, runtime_block, threads_block, queue, db_worker, dispatcher,
  http_worker, Act, asked, queue_shutdown, destroy_queue, pthread_join, free_threads, free_runtime,
  Log, RuntimeParts,
}

pub data Line : Type 0 where
  absent in_use shut : Line

-- The queues of requests, responses and tasks; the length of the array of threads; the workers
-- that were started and that were joined; whether the dispatcher and the database's worker run.
pub data Live : Type 0 where
  nothing : Live
  live : Line → Line → Line → Option ℕ → ℕ → ℕ → Bool → Bool → Live

abbrev pub allow : Bool → Live → Option Live
allow b l = if b then some l else none

-- What a call leaves; `none` is a misuse. A thread is started when the queues it uses are open,
-- and joined when the queue it pops is shut, so that it ends. A queue is shut when the threads
-- that push to it are joined, and destroyed when those that pop from it are as well. A worker's
-- place is in the array.
abbrev pub step : Act → Live → Option Live
step (asked r false) l = some l
step (asked runtime_block true) nothing = some (live absent absent absent none 0 0 false false)
step (asked (queue requests) true) (live absent r d b s j x y) = some (live in_use r d b s j x y)
step (asked (queue responses) true) (live q absent d b s j x y) = some (live q in_use d b s j x y)
step (asked (queue db_tasks) true) (live q r absent b s j x y) = some (live q r in_use b s j x y)
step (asked (threads_block m) true) (live q r d none s j x y) = some (live q r d (some m) s j x y)
step (asked db_worker true) (live q r in_use b s j x false) = some (live q r in_use b s j x true)
step (asked dispatcher true) (live q in_use in_use b s j false y) =
    some (live q in_use in_use b s j true y)
step (asked (http_worker i) true) (live in_use in_use d (some m) s j x y) =
    allow (i == s && ltb i m) (live in_use in_use d (some m) (s + 1) j x y)
step (queue_shutdown requests) (live in_use r d b s j x y) = some (live shut r d b s j x y)
step (queue_shutdown responses) (live q in_use d b s j x y) =
    allow (s == j) (live q shut d b s j x y)
step (queue_shutdown db_tasks) (live q r in_use b s j false y) = some (live q r shut b s j false y)
step (pthread_join (http_worker i)) (live shut r d b s j x y) =
    allow (i == j && ltb i s) (live shut r d b s (j + 1) x y)
step (pthread_join dispatcher) (live q shut d b s j true y) = some (live q shut d b s j false y)
step (pthread_join db_worker) (live q r shut b s j x true) = some (live q r shut b s j x false)
step (destroy_queue requests) (live shut r d b s j x y) = allow (s == j) (live absent r d b s j x y)
step (destroy_queue responses) (live q shut d b s j false y) =
    allow (s == j) (live q absent d b s j false y)
step (destroy_queue db_tasks) (live q r shut b s j false false) =
    some (live q r absent b s j false false)
step free_threads (live q r d (some m) s j x y) = allow (s == j) (live q r d none s j x y)
step free_runtime (live absent absent absent none s j false false) = allow (s == j) nothing
step _ _ = none

abbrev pub then_step : Act → Option Live → Option Live
then_step act none = none
then_step act (some l) = step act l

unfoldable pub live_after : Log → Option Live
live_after [] = some nothing
live_after (act ∷ log) = then_step act (live_after log)

abbrev pub usable : Bool → Line
usable b = if b then in_use else absent

abbrev pub shut_line : Bool → Line
shut_line b = if b then shut else absent

abbrev pub array : ℕ → Bool → Option ℕ
array n b = if b then some n else none

-- What a runtime with `n` workers says that it has
abbrev pub live_of : ℕ → RuntimeParts → Live
live_of n o =
    live (usable o.request_queue) (usable o.response_queue) (usable o.db_queue)
      (array n o.http_worker_threads) o.http_worker_count 0 o.dispatcher_started o.db_worker_started
