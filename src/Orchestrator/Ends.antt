-- ===== src/Orchestrator/Ends.antt =====
-- `destroy_runtime` of src/core/orchestrator.c comes to its end.
use http_runtime.Base.{
  ℕ, zero, suc, ◌≤◌, Bool, true, false, List, [], ◌∷◌, ◌≡◌, ◌≢◌, refl, ap, sym, ◌∙◌, subst, inl,
  inr, ◌⊎◌, arith,
}
use http_runtime.Models.{Response}
use http_runtime.Models.Create.{WorkerTask}
use http_runtime.Orchestrator.{offer}
use http_runtime.Orchestrator.Pipeline.{
  Thread, waiting, holds, ended, Owner, running, joins_workers, joins_dispatcher, joins_db,
  destroyed, Runtime, send_response, dispatch_response, Turn, dispatch, take_task, respond,
  no_response, worker_ends, take_response, pass_on, dispatcher_ends, take_db_task, run_db_task,
  db_worker_ends, shut_requests, shut_responses, shut_db_tasks, destroy, Reachable, then_step,
}
use http_runtime.Orchestrator.Shutdown.{Order, Closing}
use http_runtime.Orchestrator.Turns.{Reachable-Order}
use http_runtime.Orchestrator.Complete.{remaining, Turn-remaining}

abbrev Moves : Runtime → Type 0
Moves s = (t : Runtime) × Turn s t

-- A worker, or the owner that waits for the workers
workers-Moves :
    (s : Runtime) (n : ℕ) (items busy : List WorkerTask)
    → s.owner ≡ joins_workers
    → s.requests.closed ≡ true
    → s.workers ≡ n
    → s.requests.items ≡ items
    → s.busy ≡ busy
    → Moves s
workers-Moves s (suc n) [] busy o c w q b = (_, worker_ends s n q c w)
workers-Moves s (suc n) (task ∷ tasks) busy o c w q b = (_, take_task s n task tasks q w)
workers-Moves s zero items [] o c w q b = (_, shut_responses s o w b)
workers-Moves s zero items (task ∷ tasks) o c w q b = (_, no_response s [] tasks task b)

dispatcher-Moves :
    (s : Runtime) (d : Thread) (items : List Response)
    → s.owner ≡ joins_dispatcher
    → s.responses.closed ≡ true
    → s.dispatcher ≡ d
    → s.responses.items ≡ items
    → Moves s
dispatcher-Moves s waiting [] o c d q = (_, dispatcher_ends s q c d)
dispatcher-Moves s waiting (r ∷ rs) o c d q = (_, take_response s r rs q d)
dispatcher-Moves s (holds r) items o c d q = (_, pass_on s true true r d)
dispatcher-Moves s ended items o c d q = (_, shut_db_tasks s o d)

db_worker-Moves :
    (s : Runtime) (d : Thread) (items : List Response)
    → s.owner ≡ joins_db
    → s.db_tasks.closed ≡ true
    → s.db_worker ≡ d
    → s.db_tasks.items ≡ items
    → Moves s
db_worker-Moves s waiting [] o c d q = (_, db_worker_ends s q c d)
db_worker-Moves s waiting (r ∷ rs) o c d q = (_, take_db_task s r rs q d)
db_worker-Moves s (holds r) items o c d q = (_, run_db_task s true r d)
db_worker-Moves s ended items o c d q = (_, destroy s o d)

Order-Moves : (s : Runtime) → Order s → (s.owner ≡ destroyed) ⊎ Moves s
Order-Moves s o = at s.owner refl
  where
    closed :
        (w : Owner) → s.owner ≡ w → Closing s.requests.closed s.responses.closed s.db_tasks.closed w
    closed w e = subst (Closing _ _ _) e o.closing

    at : (w : Owner) → s.owner ≡ w → (s.owner ≡ destroyed) ⊎ Moves s
    at running e = inr (_, shut_requests s e)
    at joins_workers e = inr (
        workers-Moves s s.workers s.requests.items s.busy e (closed joins_workers e) refl refl refl)
    at joins_dispatcher e =
        inr (
          dispatcher-Moves s s.dispatcher s.responses.items e (closed joins_dispatcher e) refl refl)
    at joins_db e =
        inr (db_worker-Moves s s.db_worker s.db_tasks.items e (closed joins_db e) refl refl)
    at destroyed e = inl e

-- As many steps in turn
pub data Run : ℕ → Runtime → Runtime → Type 0 where
  stop : (s : Runtime) → Run 0 s s
  go : (n : ℕ) (s t u : Runtime) → Turn s t → Run n t u → Run (suc n) s u

abbrev is_running : Owner → Bool
is_running running = true
is_running _ = false

send_response-owner :
    (malloc : Bool) (r : Response) (s : Runtime) → (send_response malloc r s).owner ≡ s.owner
unfolding send_response offer
send_response-owner malloc r s = ground arith

dispatch_response-owner :
    (calloc malloc : Bool) (r : Response) (s : Runtime)
    → (dispatch_response calloc malloc r s).owner ≡ s.owner
unfolding dispatch_response offer
dispatch_response-owner calloc malloc r s = ground arith

-- The owner never goes back.
Turn-stops : (s t : Runtime) → Turn s t → s.owner ≢ running → t.owner ≢ running
Turn-stops _ _ (dispatch s malloc task o) n = absurd (n o)
Turn-stops _ _ (take_task s m task tasks q w) n = n
Turn-stops _ _ (respond s malloc us vs task r b i) n =
    λ e. n (sym (send_response-owner malloc r _) ∙ e)
Turn-stops _ _ (no_response s us vs task b) n = n
Turn-stops _ _ (worker_ends s m q c w) n = n
Turn-stops _ _ (take_response s r rs q d) n = n
Turn-stops _ _ (pass_on s calloc malloc r d) n =
    λ e. n (sym (dispatch_response-owner calloc malloc r _) ∙ e)
Turn-stops _ _ (dispatcher_ends s q c d) n = n
Turn-stops _ _ (take_db_task s r rs q d) n = n
Turn-stops _ _ (run_db_task s stored r d) n = n
Turn-stops _ _ (db_worker_ends s q c d) n = n
Turn-stops _ _ (shut_requests s o) n = absurd (n o)
Turn-stops _ _ (shut_responses s o w b) n = λ e. absurd (let f = ap is_running e in cc)
Turn-stops _ _ (shut_db_tasks s o d) n = λ e. absurd (let f = ap is_running e in cc)
Turn-stops _ _ (destroy s o d) n = λ e. absurd (let f = ap is_running e in cc)

-- From the call of `destroy_runtime` on, the threads can take at most `remaining` steps more, in
-- whatever turns; and as long as the runtime is not destroyed, some thread can take one.
pub destroy_runtime-ends :
    (n : ℕ) (s t : Runtime)
    → Reachable s
    → s.owner ≢ running
    → Run n s t
    → (n ≤ remaining s) × ((t.owner ≡ destroyed) ⊎ ((u : Runtime) × Turn t u))
destroy_runtime-ends _ _ _ k o (stop s) = (omega arith, Order-Moves s (Reachable-Order s k))
destroy_runtime-ends _ _ _ k o (go n s t u step run) =
    let (l, m) = destroy_runtime-ends n t u (then_step s t k step) (Turn-stops s t step o) run in
    let less = Turn-remaining s t step o in (omega (arith, l, less), m)
