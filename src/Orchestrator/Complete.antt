-- ===== src/Orchestrator/Complete.antt =====
-- `destroy_runtime` of src/core/orchestrator.c loses no response, and ends.
use http_runtime.Base.{
  ℕ, suc, ◌+◌, ◌*◌, ◌≤◌, ◌<◌, Bool, true, false, List, [], ◌∷◌, ◌++◌, ◌≡◌, ◌≢◌, refl, ap, sym, ◌∙◌,
  inl, inr, ◌⊎◌, length, length-append, ℤ, arith,
}
use http_runtime.Models.{Response}
use http_runtime.Models.Create.{WorkerTask}
use http_runtime.Orchestrator.{offer, handle_db_task}
use http_runtime.Orchestrator.Pipeline.{
  Thread, waiting, holds, ended, Owner, running, joins_workers, joins_dispatcher, joins_db,
  destroyed, Runtime, send_response, dispatch_response, Turn, dispatch, take_task, respond,
  no_response, worker_ends, take_response, pass_on, dispatcher_ends, take_db_task, run_db_task,
  db_worker_ends, shut_requests, shut_responses, shut_db_tasks, destroy, Reachable,
}
use http_runtime.Orchestrator.Delivers.{
  tally, tasks_tally, responses_tally, held_tally, Reachable-Conserved,
}
use http_runtime.Orchestrator.Shutdown.{Order, is_ended, is_destroyed}
use http_runtime.Orchestrator.Turns.{Reachable-Order}

ended_now : {P : Type 0} (b : Bool) → b ≡ true → (b ≡ false) ⊎ P → P
ended_now b e (inl f) = absurd (let g = sym e ∙ f in cc)
ended_now b e (inr h) = h

is_ended-ended : (t : Thread) → is_ended t ≡ true → t ≡ ended
is_ended-ended waiting e = absurd (let f : false ≡ true = e in cc)
is_ended-ended (holds r) e = absurd (let f : false ≡ true = e in cc)
is_ended-ended ended e = refl

-- What is true of a destroyed runtime: every thread has ended, and every queue is empty.
abbrev AllEmpty : Runtime → Type 0
AllEmpty s =
    (s.requests.items ≡ [])
    × (s.busy ≡ [])
    × (s.responses.items ≡ [])
    × (s.dispatcher ≡ ended)
    × (s.db_tasks.items ≡ [])
    × (s.db_worker ≡ ended)

destroyed-AllEmpty : (s : Runtime) → Order s → s.owner ≡ destroyed → AllEmpty s
destroyed-AllEmpty s o e =
    let d = ended_now (is_destroyed s.owner) (ap is_destroyed e) o.over in
    let (q, c) = ended_now (is_ended s.db_worker) d o.stored in
    let d' = ended_now s.db_tasks.closed c o.passing in
    let (q', c') = ended_now (is_ended s.dispatcher) d' o.passed in
    let (w, b) = ended_now s.responses.closed c' o.working in
    (
      requests w (ap length b) o.served,
      b,
      q',
      is_ended-ended s.dispatcher d',
      q,
      is_ended-ended s.db_worker d,
    )
  where
    requests :
        {P Q : Type 0}
        → s.workers ≡ 0
        → length s.busy ≡ 0
        → (1 ≤ s.workers + length s.busy) ⊎ (P × Q)
        → P
    requests w b (inl l) = absurd (omega (arith, w, b, l))
    requests w b (inr h) = h.0

-- However the threads take turns, when `destroy_runtime` is through, the ids of the responses
-- saved in the database, of those whose INSERT the database refused, and of those freed for want
-- of memory are the ids of the requests that were dispatched, each as often; and no response was
-- refused because a queue was shut.
pub destroy_runtime-tally :
    (s : Runtime)
    → Reachable s
    → s.owner ≡ destroyed
    → (p : ℤ → Bool)
    → (tally p s.dispatched ≡ tally p s.saved + tally p s.unsaved + tally p s.dropped)
      × (s.refused ≡ [])
destroy_runtime-tally s k e p =
    let o = Reachable-Order s k in
    let (a1, a2, a3, a4, a5, a6) = destroyed-AllEmpty s o e in
    let b1 = ap (tasks_tally p) a1 in
    let b2 = ap (tasks_tally p) a2 in
    let b3 = ap (responses_tally p) a3 in
    let b4 = ap (held_tally p) a4 in
    let b5 = ap (responses_tally p) a5 in
    let b6 = ap (held_tally p) a6 in
    let b7 = ap (tally p) o.nothing_refused in
    let c = Reachable-Conserved p s k in
    (omega (arith, b1, b2, b3, b4, b5, b6, b7, c), o.nothing_refused)

abbrev thread_weight : Thread → ℕ
thread_weight waiting = 1
thread_weight (holds r) = 4
thread_weight ended = 0

abbrev db_weight : Thread → ℕ
db_weight waiting = 1
db_weight (holds r) = 2
db_weight ended = 0

abbrev owner_weight : Owner → ℕ
owner_weight running = 4
owner_weight joins_workers = 3
owner_weight joins_dispatcher = 2
owner_weight joins_db = 1
owner_weight destroyed = 0

-- A bound on the steps that are left, once no more tasks are dispatched
abbrev pub remaining : Runtime → ℕ
remaining s =
    6 * length s.requests.items
    + 6 * length s.busy
    + s.workers
    + 4 * length s.responses.items
    + thread_weight s.dispatcher
    + 2 * length s.db_tasks.items
    + db_weight s.db_worker
    + owner_weight s.owner

send_response-remaining :
    (malloc : Bool) (r : Response) (s : Runtime)
    → remaining (send_response malloc r s) ≤ remaining s + 4
unfolding send_response offer
send_response-remaining malloc r s =
    let a = length-append s.responses.items (r ∷ []) in ground arith

dispatch_response-remaining :
    (calloc malloc : Bool) (r : Response) (s : Runtime)
    → remaining (dispatch_response calloc malloc r s) ≤ remaining s + 2
unfolding dispatch_response offer
dispatch_response-remaining calloc malloc r s =
    let a = length-append s.db_tasks.items (r ∷ []) in ground arith

length-middle :
    (us vs : List WorkerTask) (task : WorkerTask)
    → length (us ++ task ∷ vs) ≡ suc (length (us ++ vs))
length-middle us vs task =
    let a = length-append us (task ∷ vs) in let b = length-append us vs in omega (arith, a, b)

pub Turn-remaining : (s t : Runtime) → Turn s t → s.owner ≢ running → remaining t < remaining s
unfolding handle_db_task
Turn-remaining _ _ (dispatch s malloc task o) n = absurd (n o)
Turn-remaining _ _ (take_task s m task tasks q w) n = let a = ap length q in omega (arith, a, w)
Turn-remaining _ _ (respond s malloc us vs task r b i) n =
    let t = record s { workers = suc s.workers; busy = us ++ vs } in
    let a = send_response-remaining malloc r t in
    let c = ap length b in let d = length-middle us vs task in omega (arith, a, c, d)
Turn-remaining _ _ (no_response s us vs task b) n =
    let c = ap length b in let d = length-middle us vs task in omega (arith, c, d)
Turn-remaining _ _ (worker_ends s m q c w) n = omega (arith, w)
Turn-remaining _ _ (take_response s r rs q d) n =
    let a = ap length q in let b = ap thread_weight d in omega (arith, a, b)
Turn-remaining _ _ (pass_on s calloc malloc r d) n =
    let t = record s { dispatcher = waiting } in
    let a = dispatch_response-remaining calloc malloc r t in
    let b = ap thread_weight d in omega (arith, a, b)
Turn-remaining _ _ (dispatcher_ends s q c d) n = let b = ap thread_weight d in omega (arith, b)
Turn-remaining _ _ (take_db_task s r rs q d) n =
    let a = ap length q in let b = ap db_weight d in omega (arith, a, b)
Turn-remaining _ _ (run_db_task s stored r d) n = let b = ap db_weight d in omega (arith, b)
Turn-remaining _ _ (db_worker_ends s q c d) n = let b = ap db_weight d in omega (arith, b)
Turn-remaining _ _ (shut_requests s o) n = absurd (n o)
Turn-remaining _ _ (shut_responses s o w b) n = let a = ap owner_weight o in omega (arith, a)
Turn-remaining _ _ (shut_db_tasks s o d) n = let a = ap owner_weight o in omega (arith, a)
Turn-remaining _ _ (destroy s o d) n = let a = ap owner_weight o in omega (arith, a)
