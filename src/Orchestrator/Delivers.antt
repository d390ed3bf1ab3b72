-- ===== src/Orchestrator/Delivers.antt =====
-- What becomes of the requests that a runtime of src/core/orchestrator.c takes.
use http_runtime.Base.{
  some, subst, sym, ℕ, zero, pos, negsuc, suc, ◌+◌, Bool, List, [], ◌∷◌, ◌++◌, ◌≡◌, ap,
  if◌then◌else◌, ℤ, arith,
}
use http_runtime.Models.{Response}
use http_runtime.Models.Create.{WorkerTask}
use http_runtime.Orchestrator.{offer, handle_db_task}
use http_runtime.Orchestrator.Pipeline.{
  Resource, started, create_runtime, Thread, waiting, holds, Runtime, task_ids, dispatch_task,
  send_response, dispatch_response, Turn, dispatch, take_task, respond, no_response, worker_ends,
  take_response, pass_on, dispatcher_ends, take_db_task, run_db_task, db_worker_ends, shut_requests,
  shut_responses, shut_db_tasks, destroy, Reachable, start, then_step,
}

pub created :
    (can_make : Resource → Bool) (num_http_worker : ℤ) (s : Runtime)
    → create_runtime can_make num_http_worker ≡ some s
    → (n : ℕ) × (s ≡ started (suc n))
unfolding create_runtime
created can_make (pos zero) s e = ground arith
created can_make (pos (suc n)) s e = (n, ground arith)
created can_make (negsuc n) s e = ground arith

module _ (p : ℤ → Bool) where
  -- How many of the ids pass `p`
  abbrev pub tally : List ℤ → ℕ
  tally [] = 0
  tally (id ∷ ids) = (if p id then 1 else 0) + tally ids

  tally-append : (xs ys : List ℤ) → tally (xs ++ ys) ≡ tally xs + tally ys
  tally-append [] ys = omega arith
  tally-append (x ∷ xs) ys = let e = tally-append xs ys in omega (arith, e)

  abbrev pub tasks_tally : List WorkerTask → ℕ
  tasks_tally [] = 0
  tasks_tally (task ∷ tasks) = tally (task_ids task) + tasks_tally tasks

  tasks_tally-append :
      (xs ys : List WorkerTask) → tasks_tally (xs ++ ys) ≡ tasks_tally xs + tasks_tally ys
  tasks_tally-append [] ys = omega arith
  tasks_tally-append (x ∷ xs) ys = let e = tasks_tally-append xs ys in omega (arith, e)

  abbrev pub responses_tally : List Response → ℕ
  responses_tally [] = 0
  responses_tally (r ∷ rs) = tally (r.request_id ∷ []) + responses_tally rs

  responses_tally-append :
      (xs ys : List Response) → responses_tally (xs ++ ys) ≡ responses_tally xs + responses_tally ys
  responses_tally-append [] ys = omega arith
  responses_tally-append (x ∷ xs) ys = let e = responses_tally-append xs ys in omega (arith, e)

  abbrev pub held_tally : Thread → ℕ
  held_tally (holds r) = tally (r.request_id ∷ [])
  held_tally _ = 0

  -- Everywhere that the id of a dispatched request can be
  abbrev pub total : Runtime → ℕ
  total s =
      tasks_tally s.requests.items
      + tasks_tally s.busy
      + responses_tally s.responses.items
      + held_tally s.dispatcher
      + responses_tally s.db_tasks.items
      + held_tally s.db_worker
      + tally s.saved
      + tally s.unsaved
      + tally s.dropped
      + tally s.refused

  send_response-total :
      (malloc : Bool) (r : Response) (s : Runtime)
      → total (send_response malloc r s) ≡ total s + tally (r.request_id ∷ [])
  unfolding send_response offer
  send_response-total malloc r s =
      let a = responses_tally-append s.responses.items (r ∷ []) in
      let b = tally-append s.dropped (r.request_id ∷ []) in
      let c = tally-append s.refused (r.request_id ∷ []) in ground arith

  dispatch_response-total :
      (calloc malloc : Bool) (r : Response) (s : Runtime)
      → total (dispatch_response calloc malloc r s) ≡ total s + tally (r.request_id ∷ [])
  unfolding dispatch_response offer
  dispatch_response-total calloc malloc r s =
      let a = responses_tally-append s.db_tasks.items (r ∷ []) in
      let b = tally-append s.dropped (r.request_id ∷ []) in
      let c = tally-append s.refused (r.request_id ∷ []) in ground arith

  dispatch_task-total :
      (malloc : Bool) (task : WorkerTask) (s : Runtime)
      → tally s.dispatched ≡ total s
      → (let t = (dispatch_task malloc task s).1 in tally t.dispatched ≡ total t)
  unfolding dispatch_task offer
  dispatch_task-total malloc task s e =
      let a = tasks_tally-append s.requests.items (task ∷ []) in
      let b = tally-append s.dispatched (task_ids task) in ground arith

  abbrev pub Conserved : Runtime → Type 0
  Conserved s = tally s.dispatched ≡ total s

  tasks_tally-middle :
      (us vs : List WorkerTask) (task : WorkerTask)
      → tasks_tally (us ++ task ∷ vs) ≡ tasks_tally (us ++ vs) + tally (task_ids task)
  tasks_tally-middle us vs task =
      let a = tasks_tally-append us (task ∷ vs) in
      let b = tasks_tally-append us vs in omega (arith, a, b)

  send_response-dispatched :
      (malloc : Bool) (r : Response) (s : Runtime)
      → (send_response malloc r s).dispatched ≡ s.dispatched
  unfolding send_response offer
  send_response-dispatched malloc r s = ground arith

  dispatch_response-dispatched :
      (calloc malloc : Bool) (r : Response) (s : Runtime)
      → (dispatch_response calloc malloc r s).dispatched ≡ s.dispatched
  unfolding dispatch_response offer
  dispatch_response-dispatched calloc malloc r s = ground arith

  Turn-Conserved : (s t : Runtime) → Turn s t → Conserved s → Conserved t
  unfolding handle_db_task
  Turn-Conserved _ _ (dispatch s malloc task o) e = dispatch_task-total malloc task s e
  Turn-Conserved _ _ (take_task s n task tasks q w) e =
      let a = ap tasks_tally q in omega (arith, e, a)
  Turn-Conserved _ _ (respond s malloc us vs task r b i) e =
      let t = record s { workers = suc s.workers; busy = us ++ vs } in
      let a = send_response-total malloc r t in
      let c = tasks_tally-middle us vs task in
      let d = ap tasks_tally b in
      let f = ap tally i in
      let g = ap tally (send_response-dispatched malloc r t) in omega (arith, a, c, d, e, f, g)
  Turn-Conserved _ _ (no_response s us vs task b) e =
      let a = tally-append s.dropped (task_ids task) in
      let c = tasks_tally-middle us vs task in let d = ap tasks_tally b in omega (arith, a, c, d, e)
  Turn-Conserved _ _ (worker_ends s n q c w) e = e
  Turn-Conserved _ _ (take_response s r rs q d) e =
      let a = ap responses_tally q in let b = ap held_tally d in omega (arith, a, b, e)
  Turn-Conserved _ _ (pass_on s calloc malloc r d) e =
      let t = record s { dispatcher = waiting } in
      let a = dispatch_response-total calloc malloc r t in
      let b = ap held_tally d in
      let g = ap tally (dispatch_response-dispatched calloc malloc r t) in omega (arith, a, b, e, g)
  Turn-Conserved _ _ (dispatcher_ends s q c d) e = let b = ap held_tally d in omega (arith, b, e)
  Turn-Conserved _ _ (take_db_task s r rs q d) e =
      let a = ap responses_tally q in let b = ap held_tally d in omega (arith, a, b, e)
  Turn-Conserved _ _ (run_db_task s stored r d) e =
      let a = tally-append s.saved (r.request_id ∷ []) in
      let c = tally-append s.unsaved (r.request_id ∷ []) in let b = ap held_tally d in ground arith
  Turn-Conserved _ _ (db_worker_ends s q c d) e = let b = ap held_tally d in omega (arith, b, e)
  Turn-Conserved _ _ (shut_requests s o) e = e
  Turn-Conserved _ _ (shut_responses s o w b) e = e
  Turn-Conserved _ _ (shut_db_tasks s o d) e = e
  Turn-Conserved _ _ (destroy s o d) e = e

  pub Reachable-Conserved : (s : Runtime) → Reachable s → Conserved s
  Reachable-Conserved _ (start can_make n s e) =
      let (k, f) = created can_make n s e in subst Conserved (sym f) (omega arith)
  Reachable-Conserved _ (then_step s t r k) = Turn-Conserved s t k (Reachable-Conserved s r)
