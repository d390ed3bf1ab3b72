-- ===== src/Orchestrator/Shutdown.antt =====
-- The order in which `destroy_runtime` of src/core/orchestrator.c shuts the queues.
use http_runtime.Base.{
  ◌+◌, ◌≤◌, Bool, true, false, List, [], ◌∷◌, ◌++◌, ◌≡◌, ◌≢◌, ap, sym, ◌∙◌, subst, inl, inr, ◌⊎◌,
  length, arith,
}
use http_runtime.Models.{Response}
use http_runtime.Models.Create.{WorkerTask}
use http_runtime.Orchestrator.{offer}
use http_runtime.Orchestrator.Pipeline.{
  Thread, holds, ended, Owner, running, joins_workers, joins_dispatcher, joins_db, destroyed,
  Runtime, dispatch_task, send_response, dispatch_response,
}

abbrev pub is_ended : Thread → Bool
is_ended ended = true
is_ended _ = false

abbrev pub is_destroyed : Owner → Bool
is_destroyed destroyed = true
is_destroyed _ = false

-- Which queue is shut last
abbrev pub Closing : Bool → Bool → Bool → Owner → Type 0
Closing requests responses db_tasks joins_workers = requests ≡ true
Closing requests responses db_tasks joins_dispatcher = responses ≡ true
Closing requests responses db_tasks joins_db = db_tasks ≡ true
Closing requests responses db_tasks _ = Unit {0}

-- A thread has ended only behind a queue that is shut and empty, and a queue is shut only when
-- the threads that fill it have ended.
pub record Order (s : Runtime) : Type 0 where
  pub served :
      (1 ≤ s.workers + length s.busy) ⊎ ((s.requests.items ≡ []) × (s.requests.closed ≡ true))
  pub working : (s.responses.closed ≡ false) ⊎ ((s.workers ≡ 0) × (s.busy ≡ []))
  pub passed :
      (is_ended s.dispatcher ≡ false) ⊎ ((s.responses.items ≡ []) × (s.responses.closed ≡ true))
  pub passing : (s.db_tasks.closed ≡ false) ⊎ (is_ended s.dispatcher ≡ true)
  pub stored :
      (is_ended s.db_worker ≡ false) ⊎ ((s.db_tasks.items ≡ []) × (s.db_tasks.closed ≡ true))
  pub over : (is_destroyed s.owner ≡ false) ⊎ (is_ended s.db_worker ≡ true)
  pub closing : Closing s.requests.closed s.responses.closed s.db_tasks.closed s.owner
  pub nothing_refused : s.refused ≡ []

pub not_empty : (us vs : List WorkerTask) (task : WorkerTask) → us ++ task ∷ vs ≢ []
not_empty [] vs task e = let f = ap length e in omega (arith, f)
not_empty (u ∷ us) vs task e = let f = ap length e in omega (arith, f)

-- A worker is busy, so that the queue of responses is open.
pub busy_open :
    (s : Runtime) (us vs : List WorkerTask) (task : WorkerTask)
    → Order s
    → s.busy ≡ us ++ task ∷ vs
    → s.responses.closed ≡ false
busy_open s us vs task o e = elim o.working [
  | inl c ↦ c
  | inr w ↦ absurd (not_empty us vs task (sym e ∙ w.1))
]

-- The dispatcher holds a response, so that the queue of the database is open.
pub holds_open :
    (s : Runtime) (r : Response) → Order s → s.dispatcher ≡ holds r → s.db_tasks.closed ≡ false
holds_open s r o e = elim o.passing [
  | inl c ↦ c
  | inr d ↦ absurd (let f = ap is_ended e in let g = sym f ∙ d in cc)
]

-- A thread that has ended has left a queue that is shut.
pub open_running :
    {P : Type 0} (t : Thread) (closed : Bool)
    → closed ≡ false
    → (is_ended t ≡ false) ⊎ (P × (closed ≡ true))
    → is_ended t ≡ false
open_running t closed c (inl h) = h
open_running t closed c (inr (q, d)) = absurd (let f = sym c ∙ d in cc)

pub dispatch-Order :
    (malloc : Bool) (task : WorkerTask) (s : Runtime)
    → s.owner ≡ running
    → Order s
    → Order (dispatch_task malloc task s).1
unfolding dispatch_task offer
dispatch-Order malloc task s e o = record {
  served = let h = o.served in ground arith;
  working = o.working;
  passed = o.passed;
  passing = o.passing;
  stored = o.stored;
  over = o.over;
  closing = subst (Closing _ _ _) (sym e) tt;
  nothing_refused = o.nothing_refused;
}

abbrev pub sent : Bool → Response → Runtime → Runtime
sent true r s = record s { responses = record s.responses { items = s.responses.items ++ r ∷ [] } }
sent false r s = record s { dropped = s.dropped ++ r.request_id ∷ [] }

pub send_open :
    (malloc : Bool) (r : Response) (s : Runtime)
    → s.responses.closed ≡ false
    → send_response malloc r s ≡ sent malloc r s
unfolding send_response offer
send_open true r s e = ground arith
send_open false r s e = ground arith

-- The other fields of the record are as before.
pub freed-Order :
    (r : Response) (s : Runtime)
    → Order s
    → Order (record s { dropped = s.dropped ++ r.request_id ∷ [] })
freed-Order r s o = record {
  served = o.served;
  working = o.working;
  passed = o.passed;
  passing = o.passing;
  stored = o.stored;
  over = o.over;
  closing = o.closing;
  nothing_refused = o.nothing_refused;
}

pub sent-Order :
    (malloc : Bool) (r : Response) (s : Runtime)
    → s.responses.closed ≡ false
    → Order s
    → Order (sent malloc r s)
sent-Order true r s c o = record {
  served = o.served;
  working = inl c;
  passed = inl (open_running s.dispatcher s.responses.closed c o.passed);
  passing = o.passing;
  stored = o.stored;
  over = o.over;
  closing = o.closing;
  nothing_refused = o.nothing_refused;
}
sent-Order false r s c o = freed-Order r s o

abbrev pub passed_on : Bool → Bool → Response → Runtime → Runtime
passed_on true true r s = record s {
  db_tasks = record s.db_tasks { items = s.db_tasks.items ++ r ∷ [] };
}
passed_on _ _ r s = record s { dropped = s.dropped ++ r.request_id ∷ [] }

pub pass_open :
    (calloc malloc : Bool) (r : Response) (s : Runtime)
    → s.db_tasks.closed ≡ false
    → dispatch_response calloc malloc r s ≡ passed_on calloc malloc r s
unfolding dispatch_response offer
pass_open true true r s e = ground arith
pass_open true false r s e = ground arith
pass_open false true r s e = ground arith
pass_open false false r s e = ground arith

pub passed_on-Order :
    (calloc malloc : Bool) (r : Response) (s : Runtime)
    → s.db_tasks.closed ≡ false
    → Order s
    → Order (passed_on calloc malloc r s)
passed_on-Order true true r s c o = record {
  served = o.served;
  working = o.working;
  passed = o.passed;
  passing = inl c;
  stored = inl (open_running s.db_worker s.db_tasks.closed c o.stored);
  over = o.over;
  closing = o.closing;
  nothing_refused = o.nothing_refused;
}
passed_on-Order true false r s c o = freed-Order r s o
passed_on-Order false true r s c o = freed-Order r s o
passed_on-Order false false r s c o = freed-Order r s o
