-- ===== src/Orchestrator/Turns.antt =====
-- Each turn of a thread of src/core/orchestrator.c keeps the order of the ends.
use http_runtime.Base.{
  ℕ, suc, ◌+◌, ◌≤◌, true, false, List, [], ◌∷◌, ◌++◌, ◌≡◌, refl, ap, sym, ◌∙◌, subst, inl, inr, ◌⊎◌,
  length, ℤ, arith,
}
use http_runtime.Models.Create.{WorkerTask}
use http_runtime.Orchestrator.{handle_db_task}
use http_runtime.Orchestrator.Delivers.{created}
use http_runtime.Orchestrator.Pipeline.{
  Thread, waiting, Runtime, started, task_ids, Turn, dispatch, take_task, respond, no_response,
  worker_ends, take_response, pass_on, dispatcher_ends, take_db_task, run_db_task, db_worker_ends,
  shut_requests, shut_responses, shut_db_tasks, destroy, Reachable, start, then_step,
}
use http_runtime.Orchestrator.Shutdown.{
  Order, is_ended, is_destroyed, busy_open, holds_open, dispatch-Order, send_open, sent-Order,
  pass_open, passed_on-Order,
}

-- A worker is through with its task, and back before the queue.
worker_back :
    (ids : List ℤ) (us vs : List WorkerTask) (s : Runtime)
    → s.responses.closed ≡ false
    → Order s
    → Order (record s { workers = suc s.workers; busy = us ++ vs; dropped = s.dropped ++ ids })
worker_back ids us vs s c o = record {
  served = inl (omega arith);
  working = inl c;
  passed = o.passed;
  passing = o.passing;
  stored = o.stored;
  over = o.over;
  closing = o.closing;
  nothing_refused = o.nothing_refused;
}

ended_waits : {P : Type 0} (t : Thread) → t ≡ waiting → (is_ended t ≡ true) → P
ended_waits t e f = absurd (let g = ap is_ended e in let h = sym g ∙ f in cc)

taken :
    (s : Runtime) (n : ℕ) (task : WorkerTask)
    → s.workers ≡ suc n
    → Order s
    → (s.responses.closed ≡ false) ⊎ ((n ≡ 0) × (task ∷ s.busy ≡ []))
taken s n task w o = elim o.working [
  | inl c ↦ inl c
  | inr h ↦ absurd (let e = h.0 in omega (arith, w, e))
]

left :
    (s : Runtime) (n : ℕ)
    → s.workers ≡ suc n
    → Order s
    → (s.responses.closed ≡ false) ⊎ ((n ≡ 0) × (s.busy ≡ []))
left s n w o = elim o.working [
  | inl c ↦ inl c
  | inr h ↦ absurd (let e = h.0 in omega (arith, w, e))
]

back :
    (s : Runtime) (us vs : List WorkerTask)
    → s.responses.closed ≡ false
    → Order s
    → Order (record s { workers = suc s.workers; busy = us ++ vs })
back s us vs c o = record {
  served = inl (omega arith);
  working = inl c;
  passed = o.passed;
  passing = o.passing;
  stored = o.stored;
  over = o.over;
  closing = o.closing;
  nothing_refused = o.nothing_refused;
}

still_waiting :
    (s : Runtime) → s.dispatcher ≡ waiting → Order s → (s.db_tasks.closed ≡ false) ⊎ (false ≡ true)
still_waiting s d o = elim o.passing [ inl c ↦ inl c | inr f ↦ ended_waits s.dispatcher d f ]

dispatcher_back :
    (s : Runtime) → s.db_tasks.closed ≡ false → Order s → Order (record s { dispatcher = waiting })
dispatcher_back s c o = record {
  served = o.served;
  working = o.working;
  passed = inl refl;
  passing = inl c;
  stored = o.stored;
  over = o.over;
  closing = o.closing;
  nothing_refused = o.nothing_refused;
}

not_over :
    {P : Type 0} (s : Runtime)
    → (is_ended s.db_worker ≡ true → P)
    → Order s
    → (is_destroyed s.owner ≡ false) ⊎ P
not_over s f o = elim o.over [ inl h ↦ inl h | inr h ↦ inr (f h) ]

shut_served :
    (s : Runtime)
    → Order s
    → (1 ≤ s.workers + length s.busy) ⊎ ((s.requests.items ≡ []) × (true ≡ true))
shut_served s o = elim o.served [ inl h ↦ inl h | inr h ↦ inr (h.0, refl) ]

shut_passed :
    (s : Runtime)
    → Order s
    → (is_ended s.dispatcher ≡ false) ⊎ ((s.responses.items ≡ []) × (true ≡ true))
shut_passed s o = elim o.passed [ inl h ↦ inl h | inr h ↦ inr (h.0, refl) ]

shut_stored :
    (s : Runtime)
    → Order s
    → (is_ended s.db_worker ≡ false) ⊎ ((s.db_tasks.items ≡ []) × (true ≡ true))
shut_stored s o = elim o.stored [ inl h ↦ inl h | inr h ↦ inr (h.0, refl) ]

Turn-Order : (s t : Runtime) → Turn s t → Order s → Order t
unfolding handle_db_task
Turn-Order _ _ (dispatch s malloc task e) o = dispatch-Order malloc task s e o
Turn-Order _ _ (take_task s n task tasks q w) o = record {
  served = inl (omega arith);
  working = taken s n task w o;
  passed = o.passed;
  passing = o.passing;
  stored = o.stored;
  over = o.over;
  closing = o.closing;
  nothing_refused = o.nothing_refused;
}
Turn-Order _ _ (respond s malloc us vs task r b i) o =
    let t = record s { workers = suc s.workers; busy = us ++ vs } in
    let c = busy_open s us vs task o b in
    subst Order (sym (send_open malloc r t c)) (sent-Order malloc r t c (back s us vs c o))
Turn-Order _ _ (no_response s us vs task b) o =
    worker_back (task_ids task) us vs s (busy_open s us vs task o b) o
Turn-Order _ _ (worker_ends s n q c w) o = record {
  served = inr (q, c);
  working = left s n w o;
  passed = o.passed;
  passing = o.passing;
  stored = o.stored;
  over = o.over;
  closing = o.closing;
  nothing_refused = o.nothing_refused;
}
Turn-Order _ _ (take_response s r rs q d) o = record {
  served = o.served;
  working = o.working;
  passed = inl refl;
  passing = still_waiting s d o;
  stored = o.stored;
  over = o.over;
  closing = o.closing;
  nothing_refused = o.nothing_refused;
}
Turn-Order _ _ (pass_on s calloc malloc r d) o =
    let t = record s { dispatcher = waiting } in
    let c = holds_open s r o d in
    subst Order (sym (pass_open calloc malloc r t c))
      (passed_on-Order calloc malloc r t c (dispatcher_back s c o))
Turn-Order _ _ (dispatcher_ends s q c d) o = record {
  served = o.served;
  working = o.working;
  passed = inr (q, c);
  passing = inr refl;
  stored = o.stored;
  over = o.over;
  closing = o.closing;
  nothing_refused = o.nothing_refused;
}
Turn-Order _ _ (take_db_task s r rs q d) o = record {
  served = o.served;
  working = o.working;
  passed = o.passed;
  passing = o.passing;
  stored = inl refl;
  over = not_over s (λ f. ended_waits s.db_worker d f) o;
  closing = o.closing;
  nothing_refused = o.nothing_refused;
}
Turn-Order _ _ (run_db_task s stored r d) o = record {
  served = o.served;
  working = o.working;
  passed = o.passed;
  passing = o.passing;
  stored = inl refl;
  over = not_over s (λ f. absurd (let g = ap is_ended d in let h = sym g ∙ f in cc)) o;
  closing = o.closing;
  nothing_refused = o.nothing_refused;
}
Turn-Order _ _ (db_worker_ends s q c d) o = record {
  served = o.served;
  working = o.working;
  passed = o.passed;
  passing = o.passing;
  stored = inr (q, c);
  over = inr refl;
  closing = o.closing;
  nothing_refused = o.nothing_refused;
}
Turn-Order _ _ (shut_requests s e) o = record {
  served = shut_served s o;
  working = o.working;
  passed = o.passed;
  passing = o.passing;
  stored = o.stored;
  over = inl refl;
  closing = refl;
  nothing_refused = o.nothing_refused;
}
Turn-Order _ _ (shut_responses s e w b) o = record {
  served = o.served;
  working = inr (w, b);
  passed = shut_passed s o;
  passing = o.passing;
  stored = o.stored;
  over = inl refl;
  closing = refl;
  nothing_refused = o.nothing_refused;
}
Turn-Order _ _ (shut_db_tasks s e d) o = record {
  served = o.served;
  working = o.working;
  passed = o.passed;
  passing = inr (ap is_ended d);
  stored = shut_stored s o;
  over = inl refl;
  closing = refl;
  nothing_refused = o.nothing_refused;
}
Turn-Order _ _ (destroy s e d) o = record {
  served = o.served;
  working = o.working;
  passed = o.passed;
  passing = o.passing;
  stored = o.stored;
  over = inr (ap is_ended d);
  closing = tt;
  nothing_refused = o.nothing_refused;
}

start-Order : (n : ℕ) → Order (started (suc n))
start-Order n = record {
  served = inl (omega arith);
  working = inl refl;
  passed = inl refl;
  passing = inl refl;
  stored = inl refl;
  over = inl refl;
  closing = tt;
  nothing_refused = refl;
}

pub Reachable-Order : (s : Runtime) → Reachable s → Order s
Reachable-Order _ (start can_make n s e) =
    let (k, f) = created can_make n s e in subst Order (sym f) (start-Order k)
Reachable-Order _ (then_step s t r k) = Turn-Order s t k (Reachable-Order s r)
