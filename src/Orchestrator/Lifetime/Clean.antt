-- ===== src/Orchestrator/Lifetime/Clean.antt =====
-- `create_runtime` and `destroy_runtime` of src/core/orchestrator.c keep nothing.
use http_runtime.Base.{
  ℕ, zero, suc, ◌+◌, Bool, true, false, Option, none, some, ◌∷◌, ltb, ◌≡◌, refl, ap, ◌∙◌, ℤ, pos,
  negsuc, inl, inr, Bool-cases, arith,
}
use http_runtime.Exec.{ok, failure, Result, pure, Leads, Leads-bind, Outcome, Outcome-if}
use http_runtime.Orchestrator.Lifetime.{
  requests, responses, db_tasks, SystemResource, runtime_block, threads_block, queue, db_worker,
  dispatcher, http_worker, asked, Log, RuntimeParts, empty_runtime, destroy_runtime, obtain,
  start_workers, set_up, returned, create_runtime,
}
use http_runtime.Orchestrator.Lifetime.Live.{
  absent, in_use, nothing, live, step, live_after, live_of,
}
use http_runtime.Orchestrator.Lifetime.Destroyed.{
  After, then_After, same, Wired, destroy_runtime-After,
}

abbrev State : Type 0
State = RuntimeParts × Log

-- The runtime has these fields, and has of the system what they say.
abbrev Stage : ℕ → RuntimeParts → State → Type 0
Stage n o s = (s.0 ≡ o) × After (live_of n o) s.1

abbrev GivenUp : ℕ → State → Type 0
GivenUp n s = Wired s.0 × After (live_of n s.0) s.1

module _ (grants : Log → SystemResource → Bool) (n : ℕ) where
  obtain-Leads :
      (r : SystemResource) (store : RuntimeParts → RuntimeParts) (o : RuntimeParts)
      → Wired o
      → step (asked r true) (live_of n o) ≡ some (live_of n (store o))
      → Leads (GivenUp n) (Stage n o) (Stage n (store o)) (obtain grants r store)
  unfolding obtain live_after
  obtain-Leads r store o w e = record {
    at = λ s h.
        Outcome-if (GivenUp n) (Stage n (store o)) (grants s.1 r) _ _
          (λ g. (ap store h.0, rw (g, h.1) e)) (λ g. (rw h.0 w, rw (g, h.1, h.0) refl));
  }

  -- With everything but the workers, of which there are `i`
  abbrev wired : ℕ → RuntimeParts
  wired i = record {
    db_queue = true;
    request_queue = true;
    response_queue = true;
    http_worker_threads = true;
    http_worker_count = i;
    is_running = false;
    db_worker_started = true;
    dispatcher_started = true;
  }

  wired-Wired : (i : ℕ) → Wired (wired i)
  wired-Wired i = record { workers = inr refl; dispatcher = inr refl; db_worker = inr refl }

  start_workers-Leads :
      (left i : ℕ)
      → n ≡ left + i
      → Leads (GivenUp n) (Stage n (wired i)) (Stage n (wired n)) (start_workers grants left i)
  unfolding start_workers pure
  start_workers-Leads zero i e = record {
    at = λ s h.
        let f : i ≡ n = omega (arith, e) in
        (h.0 ∙ ap wired f, h.1 ∙ ap (λ k. some (live_of n (wired k))) f);
  }
  start_workers-Leads (suc left) i e =
      let l : ltb i n ≡ true = ground arith in
      Leads-bind _ _
        (obtain-Leads (http_worker i)
          (λ o. record o { http_worker_count = o.http_worker_count + 1 }) (wired i) (wired-Wired i)
          (rw (same i, l) refl))
        (λ u. start_workers-Leads left (i + 1) (omega (arith, e)))

  set_up-Leads : Leads (GivenUp n) (Stage n empty_runtime) (Stage n (wired n)) (set_up grants n)
  unfolding set_up
  set_up-Leads = Leads-bind _ _ (obtain-Leads (queue db_tasks) _ empty_runtime idle refl) (λ _.
      Leads-bind _ _ (obtain-Leads (queue requests) _ _ idle refl) (λ _.
        Leads-bind _ _ (obtain-Leads (queue responses) _ _ idle refl) (λ _.
          Leads-bind _ _ (obtain-Leads (threads_block n) _ _ idle refl) (λ _.
            Leads-bind _ _ (obtain-Leads db_worker _ _ idle refl) (λ _.
              Leads-bind _ _ (obtain-Leads dispatcher _ _ served refl)
                (λ _. start_workers-Leads n 0 (omega arith)))))))
    where
      idle :
          {q d r t : Bool}
          → Wired (record empty_runtime {
            db_queue = d;
            request_queue = q;
            response_queue = r;
            http_worker_threads = t;
          })
      idle = record { workers = inl refl; dispatcher = inl refl; db_worker = inl refl }

      served : Wired (record (wired 0) { dispatcher_started = false })
      served = record { workers = inl refl; dispatcher = inl refl; db_worker = inr refl }

-- What is left of a runtime when it is destroyed, if there is one
abbrev pub gone : Option RuntimeParts × Log → Log
gone (none, log) = log
gone (some o, log) = destroy_runtime o log

-- What is true of a runtime that is returned
abbrev pub Complete : ℤ → Option RuntimeParts × Log → Type 0
Complete num (none, log) = After nothing log
Complete num (some o, log) =
    (pos o.http_worker_count ≡ num)
    × (o.is_running ≡ true)
    × After (live in_use in_use in_use (some o.http_worker_count) o.http_worker_count 0 true true)
        log

module _ (grants : Log → SystemResource → Bool) where
  returned-Complete :
      (n : ℕ) (r : Result (Unit {0}) × State)
      → Outcome (GivenUp n) (Stage n (wired grants n n)) r
      → Complete (pos n) (returned grants r) × After nothing (gone (returned grants r))
  returned-Complete n (failure, (o, log)) h =
      let d = destroy_runtime-After n o log h.0 h.1 in (d, d)
  returned-Complete n (ok u, (o, log)) h =
      let made : After (live in_use in_use in_use (some n) n 0 true true) log = h.1 in
      let w : Wired (record o { is_running = true }) =
        rw h.0 (record { workers = inr refl; dispatcher = inr refl; db_worker = inr refl }) in
      (
        rw h.0 (refl, refl, made),
        destroy_runtime-After n (record o { is_running = true }) log w (rw h.0 made),
      )

  -- Whatever is granted of what `create_runtime` asks for: a runtime that it returns runs, with
  -- the workers that were asked for, in an array that has a place for each, the other two threads
  -- and three open queues. Where it returns NULL, everything it was granted is given back. And
  -- `destroy_runtime` gives back all of the runtime that it is given. No queue is shut while a
  -- thread that pushes to it runs, no thread is joined before the queue it pops is shut, nothing
  -- is destroyed or freed that a thread still uses, and nothing twice.
  pub create_runtime-Complete :
      (num_http_worker : ℤ) (log : Log)
      → live_after log ≡ some nothing
      → Complete num_http_worker (create_runtime grants num_http_worker log)
        × (live_after (gone (create_runtime grants num_http_worker log)) ≡ some nothing)
  unfolding create_runtime live_after
  create_runtime-Complete (pos zero) log h = (h, h)
  create_runtime-Complete (negsuc k) log h = (h, h)
  create_runtime-Complete (pos (suc n)) log h = elim (Bool-cases (grants log runtime_block)) [
    | inl g ↦
        let e : After (live absent absent absent none 0 0 false false)
            (asked runtime_block true ∷ log) =
          then_After (asked runtime_block true) nothing
            (live absent absent absent none 0 0 false false) log h refl in
        rw g (
          returned-Complete (suc n)
            (set_up grants (suc n) (empty_runtime, asked runtime_block true ∷ log))
            ((set_up-Leads grants (suc n)).at (empty_runtime, asked runtime_block true ∷ log)
              (refl, e)))
    | inr g ↦
        let e : After nothing (asked runtime_block false ∷ log) =
          then_After (asked runtime_block false) nothing nothing log h refl in
        rw g (e, e)
  ]
