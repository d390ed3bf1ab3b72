-- ===== src/Orchestrator/Lifetime/Granted.antt =====
-- `create_runtime` of src/core/orchestrator.c when nothing that it asks for is refused.
use http_runtime.Base.{ℕ, zero, suc, ◌+◌, Bool, true, some, ◌∷◌, ◌≡◌, refl, sym, ◌∙◌, pos}
use http_runtime.Exec.{ok, failure, Result, Leads, Leads-bind, Leads-pure, Outcome, Outcome-if}
use http_runtime.Orchestrator.Lifetime.{
  requests, responses, db_tasks, SystemResource, runtime_block, threads_block, queue, db_worker,
  dispatcher, http_worker, asked, Log, RuntimeParts, empty_runtime, obtain, start_workers, set_up,
  returned, create_runtime,
}

abbrev Any : RuntimeParts × Log → Type 0
Any s = Unit {0}

abbrev Never : RuntimeParts × Log → Type 0
Never s = ⊥

module _ (grants : Log → SystemResource → Bool)
    (all : (log : Log) (r : SystemResource) → grants log r ≡ true) where
  obtain-Leads :
      (r : SystemResource) (store : RuntimeParts → RuntimeParts)
      → Leads Never Any Any (obtain grants r store)
  unfolding obtain
  obtain-Leads r store = record {
    at = λ s h.
        Outcome-if Never Any (grants s.1 r) _ _ (λ g. tt)
          (λ g. absurd (let e = sym (all s.1 r) ∙ g in cc));
  }

  start_workers-Leads : (left i : ℕ) → Leads Never Any Any (start_workers grants left i)
  unfolding start_workers
  start_workers-Leads zero i = Leads-pure tt
  start_workers-Leads (suc left) i =
      Leads-bind _ _ (obtain-Leads (http_worker i) _) (λ _. start_workers-Leads left (i + 1))

  set_up-Leads : (n : ℕ) → Leads Never Any Any (set_up grants n)
  unfolding set_up
  set_up-Leads n = Leads-bind _ _ (obtain-Leads (queue db_tasks) _) (λ _.
      Leads-bind _ _ (obtain-Leads (queue requests) _) (λ _.
        Leads-bind _ _ (obtain-Leads (queue responses) _) (λ _.
          Leads-bind _ _ (obtain-Leads (threads_block n) _) (λ _.
            Leads-bind _ _ (obtain-Leads db_worker _)
              (λ _. Leads-bind _ _ (obtain-Leads dispatcher _) (λ _. start_workers-Leads n 0))))))

  returned-some :
      (r : Result (Unit {0}) × (RuntimeParts × Log))
      → Outcome Never Any r
      → (o : RuntimeParts) × ((returned grants r).0 ≡ some o)
  returned-some (failure, (o, log)) h = absurd h
  returned-some (ok u, (o, log)) h = (record o { is_running = true }, refl)

  -- When nothing is refused, `create_runtime` returns a runtime for each positive number of
  -- workers.
  pub create_runtime-some :
      (n : ℕ) (log : Log)
      → (o : RuntimeParts) × ((create_runtime grants (pos (suc n)) log).0 ≡ some o)
  unfolding create_runtime
  create_runtime-some n log = rw (all log runtime_block) (
      returned-some (set_up grants (suc n) (empty_runtime, asked runtime_block true ∷ log))
        ((set_up-Leads (suc n)).at (empty_runtime, asked runtime_block true ∷ log) tt))
