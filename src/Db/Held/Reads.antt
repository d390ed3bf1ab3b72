-- ===== src/Db/Held/Reads.antt =====
-- The functions of src/core/db_manager.c that read, and any run of all of them.
use http_runtime.Base.{
  ℕ, Bool, true, false, Option, none, some, List, ◌∷◌, ◌≡◌, refl, ap, sym, ◌∙◌, if◌then◌else◌, ℤ,
  ◌⊎◌, inl, inr, Bool-cases, int_eq,
}
use http_runtime.Models.{Request}
use http_runtime.Exec.{
  Exec, Result, ok, failure, Leads, Leads-pure, Leads-bind, Outcome, Outcome-if, on_failure,
  on_failure-Leads, goto_failure, ◌>>=◌,
}
use http_runtime.Db.{
  Sqlite, Db, Sql, exec, begin_immediate, commit, rollback, run, demand, sqlite_ok, sqlite_error,
  event, Answer, Event,
}
use http_runtime.Db.Held.{
  Transaction, no_transaction, in_transaction, unended, begun, ended_by, call_step, event_step,
  Resting, Holding, Idle, Live, held_after, finalize_and_return-Idle, held_rules, ended,
}
use http_runtime.Db.Rows.{read_request, map_row_to_request, read_response, map_row_to_response}
use http_runtime.Db.Fetch.{
  or_failure, take_request, read_pending, no_pending, next_pending, rollback_and_return,
  db_get_next_pending_request, no_response, read_latest, latest_response,
  db_get_latest_response_by_request_id, read_count, count_of, db_count_responses_by_request_id,
  count_responses, db_count_all_responses,
}

module _ (sqlite : Sqlite) (malloc : ℕ → Bool) (t : Transaction) where
  map_row_to_request-Leads : Leads (Holding t) (Live t) (Live t) (map_row_to_request sqlite malloc)
  unfolding map_row_to_request read_request
  map_row_to_request-Leads = search held_rules depth 40 fits 2000

  map_row_to_response-Leads :
      Leads (Holding t) (Live t) (Live t) (map_row_to_response sqlite malloc)
  unfolding map_row_to_response read_response
  map_row_to_response-Leads = search held_rules depth 40 fits 2000

or_failure-Leads :
    {A : Type 0} (t : Transaction) (o : Option A)
    → Leads (Holding t) (Live t) (Live t) (or_failure o)
unfolding goto_failure
or_failure-Leads t none = record { at = λ s h. h.2 ∙ ap (λ x. some (x, t)) (sym h.1) }
or_failure-Leads t (some a) = Leads-pure a

module _ (sqlite : Sqlite) (malloc : ℕ → Bool) (t : Transaction) where
  latest_response-Leads :
      (request_id : ℤ)
      → Leads (Holding t) (Idle t) (Idle t) (latest_response sqlite malloc request_id)
  unfolding latest_response read_latest no_response
  latest_response-Leads request_id =
      search (held_rules, map_row_to_response-Leads, or_failure-Leads) depth 40 fits 2000

  count_of-Leads :
      (request_id : ℤ) → Leads (Holding t) (Idle t) (Idle t) (count_of sqlite request_id)
  unfolding count_of read_count
  count_of-Leads request_id = search held_rules depth 40 fits 2000

  count_responses-Leads : Leads (Holding t) (Idle t) (Idle t) (count_responses sqlite)
  unfolding count_responses read_count
  count_responses-Leads = search held_rules depth 40 fits 2000

module _ (sqlite : Sqlite) (malloc : ℕ → Bool) where
  -- SQLite ends the transaction, or refuses to.
  end_it :
      (sql : Sql)
      → ((stmt : Option ℕ) (done : Bool)
          → call_step (exec sql) done (stmt, in_transaction) ≡ some (stmt, ended_by done))
      → (s : Db) (stmt : Option ℕ) → held_after s.events ≡ some (stmt, in_transaction)
      → (let es = event (exec sql) (sqlite s.events (exec sql)) ∷ s.events in
          (held_after es ≡ some (stmt, no_transaction)) ⊎ (held_after es ≡ some (stmt, unended)))
  unfolding held_after
  end_it sql k s stmt e = elim (Bool-cases (int_eq (sqlite s.events (exec sql)).rc sqlite_ok)) [
    | inl d ↦ inl (rw (e, d) (k stmt true))
    | inr d ↦ inr (rw (e, d) (k stmt false))
  ]

  commit-Leads :
      Leads (Holding in_transaction) (Idle in_transaction) Resting (run sqlite (exec commit))
  unfolding run call_step
  commit-Leads = record {
    at = λ s h. elim (end_it commit (λ stmt done. refl) s none h.1) [
      | inl e ↦ inl (h.0, e)
      | inr e ↦ inr (h.0, e)
    ];
  }

  rollback-Leads :
      Leads (Holding in_transaction) (Idle in_transaction) Resting (run sqlite (exec rollback))
  unfolding run call_step
  rollback-Leads = record {
    at = λ s h. elim (end_it rollback (λ stmt done. refl) s none h.1) [
      | inl e ↦ inl (h.0, e)
      | inr e ↦ inr (h.0, e)
    ];
  }

  after_commit :
      {B : Type 0} (R : Db → Type 0) (f : Unit {0} → Exec Db B)
      → ((a : Unit {0}) → Leads (Holding in_transaction) Resting R (f a))
      → Leads (Holding in_transaction) (Idle in_transaction) R (run sqlite (exec commit) >>= f)
  after_commit R f = Leads-bind (run sqlite (exec commit)) f commit-Leads

  after_rollback :
      {B : Type 0} (R : Db → Type 0) (f : Unit {0} → Exec Db B)
      → ((a : Unit {0}) → Leads (Holding in_transaction) Resting R (f a))
      → Leads (Holding in_transaction) (Idle in_transaction) R (run sqlite (exec rollback) >>= f)
  after_rollback R f = Leads-bind (run sqlite (exec rollback)) f rollback-Leads

  next_pending-Leads :
      Leads (Holding in_transaction) (Idle in_transaction) Resting (next_pending sqlite malloc)
  unfolding next_pending read_pending no_pending take_request
  next_pending-Leads =
      search (held_rules, map_row_to_request-Leads, or_failure-Leads, after_commit, after_rollback)
        depth 40 fits 2000

  rollback_and_return-Resting :
      (s : Db) → Holding in_transaction s → Resting (rollback_and_return sqlite malloc s).1
  unfolding rollback_and_return run call_step
  rollback_and_return-Resting s h = elim (end_it rollback (λ stmt done. refl) s s.stmt h) [
    | inl e ↦ inl (finalize_and_return-Idle sqlite no_transaction none _ e)
    | inr e ↦ inr (finalize_and_return-Idle sqlite unended none _ e)
  ]

  held-begin :
      (a : Answer) (es : List Event) (t : Transaction)
      → ((done : Bool)
          → call_step (exec begin_immediate) done (none, t) ≡ some (none, begun done t))
      → (done : Bool) → int_eq a.rc sqlite_ok ≡ done
      → held_after es ≡ some (none, t)
      → held_after (event (exec begin_immediate) a ∷ es) ≡ some (none, begun done t)
  unfolding held_after event_step
  held-begin a es t k done d e =
      ap (event_step (event (exec begin_immediate) a)) e
      ∙ k (int_eq a.rc sqlite_ok)
      ∙ ap (λ x. some (none, begun x t)) d

  begin-Outcome :
      (t : Transaction)
      → ((done : Bool)
          → call_step (exec begin_immediate) done (none, t) ≡ some (none, begun done t))
      → (s : Db) → Idle t s
      → Outcome (Idle t) (Idle in_transaction) (demand sqlite sqlite_ok (exec begin_immediate) s)
  unfolding demand
  begin-Outcome t k s h =
      Outcome-if (Idle t) (Idle in_transaction)
        (int_eq (sqlite s.events (exec begin_immediate)).rc sqlite_ok) _ _
        (λ e. (h.0, held-begin _ s.events t k true e h.1))
        (λ e. (h.0, held-begin _ s.events t k false e h.1))

  next_pending-Resting :
      (t : Transaction)
      → ((s : Db) → Idle t s → Resting s)
      → (s : Db)
      → Outcome (Idle t) (Idle in_transaction) (demand sqlite sqlite_ok (exec begin_immediate) s)
      → Resting (db_get_next_pending_request sqlite malloc s).1
  unfolding db_get_next_pending_request
  next_pending-Resting t rests s o = go _ o
    where
      go :
          (r : Result (Unit {0}) × Db)
          → Outcome (Idle t) (Idle in_transaction) r
          → Resting
              (elim r.0 as (λ _. Option Request × Db) [
                | ok _ ↦
                    on_failure (next_pending sqlite malloc) (rollback_and_return sqlite malloc) r.1
                | failure ↦ (none, r.1)
              ]).1
      go (ok a, u) k =
          on_failure-Leads {Q = Resting} (next_pending sqlite malloc) _ next_pending-Leads
            rollback_and_return-Resting u k
      go (failure, u) k = rests u k

  pub db_get_next_pending_request-Resting :
      (s : Db) → Resting s → Resting (db_get_next_pending_request sqlite malloc s).1
  unfolding call_step
  db_get_next_pending_request-Resting s (inl h) =
      next_pending-Resting no_transaction (λ u k. inl k) s
        (begin-Outcome no_transaction (λ done. refl) s h)
  db_get_next_pending_request-Resting s (inr h) =
      next_pending-Resting unended (λ u k. inr k) s (begin-Outcome unended (λ done. refl) s h)

module _ (sqlite : Sqlite) (malloc : ℕ → Bool) (t : Transaction) where
  Idle-if :
      {A : Type 0} (b : Bool) (x y : A × Db)
      → Idle t x.1
      → Idle t y.1
      → Idle t (if b then x else y).1
  Idle-if true x y h k = h
  Idle-if false x y h k = k

  pub db_get_latest_response-Idle :
      (request_id : ℤ) (s : Db)
      → Idle t s
      → Idle t (db_get_latest_response_by_request_id sqlite malloc request_id s).1
  unfolding db_get_latest_response_by_request_id
  db_get_latest_response-Idle request_id s h =
      Idle-if s.is_open _ _
        (ended sqlite t _ none (latest_response-Leads sqlite malloc t request_id) s h) h

  pub db_count_responses-Idle :
      (request_id : ℤ) (s : Db)
      → Idle t s
      → Idle t (db_count_responses_by_request_id sqlite request_id s).1
  unfolding db_count_responses_by_request_id
  db_count_responses-Idle request_id s h =
      Idle-if s.is_open _ _
        (ended sqlite t _ sqlite_error (count_of-Leads sqlite malloc t request_id) s h) h

  pub db_count_all_responses-Idle : (s : Db) → Idle t s → Idle t (db_count_all_responses sqlite s).1
  unfolding db_count_all_responses
  db_count_all_responses-Idle s h =
      Idle-if s.is_open _ _
        (ended sqlite t _ sqlite_error (count_responses-Leads sqlite malloc t) s h) h
