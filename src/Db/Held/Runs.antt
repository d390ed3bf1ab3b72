-- ===== src/Db/Held/Runs.antt =====
-- Any run of the functions of src/core/db_manager.c.
use http_runtime.Base.{
  ℕ, Bool, true, false, none, some, List, [], ◌∷◌, ◌≡◌, refl, ap, ◌∙◌, if◌then◌else◌, ℤ, inl, inr,
  int_eq, Bytes,
}
use http_runtime.Models.{Request, Response, Collection}
use http_runtime.Db.{
  pragmas, create_collections, create_requests, create_responses, delete_collections,
  delete_requests, delete_responses, Sql, Sqlite, Db, Call, sqlite_ok, sqlite_error, event, Answer,
  close_v2, open_v2, exec,
}
use http_runtime.Db.Held.{
  Held, Transaction, no_transaction, unended, Resting, Idle, held_after, call_step, event_step,
}
use http_runtime.Db.Save.{
  db_save_collection, db_save_response, db_save_request, db_update_request_status,
}
use http_runtime.Db.Fetch.{
  db_get_next_pending_request, db_get_latest_response_by_request_id,
  db_count_responses_by_request_id, db_count_all_responses,
}
use http_runtime.Db.Admin.{
  code, open_db, or_return, make_table, make_tables, db_init, db_close, db_clear_all,
}
use http_runtime.Db.Held.Functions.{
  db_save_collection-Idle, db_save_response-Idle, db_save_request-Idle,
  db_update_request_status-Idle,
}
use http_runtime.Db.Held.Reads.{
  db_get_next_pending_request-Resting, db_get_latest_response-Idle, db_count_responses-Idle,
  db_count_all_responses-Idle,
}

-- A call of a function of the database manager.
pub data DbCall : Type 0 where
  init : Bytes → DbCall
  close clear_all next_pending_request count_all_responses : DbCall
  save_collection : Collection → DbCall
  save_response : Response → DbCall
  save_request : Request → DbCall
  update_request_status : ℤ → ℤ → DbCall
  latest_response count_responses : ℤ → DbCall

module _ (sqlite : Sqlite) (malloc : ℕ → Bool) where
  unfoldable pub perform : DbCall → Db → Db
  perform (init name) s = (db_init sqlite name s).1
  perform close s = (db_close sqlite s).1
  perform clear_all s = (db_clear_all sqlite s).1
  perform next_pending_request s = (db_get_next_pending_request sqlite malloc s).1
  perform count_all_responses s = (db_count_all_responses sqlite s).1
  perform (save_collection coll) s = (db_save_collection sqlite coll s).1
  perform (save_response resp) s = (db_save_response sqlite resp s).1
  perform (save_request req) s = (db_save_request sqlite req s).1
  perform (update_request_status id status) s = (db_update_request_status sqlite id status s).1
  perform (latest_response id) s = (db_get_latest_response_by_request_id sqlite malloc id s).1
  perform (count_responses id) s = (db_count_responses_by_request_id sqlite id s).1

  unfoldable pub perform_all : List DbCall → Db → Db
  unfolding perform
  perform_all [] s = s
  perform_all (c ∷ calls) s = perform_all calls (perform c s)

module _ (sqlite : Sqlite) (malloc : ℕ → Bool) (tx : Transaction) where
  -- A call that is on no statement and no transaction
  abbrev Quiet : Call → Type 0
  Quiet c = (done : Bool) (held : Held) → call_step c done held ≡ some held

  Quiet-event :
      (c : Call)
      → Quiet c
      → (a : Answer) → event_step (event c a) (some (none, tx)) ≡ some (none, tx)
  unfolding event_step
  Quiet-event c q a = q (int_eq a.rc sqlite_ok) (none, tx)

  Idle-if :
      {A : Type 0} (b : Bool) (x y : A × Db)
      → Idle tx x.1
      → Idle tx y.1
      → Idle tx (if b then x else y).1
  Idle-if true x y h k = h
  Idle-if false x y h k = k

  code-Idle : (c : Call) → Quiet c → (s : Db) → Idle tx s → Idle tx (code sqlite c s).1
  unfolding held_after
  code-Idle c q s h =
      (h.0, ap (event_step (event c (sqlite s.events c))) h.1 ∙ Quiet-event c q (sqlite s.events c))

  or_return-Idle :
      (r : ℤ × Db) (k : Db → ℤ × Db)
      → Idle tx r.1
      → ((t : Db) → Idle tx t → Idle tx (k t).1)
      → Idle tx (or_return sqlite r k).1
  unfolding or_return
  or_return-Idle r k h f = Idle-if (int_eq r.0 sqlite_ok) _ _ (f r.1 h) h

  make_table-Idle :
      (sql : Sql) (k : Db → ℤ × Db)
      → Quiet (exec sql)
      → ((t : Db) → Idle tx t → Idle tx (k t).1)
      → (s : Db) → Idle tx s
      → Idle tx (make_table sqlite sql k s).1
  unfolding make_table
  make_table-Idle sql k q f s h =
      or_return-Idle (code sqlite (exec sql) s) k (code-Idle (exec sql) q s h) f

  make_tables-Idle : (s : Db) → Idle tx s → Idle tx (make_tables sqlite s).1
  unfolding make_tables call_step
  make_tables-Idle s h =
      let done : Db → ℤ × Db = λ t. (sqlite_ok, t) in
      let responses = make_table sqlite create_responses done in
      make_table-Idle create_collections (make_table sqlite create_requests responses) (λ d e. refl)
        (make_table-Idle create_requests responses (λ d e. refl)
          (make_table-Idle create_responses done (λ d e. refl) (λ t k. k)))
        (code sqlite (exec pragmas) s).1 (code-Idle (exec pragmas) (λ d e. refl) s h)

  pub db_init-Idle : (name : Bytes) (s : Db) → Idle tx s → Idle tx (db_init sqlite name s).1
  unfolding db_init call_step
  db_init-Idle name s h =
      or_return-Idle (open_db sqlite name s) (make_tables sqlite)
        (code-Idle (open_v2 name) (λ d e. refl) s h) make_tables-Idle

  pub db_close-Idle : (s : Db) → Idle tx s → Idle tx (db_close sqlite s).1
  unfolding db_close call_step
  db_close-Idle s h =
      let k = code-Idle close_v2 (λ d e. refl) s h in
      Idle-if s.is_open _ _ (Idle-if (int_eq (code sqlite close_v2 s).0 sqlite_ok) _ _ k k) h

  db_clear_all-Idle : (s : Db) → Idle tx s → Idle tx (db_clear_all sqlite s).1
  unfolding db_clear_all call_step
  db_clear_all-Idle s h =
      let t = (code sqlite (exec delete_responses) s).1 in
      let u = (code sqlite (exec delete_requests) t).1 in
      Idle-if s.is_open (sqlite_ok, (code sqlite (exec delete_collections) u).1) (sqlite_error, s)
        (code-Idle (exec delete_collections) (λ d e. refl) u
          (code-Idle (exec delete_requests) (λ d e. refl) t
            (code-Idle (exec delete_responses) (λ d e. refl) s h)))
        h

module _ (sqlite : Sqlite) (malloc : ℕ → Bool) where
  Resting-Idle :
      (u : Db → Db)
      → ((t : Transaction) (s : Db) → Idle t s → Idle t (u s))
      → (s : Db) → Resting s
      → Resting (u s)
  Resting-Idle u k s (inl h) = inl (k no_transaction s h)
  Resting-Idle u k s (inr h) = inr (k unended s h)

  perform-Resting : (c : DbCall) (s : Db) → Resting s → Resting (perform sqlite malloc c s)
  unfolding perform
  perform-Resting (init name) =
      Resting-Idle (perform sqlite malloc (init name)) (λ t. db_init-Idle sqlite malloc t name)
  perform-Resting close =
      Resting-Idle (perform sqlite malloc close) (λ t. db_close-Idle sqlite malloc t)
  perform-Resting clear_all =
      Resting-Idle (perform sqlite malloc clear_all) (λ t. db_clear_all-Idle sqlite malloc t)
  perform-Resting next_pending_request = db_get_next_pending_request-Resting sqlite malloc
  perform-Resting count_all_responses =
      Resting-Idle (perform sqlite malloc count_all_responses)
        (λ t. db_count_all_responses-Idle sqlite malloc t)
  perform-Resting (save_collection coll) =
      Resting-Idle (perform sqlite malloc (save_collection coll))
        (λ t. db_save_collection-Idle sqlite t coll)
  perform-Resting (save_response resp) =
      Resting-Idle (perform sqlite malloc (save_response resp))
        (λ t. db_save_response-Idle sqlite t resp)
  perform-Resting (save_request req) =
      Resting-Idle (perform sqlite malloc (save_request req))
        (λ t. db_save_request-Idle sqlite t req)
  perform-Resting (update_request_status id status) =
      Resting-Idle (perform sqlite malloc (update_request_status id status))
        (λ t. db_update_request_status-Idle sqlite t id status)
  perform-Resting (latest_response id) =
      Resting-Idle (perform sqlite malloc (latest_response id))
        (λ t. db_get_latest_response-Idle sqlite malloc t id)
  perform-Resting (count_responses id) =
      Resting-Idle (perform sqlite malloc (count_responses id))
        (λ t. db_count_responses-Idle sqlite malloc t id)

  -- Whatever SQLite and `malloc` answer, in a run of any calls of the database manager's
  -- functions, one after the other, from a state with no statement and no transaction, but
  -- perhaps one that SQLite refused to end, SQLite is called in order: a statement is used and
  -- finalized only while it is open, one is open at most, transactions do not nest, and only an
  -- open one is ended. The run ends in such a state, whichever calls failed.
  pub perform_all-Resting :
      (calls : List DbCall) (s : Db) → Resting s → Resting (perform_all sqlite malloc calls s)
  unfolding perform_all
  perform_all-Resting [] s h = h
  perform_all-Resting (c ∷ calls) s h =
      perform_all-Resting calls (perform sqlite malloc c s) (perform-Resting c s h)
