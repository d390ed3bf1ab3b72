-- ===== src/Db/Fetch.antt =====
-- src/core/db_manager.c: the functions that read.
use http_runtime.Base.{ℕ, Bool, Option, none, some, if◌then◌else◌, ℤ}
use http_runtime.Models.{Request, Response}
use http_runtime.Exec.{Exec, ok, failure, pure, goto_failure, ◌>>=◌, ◌>>◌, on_failure}
use http_runtime.Db.{
  Sqlite, Db, begin_immediate, commit, rollback, select_pending, mark_pending, select_latest,
  count_by_request, count_all, bind_int, step, column_int, exec, sqlite_ok, sqlite_error,
  sqlite_row, sqlite_done, prepare_v2, use_stmt, has_row, column, finalize_stmt, run, demand,
  finalize_and_return,
}
use http_runtime.Db.Rows.{map_row_to_request, map_row_to_response}

abbrev pub or_failure : {A : Type 0} → Option A → Exec Db A
or_failure none = goto_failure
or_failure (some a) = pure a

module _ (sqlite : Sqlite) (malloc : ℕ → Bool) where
  -- `UPDATE requests SET status = 1 WHERE id = ?;` for the request that was read
  unfoldable pub take_request : Request → Exec Db (Option Request)
  take_request req = do
    finalize_stmt sqlite
    prepare_v2 sqlite mark_pending
    use_stmt sqlite sqlite_ok (bind_int 1 req.id)
    use_stmt sqlite sqlite_done step
    finalize_stmt sqlite
    run sqlite (exec commit)
    pure (some req)

  unfoldable pub read_pending : Exec Db (Option Request)
  read_pending = do row ← map_row_to_request sqlite malloc; req ← or_failure row; take_request req

  unfoldable pub no_pending : Exec Db (Option Request)
  no_pending = do finalize_stmt sqlite; run sqlite (exec rollback); pure none

  unfoldable pub next_pending : Exec Db (Option Request)
  next_pending = do
    prepare_v2 sqlite select_pending
    found ← has_row sqlite
    if found then read_pending else no_pending

  unfoldable pub rollback_and_return : Db → Option Request × Db
  rollback_and_return s = finalize_and_return sqlite none (run sqlite (exec rollback) s).1

  unfoldable pub db_get_next_pending_request : Db → Option Request × Db
  db_get_next_pending_request s =
      let r = demand sqlite sqlite_ok (exec begin_immediate) s in
      elim r.0 [ ok _ ↦ on_failure next_pending rollback_and_return r.1 | failure ↦ (none, r.1) ]

  unfoldable pub no_response : Exec Db (Option Response)
  no_response = do finalize_stmt sqlite; pure none

  unfoldable pub read_latest : Exec Db (Option Response)
  read_latest = do
    row ← map_row_to_response sqlite malloc
    resp ← or_failure row
    finalize_stmt sqlite
    pure (some resp)

  unfoldable pub latest_response : ℤ → Exec Db (Option Response)
  latest_response request_id = do
    prepare_v2 sqlite select_latest
    use_stmt sqlite sqlite_ok (bind_int 1 request_id)
    found ← has_row sqlite
    if found then read_latest else no_response

  unfoldable pub db_get_latest_response_by_request_id : ℤ → Db → Option Response × Db
  db_get_latest_response_by_request_id request_id s =
      if s.is_open
      then on_failure (latest_response request_id) (finalize_and_return sqlite none) s
      else (none, s)

module _ (sqlite : Sqlite) where
  unfoldable pub read_count : Exec Db ℤ
  read_count = do
    use_stmt sqlite sqlite_row step
    count ← column sqlite (column_int 0)
    finalize_stmt sqlite
    pure count.int_value

  unfoldable pub count_of : ℤ → Exec Db ℤ
  count_of request_id = do
    prepare_v2 sqlite count_by_request
    use_stmt sqlite sqlite_ok (bind_int 1 request_id)
    read_count

  unfoldable pub db_count_responses_by_request_id : ℤ → Db → ℤ × Db
  db_count_responses_by_request_id request_id s =
      if s.is_open
      then on_failure (count_of request_id) (finalize_and_return sqlite sqlite_error) s
      else (sqlite_error, s)

  unfoldable pub count_responses : Exec Db ℤ
  count_responses = do prepare_v2 sqlite count_all; read_count

  unfoldable pub db_count_all_responses : Db → ℤ × Db
  db_count_all_responses s =
      if s.is_open
      then on_failure count_responses (finalize_and_return sqlite sqlite_error) s
      else (sqlite_error, s)
