-- ===== src/Db/Save.antt =====
-- src/core/db_manager.c: the functions that write.
use http_runtime.Base.{
  ℕ, Option, none, some, [], length, Bytes, ℤ, pos, int_of_bits, ltb, if◌then◌else◌,
}
use http_runtime.Models.{Request, Collection, Response, Method, ResponseResults}
use http_runtime.Models
use http_runtime.Assertion.Header.{until}
use http_runtime.Exec.{Exec, pure, ◌>>=◌, ◌>>◌, on_failure}
use http_runtime.Db.{
  Sqlite, Db, Use, bind_int, bind_int64, bind_double, bind_text, bind_blob, bind_null, step,
  column_int, update_status, insert_collection, select_collection, insert_response, insert_request,
  select_request, last_insert_rowid, sqlite_ok, sqlite_error, sqlite_row, sqlite_done, ask,
  prepare_v2, use_stmt, column, finalize_stmt, finalize_and_return,
}

-- The values of the enumerations.
unfoldable pub method_code : Method → ℤ
method_code Models.get = pos 0
method_code Models.post = pos 1
method_code Models.put = pos 2
method_code Models.delete = pos 3
method_code Models.patch = pos 4
method_code Models.head = pos 5
method_code Models.options = pos 6

unfoldable pub result_code : ResponseResults → ℤ
result_code Models.response_ok = pos 0
result_code Models.response_curl_error = pos 1
result_code Models.response_internal_error = pos 2
result_code Models.response_cancelled = pos 3

module _ (sqlite : Sqlite) where
  abbrev pub bind : Use → Exec Db (Unit {0})
  bind u = use_stmt sqlite sqlite_ok u

  unfoldable pub save_collection : Collection → Exec Db (ℤ × Collection)
  save_collection coll = do
    prepare_v2 sqlite insert_collection
    bind (bind_text 1 (some coll.name) (int_of_bits coll.name_len))
    bind (bind_int 2 (pos coll.name_len))
    use_stmt sqlite sqlite_done step
    finalize_stmt sqlite
    prepare_v2 sqlite select_collection
    bind (bind_text 1 (some coll.name) (int_of_bits coll.name_len))
    use_stmt sqlite sqlite_row step
    id ← column sqlite (column_int 0)
    finalize_stmt sqlite
    pure (sqlite_ok, record coll { id = id.int_value })

  -- The return code, and the collection with its id.
  unfoldable pub db_save_collection : Collection → Db → (ℤ × Collection) × Db
  db_save_collection coll =
      on_failure (save_collection coll) (finalize_and_return sqlite (sqlite_error, coll))

  abbrev pub bind_optional_text : ℕ → Option Bytes → Exec Db (Unit {0})
  bind_optional_text i none = bind (bind_null i)
  bind_optional_text i (some text) = bind (bind_text i (some text) (int_of_bits (length text)))

  -- The C string in the block of the headers.
  abbrev pub c_text : Option Bytes → Option Bytes
  c_text none = none
  c_text (some bytes) = some (until 0 bytes)

  abbrev pub bind_body : Option Bytes → ℕ → Exec Db (Unit {0})
  bind_body none len = bind (bind_null 7)
  bind_body (some body) len =
      if ltb 0 len then bind (bind_blob 7 (some body) (int_of_bits len)) else bind (bind_null 7)

  unfoldable pub save_response : Response → Exec Db (ℤ × Response)
  save_response resp = do
    prepare_v2 sqlite insert_response
    bind (bind_int 1 resp.request_id)
    bind (bind_int 2 resp.status_code)
    bind (bind_int 3 (result_code resp.result))
    bind (bind_double 4 resp.duration)
    bind_optional_text 5 (c_text resp.headers)
    bind_optional_text 6 resp.content_type
    bind_body resp.body resp.body_len
    bind (bind_int64 8 resp.body_len)
    use_stmt sqlite sqlite_done step
    id ← ask sqlite last_insert_rowid
    finalize_stmt sqlite
    pure (sqlite_ok, record resp { id = id.int_value })

  unfoldable pub db_save_response : Response → Db → (ℤ × Response) × Db
  db_save_response resp =
      on_failure (save_response resp) (finalize_and_return sqlite (sqlite_error, resp))

  -- `req->body ? req->body : ""`, and its length in column 8
  abbrev pub body_data : Option Bytes → Option Bytes
  body_data none = some []
  body_data (some body) = some body

  abbrev pub stored_len : Request → ℕ
  stored_len req = elim req.body [ none ↦ 0 | some body ↦ req.body_len ]

  unfoldable pub save_request : Request → Exec Db (ℤ × Request)
  save_request req = do
    prepare_v2 sqlite insert_request
    bind (bind_int 1 req.collection_id)
    bind (bind_int 2 (method_code req.method))
    bind (bind_text 3 req.url (int_of_bits req.url_len))
    bind (bind_int64 4 req.url_len)
    bind (bind_text 5 req.headers (int_of_bits req.headers_len))
    bind (bind_int64 6 req.headers_len)
    bind (bind_blob 7 (body_data req.body) (int_of_bits req.body_len))
    bind (bind_int64 8 (stored_len req))
    use_stmt sqlite sqlite_done step
    finalize_stmt sqlite
    prepare_v2 sqlite select_request
    bind (bind_int 1 req.collection_id)
    bind (bind_int 2 (method_code req.method))
    bind (bind_text 3 req.url (int_of_bits req.url_len))
    bind (bind_blob 4 req.body (int_of_bits req.body_len))
    use_stmt sqlite sqlite_row step
    id ← column sqlite (column_int 0)
    finalize_stmt sqlite
    pure (sqlite_ok, record req { id = id.int_value })

  unfoldable pub db_save_request : Request → Db → (ℤ × Request) × Db
  db_save_request req =
      on_failure (save_request req) (finalize_and_return sqlite (sqlite_error, req))

  unfoldable pub change_status : ℤ → ℤ → Exec Db ℤ
  change_status id status = do
    prepare_v2 sqlite update_status
    bind (bind_int 1 status)
    bind (bind_int 2 id)
    use_stmt sqlite sqlite_done step
    finalize_stmt sqlite
    pure sqlite_ok

  unfoldable pub db_update_request_status : ℤ → ℤ → Db → ℤ × Db
  db_update_request_status id status =
      on_failure (change_status id status) (finalize_and_return sqlite sqlite_error)
