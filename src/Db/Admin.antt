-- ===== src/Db/Admin.antt =====
-- src/core/db_manager.c: opening, closing and clearing the database.
use http_runtime.Base.{false, ◌∷◌, Bytes, if◌then◌else◌, ℤ, pos, not, int_eq}
use http_runtime.Db.{
  Sqlite, Db, Sql, Call, event, pragmas, create_collections, create_requests, create_responses,
  delete_responses, delete_requests, delete_collections, open_v2, close_v2, exec, sqlite_ok,
  sqlite_error,
}

abbrev pub sqlite_nomem : ℤ
sqlite_nomem = pos 7

module _ (sqlite : Sqlite) where
  -- The call's return code, and the state behind it.
  abbrev pub code : Call → Db → ℤ × Db
  code c s = let a = sqlite s.events c in (a.rc, record s { events = event c a ∷ s.events })

  -- `rc = …; if (rc != SQLITE_OK) return rc;`
  unfoldable pub or_return : ℤ × Db → (Db → ℤ × Db) → ℤ × Db
  or_return r k = if int_eq r.0 sqlite_ok then k r.1 else r

  -- `sqlite3_exec` of a table's text, and what follows when it succeeds
  unfoldable pub make_table : Sql → (Db → ℤ × Db) → Db → ℤ × Db
  unfolding or_return
  make_table sql next s = or_return (code (exec sql) s) next

  unfoldable pub make_tables : Db → ℤ × Db
  unfolding make_table
  make_tables s =
      make_table create_collections
        (make_table create_requests (make_table create_responses (λ t. (sqlite_ok, t))))
        (code (exec pragmas) s).1

  abbrev pub open_db : Bytes → Db → ℤ × Db
  open_db db_name s =
      let r = code (open_v2 db_name) s in
      (r.0, record r.1 { is_open = not (int_eq r.0 sqlite_nomem) })

  -- `sqlite3_open_v2` sets `db` to a connection also when it fails, but to NULL when it is out of
  -- memory. The failure of the pragmas is only printed.
  unfoldable pub db_init : Bytes → Db → ℤ × Db
  unfolding make_tables
  db_init db_name s = or_return (open_db db_name s) make_tables

  unfoldable pub db_close : Db → ℤ × Db
  db_close s =
      let r = code close_v2 s in
      if s.is_open
      then if int_eq r.0 sqlite_ok
        then (sqlite_ok, record r.1 { is_open = false })
        else (sqlite_error, r.1)
      else (sqlite_ok, s)

  unfoldable pub db_clear_all : Db → ℤ × Db
  db_clear_all s =
      if s.is_open
      then (
        sqlite_ok,
        (code (exec delete_collections)
            (code (exec delete_requests) (code (exec delete_responses) s).1).1).1,
      )
      else (sqlite_error, s)
