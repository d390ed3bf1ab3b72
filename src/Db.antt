-- ===== src/Db.antt =====
-- src/core/db_manager.c: the calls of SQLite. What SQLite answers is a parameter: a function of
-- all that happened before and of the call.
pub mod Save
pub mod Rows
pub mod Fetch
pub mod Admin
pub mod Stored
pub mod Held
use http_runtime.Base.{
  ℕ, ◌+◌, Bool, true, false, Option, none, some, List, [], ◌∷◌, length, Bytes, codes, ℤ, pos,
  int_eq, if◌then◌else◌,
}
use http_runtime.Exec.{Exec, Result, ok, failure, pure, goto_failure, ◌>>=◌, ◌>>◌}

-- The SQL texts of the program, by what they do.
pub data Sql : Type 0 where
  pragmas create_collections create_requests create_responses : Sql
  insert_collection select_collection insert_response insert_request select_request : Sql
  begin_immediate commit rollback select_pending mark_pending update_status : Sql
  select_latest count_by_request count_all : Sql
  delete_responses delete_requests delete_collections : Sql

-- A call on a prepared statement: a value for a parameter, a step, or a column of the row.
pub data Use : Type 0 where
  bind_int : ℕ → ℤ → Use
  bind_int64 : ℕ → ℕ → Use
  bind_double : ℕ → ℕ → Use
  bind_text bind_blob : ℕ → Option Bytes → ℤ → Use
  bind_null : ℕ → Use
  step : Use
  column_int column_int64 column_double column_text column_blob column_bytes : ℕ → Use

-- A statement is named by the number of the events before it was prepared; `none` is NULL.
pub data Call : Type 0 where
  open_v2 : Bytes → Call
  close_v2 : Call
  exec : Sql → Call
  prepare : ℕ → Sql → Call
  on_stmt : Option ℕ → Use → Call
  finalize : Option ℕ → Call
  last_insert_rowid : Call

-- The return code, and what a column holds.
pub record Answer : Type 0 where
  pub rc : ℤ
  pub int_value : ℤ
  pub size : ℕ
  pub real : ℕ
  pub bytes : Option Bytes

pub record Event : Type 0 where
  pub call : Call
  pub answer : Answer

abbrev pub event : Call → Answer → Event
event c a = record { call = c; answer = a }

abbrev pub Sqlite : Type 0
Sqlite = List Event → Call → Answer

-- The events, newest first; whether the global `db` is not NULL; and the variable `stmt` of the
-- function that runs.
pub record Db : Type 0 where
  pub events : List Event
  pub is_open : Bool
  pub stmt : Option ℕ

abbrev pub sqlite_ok : ℤ
sqlite_ok = pos 0

abbrev pub sqlite_error : ℤ
sqlite_error = pos 1

abbrev pub sqlite_row : ℤ
sqlite_row = pos 100

abbrev pub sqlite_done : ℤ
sqlite_done = pos 101

module _ (sqlite : Sqlite) where
  unfoldable pub ask : Call → Exec Db Answer
  ask c s = let a = sqlite s.events c in (ok a, record s { events = event c a ∷ s.events })

  -- `if (… != code) goto failure;`
  unfoldable pub demand : ℤ → Call → Exec Db (Unit {0})
  unfolding ask
  demand code c s =
      let r = ask c s in
      elim r.0 [
        | ok a ↦ if int_eq a.rc code then (ok tt, r.1) else (failure, r.1)
        | failure ↦ (failure, r.1)
      ]

  -- `sqlite3_prepare_v2(db, sql, -1, &stmt, NULL)`, which leaves NULL in `stmt` when it fails.
  -- A function that returns then, in place of the jump, does the same: its handler has no
  -- statement to finalize.
  unfoldable pub prepare_v2 : Sql → Exec Db (Unit {0})
  prepare_v2 sql s =
      let h = length s.events in
      let a = sqlite s.events (prepare h sql) in
      let t = record s { events = event (prepare h sql) a ∷ s.events } in
      if int_eq a.rc sqlite_ok
      then (ok tt, record t { stmt = some h })
      else (failure, record t { stmt = none })

  -- A call on `stmt` that must return `code`
  unfoldable pub use_stmt : ℤ → Use → Exec Db (Unit {0})
  unfolding demand
  use_stmt code u s = demand code (on_stmt s.stmt u) s

  -- A column of the row that `stmt` is at
  unfoldable pub column : Use → Exec Db Answer
  unfolding ask
  column u s = ask (on_stmt s.stmt u) s

  -- `sqlite3_step(stmt) == SQLITE_ROW`
  unfoldable pub has_row : Exec Db Bool
  unfolding ask
  has_row s =
      let r = ask (on_stmt s.stmt step) s in
      elim r.0 [ ok a ↦ (ok (int_eq a.rc sqlite_row), r.1) | failure ↦ (failure, r.1) ]

  -- `sqlite3_finalize(stmt); stmt = NULL;`
  unfoldable pub finalize_stmt : Exec Db (Unit {0})
  unfolding ask
  finalize_stmt s = let r = ask (finalize s.stmt) s in (ok tt, record r.1 { stmt = none })

  -- A call whose return code the program does not read
  unfoldable pub run : Call → Exec Db (Unit {0})
  unfolding ask
  run c s = (ok tt, (ask c s).1)

  -- `failure: … if (stmt) sqlite3_finalize(stmt); return …;`. `sqlite3_finalize(NULL)` does
  -- nothing.
  unfoldable pub finalize_and_return : {A : Type 0} → A → Db → A × Db
  unfolding ask
  finalize_and_return a s = elim s.stmt [
    | none ↦ (a, s)
    | some h ↦ (a, record (ask (finalize s.stmt) s).1 { stmt = none })
  ]
