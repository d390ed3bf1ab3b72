-- ===== src/Tests/Db.antt =====
-- The database manager with a SQLite that answers every call with the same code.
use http_runtime.Base.{true, false, none, [], ◌∷◌, ◌≡◌, refl, inl, codes, ℤ, pos, List}
use http_runtime.Models.{Collection, empty_response}
use http_runtime.Db.{Db, Sqlite, sqlite_ok}
use http_runtime.Db.Admin.{db_init}
use http_runtime.Db.Held.{Resting, held_after}
use http_runtime.Db.Held.Runs.{
  DbCall, init, save_collection, save_response, next_pending_request, close, perform_all,
  perform_all-Resting,
}

abbrev pub always : ℤ → Sqlite
always rc events call = record { rc = rc; int_value = pos 1; size = 0; real = 0; bytes = none }

abbrev pub no_db : Db
no_db = record { events = []; is_open = false; stmt = none }

abbrev demo : Collection
demo = record { id = pos 0; name = codes "demo"; name_len = 4 }

opens : (db_init (always sqlite_ok) (codes "runner.db") no_db).0 ≡ sqlite_ok
unfolding db_init
opens = refl

-- A step never returns `SQLITE_DONE` here, so each function that writes jumps to its label.
abbrev calls : List DbCall
calls =
    init (codes "runner.db")
    ∷ save_collection demo
    ∷ next_pending_request
    ∷ save_response empty_response
    ∷ close
    ∷ []

no_db-Resting : Resting no_db
unfolding held_after
no_db-Resting = inl (refl, refl)

perform_all-Resting_example : Resting (perform_all (always sqlite_ok) (λ n. true) calls no_db)
perform_all-Resting_example =
    perform_all-Resting (always sqlite_ok) (λ n. true) calls no_db no_db-Resting
