-- ===== src/Tests/Stored.antt =====
-- A response that is saved and read again.
use http_runtime.Base.{ℕ, true, some, List, [], ◌∷◌, ◌≡◌, refl, codes, arith, ℤ, pos}
use http_runtime.Models.{Response, empty_response, response_ok}
use http_runtime.Exec.{ok, pure, ◌>>=◌, on_failure}
use http_runtime.Assertion.Header.{until}
use http_runtime.Db.{
  Sqlite, Db, Call, on_stmt, step, column_int, column_double, column_text, column_blob,
  column_bytes, sqlite_ok, sqlite_done, ask, demand, prepare_v2, use_stmt, finalize_stmt,
}
use http_runtime.Db.Save.{result_code, save_response, db_save_response}
use http_runtime.Db.Rows.{map_row_to_response}
use http_runtime.Db.Stored.{
  Cell, int_cell, real_cell, text_cell, blob_cell, cell_int, cell_real, cell_bytes, cell_size,
  nth_cell, binds, bound_cell, AtRow,
}
use http_runtime.Db.Stored.Kept.{Storable, stored, db_save_response-map_row}
use http_runtime.Tests.Db.{no_db}

abbrev answer_42 : Response
answer_42 = record empty_response {
  request_id = pos 7;
  status_code = pos 200;
  headers = some (codes "A: b");
  content_type = some (codes "text/plain");
  body = some (codes "42");
  body_len = 2;
  duration = 4609434218613702656;
  result = response_ok;
}

abbrev row : List Cell
row =
    int_cell (pos 5)
    ∷ int_cell (pos 7)
    ∷ int_cell (pos 200)
    ∷ text_cell (codes "A: b")
    ∷ text_cell (codes "text/plain")
    ∷ blob_cell (codes "42")
    ∷ int_cell (pos 2)
    ∷ real_cell 4609434218613702656
    ∷ int_cell (pos 0)
    ∷ []

abbrev column_of : Call → ℕ
column_of (on_stmt h (column_int i)) = i
column_of (on_stmt h (column_double i)) = i
column_of (on_stmt h (column_text i)) = i
column_of (on_stmt h (column_blob i)) = i
column_of (on_stmt h (column_bytes i)) = i
column_of _ = 0

abbrev code_of : Call → ℤ
code_of (on_stmt h step) = sqlite_done
code_of _ = sqlite_ok

-- A SQLite that has this row.
abbrev one_row : Sqlite
one_row events call =
    let cell = nth_cell row (column_of call) in
    record {
      rc = code_of call;
      int_value = cell_int cell;
      size = cell_size cell;
      real = cell_real cell;
      bytes = cell_bytes cell;
    }

row-AtRow : AtRow one_row 20 [] row
row-AtRow = record {
  int_column = λ es r i t. refl;
  double_column = λ es r i t. refl;
  text_column = λ es r i t. refl;
  text_bytes = λ es r i t. refl;
  blob_column = λ es r i t. refl;
  blob_bytes = λ es r i t. refl;
}

answer_42-Storable : Storable (λ n. true) (λ n. refl) one_row (pos 5) answer_42
unfolding until
answer_42-Storable = record {
  id_is = omega arith;
  request_id_is = omega arith;
  status_code_is = omega arith;
  headers_fit = omega arith;
  content_type_fits = omega arith;
  body_fits = omega arith;
  duration_is = refl;
}

db_save_response-map_row_example :
    (t : Db) × (map_row_to_response one_row
        (λ n. true)
        (record { events = []; is_open = true; stmt = some 20 })
      ≡ (ok (some (stored (λ n. true) (λ n. refl) one_row (pos 5) answer_42)), t))
unfolding db_save_response save_response on_failure prepare_v2 use_stmt demand ask finalize_stmt
    ◌>>=◌ pure result_code until binds bound_cell
db_save_response-map_row_example =
    db_save_response-map_row (λ n. true) (λ n. refl) one_row answer_42 no_db refl 20 [] true (pos 5)
      row-AtRow answer_42-Storable
