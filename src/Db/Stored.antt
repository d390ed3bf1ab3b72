-- ===== src/Db/Stored.antt =====
-- What SQLite keeps of a row, as far as src/core/db_manager.c relies on it: a column of the row
-- that a statement is at is what was bound to the parameter for it when the row was inserted.
pub mod Bound
pub mod Loaded
pub mod Columns
pub mod Kept
use http_runtime.Base.{
  ℕ, zero, suc, ◌+◌, ◌*◌, ◌%◌, ◌^◌, Bool, true, false, ◌&&◌, Option, none, some, List, [], ◌∷◌, ◌≡◌,
  ltb, ◌==◌, if◌then◌else◌, length, take, Bytes, ℤ, pos, negsuc, ◌<◌,
}
use http_runtime.Db.{
  Sqlite, Db, Event, event, Call, Use, prepare, on_stmt, bind_int, bind_int64, bind_double,
  bind_text, bind_blob, bind_null, column_int, column_double, column_text, column_blob,
  column_bytes,
}

pub data Cell : Type 0 where
  null_cell : Cell
  int_cell : ℤ → Cell
  real_cell : ℕ → Cell
  text_cell blob_cell : Bytes → Cell

-- The bit pattern of a double that is not a number
abbrev pub is_nan : ℕ → Bool
is_nan d = ltb (2047 * 2 ^ 52) (d % 2 ^ 63)

-- What is stored of a bound number: NULL for what is not a number, and 0 for the negative zero.
abbrev pub real_of : ℕ → Cell
real_of d = if is_nan d then null_cell else if d == 2 ^ 63 then real_cell 0 else real_cell d

-- What is stored of a bound value. A NULL pointer is NULL. A text of a negative length goes up to
-- its end; a block of a negative length is refused.
abbrev pub cell_of : Use → Cell
cell_of (bind_int i n) = int_cell n
cell_of (bind_int64 i n) = int_cell (pos n)
cell_of (bind_double i d) = real_of d
cell_of (bind_text i (some text) (pos n)) = text_cell (take n text)
cell_of (bind_text i (some text) (negsuc n)) = text_cell text
cell_of (bind_blob i (some data_bytes) (pos n)) = blob_cell (take n data_bytes)
cell_of _ = null_cell

-- The parameter that a call binds
abbrev pub parameter : Use → Option ℕ
parameter (bind_int i n) = some i
parameter (bind_int64 i n) = some i
parameter (bind_double i d) = some i
parameter (bind_text i text n) = some i
parameter (bind_blob i data_bytes n) = some i
parameter (bind_null i) = some i
parameter _ = none

abbrev pub and_bound : Option ℕ → Use → List Use → List Use
and_bound none u uses = uses
and_bound (some i) u uses = u ∷ uses

abbrev pub bound_by : ℕ → Call → List Use → List Use
bound_by h (prepare k sql) uses = if k == h then [] else uses
bound_by h (on_stmt (some k) u) uses = if k == h then and_bound (parameter u) u uses else uses
bound_by h _ uses = uses

-- What was bound to the parameters of the statement `h`, newest first.
unfoldable pub binds : ℕ → List Event → List Use
binds h [] = []
binds h (e ∷ events) = bound_by h e.call (binds h events)

abbrev pub is_parameter : ℕ → Option ℕ → Bool
is_parameter i none = false
is_parameter i (some j) = j == i

unfoldable pub bound_cell : ℕ → List Use → Cell
bound_cell i [] = null_cell
bound_cell i (u ∷ uses) =
    let rest = bound_cell i uses in if is_parameter i (parameter u) then cell_of u else rest

-- A row of the table `responses` with the id and the values that were bound: the column list of
-- the INSERT in `db_save_response` against that of the SELECT in
-- `db_get_latest_response_by_request_id`.
abbrev pub response_cells : ℤ → List Use → List Cell
response_cells id uses =
    int_cell id
    ∷ bound_cell 1 uses
    ∷ bound_cell 2 uses
    ∷ bound_cell 5 uses
    ∷ bound_cell 6 uses
    ∷ bound_cell 7 uses
    ∷ bound_cell 8 uses
    ∷ bound_cell 4 uses
    ∷ bound_cell 3 uses
    ∷ []

abbrev pub nth_cell : List Cell → ℕ → Cell
nth_cell [] i = null_cell
nth_cell (c ∷ cells) zero = c
nth_cell (c ∷ cells) (suc i) = nth_cell cells i

abbrev pub cell_int : Cell → ℤ
cell_int (int_cell n) = n
cell_int _ = pos 0

abbrev pub cell_real : Cell → ℕ
cell_real (real_cell d) = d
cell_real _ = 0

-- A BLOB without bytes is read as NULL.
abbrev pub cell_bytes : Cell → Option Bytes
cell_bytes (text_cell text) = some text
cell_bytes (blob_cell (b ∷ bs)) = some (b ∷ bs)
cell_bytes _ = none

abbrev pub cell_size : Cell → ℕ
cell_size (text_cell text) = length text
cell_size (blob_cell data_bytes) = length data_bytes
cell_size _ = 0

abbrev pub is_column : Use → Bool
is_column (column_int i) = true
is_column (column_double i) = true
is_column (column_text i) = true
is_column (column_blob i) = true
is_column (column_bytes i) = true
is_column _ = false

-- The statement `k` is used to read columns, and nothing else happens.
pub data Reading (k : ℕ) (base : List Event) : List Event → Type 0 where
  unread : Reading k base base
  read :
      (es : List Event) (e : Event) (u : Use)
      → Reading k base es
      → e.call ≡ on_stmt (some k) u
      → is_column u ≡ true
      → Reading k base (e ∷ es)

-- The value is that of an `int`.
abbrev pub IsInt : ℤ → Type 0
IsInt (pos n) = n < 2 ^ 31
IsInt (negsuc n) = n < 2 ^ 31

abbrev pub IsIntCell : Cell → Type 0
IsIntCell (int_cell n) = IsInt n
IsIntCell _ = ⊥

abbrev pub IsRealCell : Cell → Type 0
IsRealCell (real_cell d) = Unit {0}
IsRealCell _ = ⊥

abbrev pub IsTextCell : Cell → Type 0
IsTextCell null_cell = Unit {0}
IsTextCell (text_cell text) = Unit {0}
IsTextCell _ = ⊥

abbrev pub IsBlobCell : Cell → Type 0
IsBlobCell null_cell = Unit {0}
IsBlobCell (blob_cell data_bytes) = Unit {0}
IsBlobCell _ = ⊥

-- The statement `k` is at a row with these cells. A column is read by the function for the type
-- that it has; of what SQLite converts nothing is said.
pub record AtRow (sqlite : Sqlite) (k : ℕ) (base : List Event) (cells : List Cell) : Type 0 where
  pub int_column :
      (es : List Event)
      → Reading k base es
      → (i : ℕ) → IsIntCell (nth_cell cells i)
      → (sqlite es (on_stmt (some k) (column_int i))).int_value ≡ cell_int (nth_cell cells i)
  pub double_column :
      (es : List Event)
      → Reading k base es
      → (i : ℕ) → IsRealCell (nth_cell cells i)
      → (sqlite es (on_stmt (some k) (column_double i))).real ≡ cell_real (nth_cell cells i)
  pub text_column :
      (es : List Event)
      → Reading k base es
      → (i : ℕ) → IsTextCell (nth_cell cells i)
      → (sqlite es (on_stmt (some k) (column_text i))).bytes ≡ cell_bytes (nth_cell cells i)
  pub text_bytes :
      (es : List Event)
      → Reading k base es
      → (i : ℕ) → IsTextCell (nth_cell cells i)
      → (sqlite es (on_stmt (some k) (column_bytes i))).size ≡ cell_size (nth_cell cells i)
  pub blob_column :
      (es : List Event)
      → Reading k base es
      → (i : ℕ) → IsBlobCell (nth_cell cells i)
      → (sqlite es (on_stmt (some k) (column_blob i))).bytes ≡ cell_bytes (nth_cell cells i)
  pub blob_bytes :
      (es : List Event)
      → Reading k base es
      → (i : ℕ) → IsBlobCell (nth_cell cells i)
      → (sqlite es (on_stmt (some k) (column_bytes i))).size ≡ cell_size (nth_cell cells i)

-- The types of the columns of a response
pub record IsResponseRow (cells : List Cell) : Type 0 where
  pub id : IsIntCell (nth_cell cells 0)
  pub request_id : IsIntCell (nth_cell cells 1)
  pub status_code : IsIntCell (nth_cell cells 2)
  pub headers : IsTextCell (nth_cell cells 3)
  pub content_type : IsTextCell (nth_cell cells 4)
  pub body : IsBlobCell (nth_cell cells 5)
  pub duration : IsRealCell (nth_cell cells 7)
  pub result : IsIntCell (nth_cell cells 8)
