-- ===== src/Db/Stored/Loaded.antt =====
-- What `map_row_to_response` of src/core/db_manager.c reads of a row.
use http_runtime.Base.{ℕ, Bool, true, Option, some, List, [], ◌∷◌, ◌≡◌, refl, Bytes, ℤ}
use http_runtime.Models.{Response, empty_response}
use http_runtime.Models.Create.{safe_copy_string, safe_copy_blob}
use http_runtime.Exec.{ok, pure, ◌>>=◌}
use http_runtime.Db.{
  Sqlite, Db, Event, event, Call, Answer, Use, on_stmt, column_int, column_double, column_text,
  column_blob, column_bytes, ask, column,
}
use http_runtime.Db.Rows.{result_of_code, checked_response, read_response}
use http_runtime.Db.Stored.{
  Cell, cell_int, cell_real, cell_bytes, cell_size, nth_cell, is_column, Reading, unread, read,
  AtRow, IsResponseRow,
}

module _ (sqlite : Sqlite) (malloc : ℕ → Bool) where
  unfoldable pub assembled :
      ℤ → ℤ → ℤ → ℤ → ℕ → ℕ → Option Bytes → Option Bytes → Option Bytes → ℕ → ℕ → Option Response
  assembled id request_id status_code result duration body_len headers content_type body headers_len
        content_type_len =
      checked_response sqlite malloc headers_len content_type_len (record empty_response {
        id = id;
        request_id = request_id;
        status_code = status_code;
        result = result_of_code result;
        duration = duration;
        body_len = body_len;
        content_type = safe_copy_string malloc content_type content_type_len;
        headers = safe_copy_string malloc headers headers_len;
        body = safe_copy_blob malloc body body_len;
      })

  pub assembled-cong :
      {id id' : ℤ} {rid rid' : ℤ} {status status' : ℤ} {result result' : ℤ} {duration duration' : ℕ}
      {body_len body_len' : ℕ} {headers headers' : Option Bytes} {ctype ctype' : Option Bytes}
      {body body' : Option Bytes} {hlen hlen' : ℕ} {clen clen' : ℕ}
      → id ≡ id'
      → rid ≡ rid'
      → status ≡ status'
      → result ≡ result'
      → duration ≡ duration'
      → body_len ≡ body_len'
      → headers ≡ headers'
      → ctype ≡ ctype'
      → body ≡ body'
      → hlen ≡ hlen'
      → clen ≡ clen'
      → assembled id rid status result duration body_len headers ctype body hlen clen
        ≡ assembled id' rid' status' result' duration' body_len' headers' ctype' body' hlen' clen'
  assembled-cong a b c d e f g h i j k = cc

  -- What is read from the cells
  abbrev pub from_cells : (ℕ → Cell) → Option Response
  from_cells cell =
      assembled (cell_int (cell 0)) (cell_int (cell 1)) (cell_int (cell 2)) (cell_int (cell 8))
        (cell_real (cell 7)) (cell_size (cell 5)) (cell_bytes (cell 3)) (cell_bytes (cell 4))
        (cell_bytes (cell 5)) (cell_size (cell 3)) (cell_size (cell 4))

  module _ (k : ℕ) where
    abbrev reads : Use → Call
    reads u = on_stmt (some k) u

    abbrev answered : List Event → Use → List Event
    answered es u = event (reads u) (sqlite es (reads u)) ∷ es

    -- The log after each of the calls
    abbrev log : List Use → List Event → List Event
    log [] es = es
    log (u ∷ uses) es = log uses (answered es u)

    abbrev at : List Use → Use → List Event → Answer
    at before u es = sqlite (log before es) (reads u)

    abbrev pub from_answers : List Event → Option Response
    from_answers es =
        let c0 = column_int 0 in
        let c1 = column_int 1 in
        let c2 = column_int 2 in
        let c8 = column_int 8 in
        let c7 = column_double 7 in
        let s5 = column_bytes 5 in
        let t3 = column_text 3 in
        let t4 = column_text 4 in
        let b5 = column_blob 5 in
        let s3 = column_bytes 3 in
        let s4 = column_bytes 4 in
        assembled (at [] c0 es).int_value (at (c0 ∷ []) c1 es).int_value
          (at (c0 ∷ c1 ∷ []) c2 es).int_value (at (c0 ∷ c1 ∷ c2 ∷ []) c8 es).int_value
          (at (c0 ∷ c1 ∷ c2 ∷ c8 ∷ []) c7 es).real (at (c0 ∷ c1 ∷ c2 ∷ c8 ∷ c7 ∷ []) s5 es).size
          (at (c0 ∷ c1 ∷ c2 ∷ c8 ∷ c7 ∷ s5 ∷ []) t3 es).bytes
          (at (c0 ∷ c1 ∷ c2 ∷ c8 ∷ c7 ∷ s5 ∷ t3 ∷ []) t4 es).bytes
          (at (c0 ∷ c1 ∷ c2 ∷ c8 ∷ c7 ∷ s5 ∷ t3 ∷ t4 ∷ []) b5 es).bytes
          (at (c0 ∷ c1 ∷ c2 ∷ c8 ∷ c7 ∷ s5 ∷ t3 ∷ t4 ∷ b5 ∷ []) s3 es).size
          (at (c0 ∷ c1 ∷ c2 ∷ c8 ∷ c7 ∷ s5 ∷ t3 ∷ t4 ∷ b5 ∷ s3 ∷ []) s4 es).size

    pub read_response-answers :
        (base : List Event) (is_open : Bool)
        → (t : Db) × (read_response sqlite malloc
              (record { events = base; is_open = is_open; stmt = some k })
            ≡ (ok (from_answers base), t))
    unfolding read_response ◌>>=◌ column ask pure assembled
    read_response-answers base is_open = (
      (read_response sqlite malloc (record { events = base; is_open = is_open; stmt = some k })).1,
      refl,
    )

    abbrev Columns : List Use → Type 0
    Columns [] = Unit {0}
    Columns (u ∷ uses) = (is_column u ≡ true) × Columns uses

    log-Reading :
        (base es : List Event) (uses : List Use)
        → Reading k base es
        → Columns uses
        → Reading k base (log uses es)
    log-Reading base es [] r c = r
    log-Reading base es (u ∷ uses) r c =
        log-Reading base (answered es u) uses
          (read es (event (reads u) (sqlite es (reads u))) u r refl c.0) c.1

    pub from_answers-cells :
        (base : List Event) (cells : List Cell)
        → AtRow sqlite k base cells
        → IsResponseRow cells
        → from_answers base ≡ from_cells (nth_cell cells)
    from_answers-cells base cells row types =
        let c0 = column_int 0 in
        let c1 = column_int 1 in
        let c2 = column_int 2 in
        let c8 = column_int 8 in
        let c7 = column_double 7 in
        let s5 = column_bytes 5 in
        let t3 = column_text 3 in
        let t4 = column_text 4 in
        let b5 = column_blob 5 in
        let s3 = column_bytes 3 in
        let r = λ (uses : List Use) (c : Columns uses). log-Reading base base uses unread c in
        assembled-cong (row.int_column _ (r ([]) tt) 0 types.id)
          (row.int_column _ (r (c0 ∷ []) (refl, tt)) 1 types.request_id)
          (row.int_column _ (r (c0 ∷ c1 ∷ []) (refl, (refl, tt))) 2 types.status_code)
          (row.int_column _ (r (c0 ∷ c1 ∷ c2 ∷ []) (refl, (refl, (refl, tt)))) 8 types.result)
          (row.double_column _ (r (c0 ∷ c1 ∷ c2 ∷ c8 ∷ []) (refl, (refl, (refl, (refl, tt))))) 7
            types.duration)
          (row.blob_bytes _
            (r (c0 ∷ c1 ∷ c2 ∷ c8 ∷ c7 ∷ []) (refl, (refl, (refl, (refl, (refl, tt)))))) 5
            types.body)
          (row.text_column _
            (r (c0 ∷ c1 ∷ c2 ∷ c8 ∷ c7 ∷ s5 ∷ [])
              (refl, (refl, (refl, (refl, (refl, (refl, tt)))))))
            3 types.headers)
          (row.text_column _
            (r (c0 ∷ c1 ∷ c2 ∷ c8 ∷ c7 ∷ s5 ∷ t3 ∷ [])
              (refl, (refl, (refl, (refl, (refl, (refl, (refl, tt))))))))
            4 types.content_type)
          (row.blob_column _
            (r (c0 ∷ c1 ∷ c2 ∷ c8 ∷ c7 ∷ s5 ∷ t3 ∷ t4 ∷ [])
              (refl, (refl, (refl, (refl, (refl, (refl, (refl, (refl, tt)))))))))
            5 types.body)
          (row.text_bytes _
            (r (c0 ∷ c1 ∷ c2 ∷ c8 ∷ c7 ∷ s5 ∷ t3 ∷ t4 ∷ b5 ∷ [])
              (refl, (refl, (refl, (refl, (refl, (refl, (refl, (refl, (refl, tt))))))))))
            3 types.headers)
          (row.text_bytes _
            (r (c0 ∷ c1 ∷ c2 ∷ c8 ∷ c7 ∷ s5 ∷ t3 ∷ t4 ∷ b5 ∷ s3 ∷ [])
              (refl, (refl, (refl, (refl, (refl, (refl, (refl, (refl, (refl, (refl, tt)))))))))))
            4 types.content_type)
