-- ===== src/Db/Stored/Kept.antt =====
-- What comes back of a response that src/core/db_manager.c saved.
use http_runtime.Base.{
  ℕ, ◌<◌, ◌^◌, sym, suc, ◌+◌, Bool, true, false, Option, none, some, List, [], ◌∷◌, ◌≡◌, refl, ap,
  ◌∙◌, subst, ◌==◌, length, take-length, Bytes, ℤ, arith,
}
use http_runtime.Models.{Response, empty_response}
use http_runtime.Models.Create.{safe_copy_string, safe_copy_blob, is_lost}
use http_runtime.Exec.{ok}
use http_runtime.Db.{Sqlite, Db, Event, sqlite_ok}
use http_runtime.Db.Save.{result_code, c_text, db_save_response}
use http_runtime.Db.Rows.{map_row_to_response, response_size}
use http_runtime.Db.Stored.{
  real_cell, cell_int, cell_real, cell_bytes, cell_size, real_of, IsInt, IsIntCell, IsTextCell,
  IsBlobCell, IsRealCell, IsResponseRow, binds, response_cells, nth_cell, AtRow,
}
use http_runtime.Db.Stored.Bound.{response_uses, db_save_response-binds}
use http_runtime.Db.Stored.Loaded.{
  assembled, assembled-cong, from_cells, from_answers-cells, read_response-answers,
}
use http_runtime.Db.Stored.Columns.{
  kept, taken, size_of, Fits, text_use-IsTextCell, body_use-IsBlobCell, result_code-IsInt,
  cell_bytes-text, cell_size-text, cell_bytes-body, cell_size-body, result_of_code-result_code,
  bound_1, bound_2, bound_3, bound_4, bound_5, bound_6, bound_7,
}

module _ (malloc : ℕ → Bool) (ample : (n : ℕ) → malloc n ≡ true) where
  copied_text : (o : Option Bytes) → safe_copy_string malloc o (size_of o) ≡ kept o
  unfolding safe_copy_string
  copied_text none = refl
  copied_text (some []) = refl
  copied_text (some (b ∷ bs)) =
      let e : (suc (length bs) == 0) ≡ false = ground arith in
      rw (e, ample (suc (length bs) + 1)) (ap some (take-length (b ∷ bs)))

  copied_body : (o : Option Bytes) → safe_copy_blob malloc (kept o) (size_of o) ≡ kept o
  unfolding safe_copy_blob
  copied_body none = refl
  copied_body (some []) = refl
  copied_body (some (b ∷ bs)) =
      let e : (suc (length bs) == 0) ≡ false = ground arith in
      rw (e, ample (suc (length bs))) (ap some (take-length (b ∷ bs)))

  nothing_lost : (o : Option Bytes) → is_lost (size_of o) (kept o) ≡ false
  nothing_lost none = refl
  nothing_lost (some []) = refl
  nothing_lost (some (b ∷ bs)) = refl

  -- The response that is read: what is not stored is zero.
  abbrev pub stored : Sqlite → ℤ → Response → Response
  stored sqlite id resp = record empty_response {
    id = id;
    request_id = resp.request_id;
    status_code = resp.status_code;
    result = resp.result;
    duration = resp.duration;
    headers = kept (c_text sqlite resp.headers);
    content_type = kept resp.content_type;
    body = kept (taken resp.body resp.body_len);
    body_len = size_of (taken resp.body resp.body_len);
  }

  assembled-stored :
      (sqlite : Sqlite) (id : ℤ) (resp : Response)
      → (let headers = c_text sqlite resp.headers in
          let body = taken resp.body resp.body_len in
          assembled sqlite malloc id resp.request_id resp.status_code
            (result_code resp.result)
            resp.duration
            (size_of body)
            headers
            resp.content_type
            (kept body)
            (size_of headers)
            (size_of resp.content_type)
          ≡ some (stored sqlite id resp))
  unfolding assembled
  assembled-stored sqlite id resp =
      let headers = c_text sqlite resp.headers in
      let body = taken resp.body resp.body_len in
      rw
        (
          copied_text headers,
          copied_text resp.content_type,
          copied_body body,
          result_of_code-result_code resp.result,
          nothing_lost resp.content_type,
          nothing_lost headers,
          nothing_lost body,
        )
        refl

  -- What an SQLite column and an `int` can take: the fields of type `int` are such, the texts and
  -- the body are shorter than 2 GiB, and the duration is a number other than the negative zero.
  pub record Storable (sqlite : Sqlite) (id : ℤ) (resp : Response) : Type 0 where
    pub id_is : IsInt id
    pub request_id_is : IsInt resp.request_id
    pub status_code_is : IsInt resp.status_code
    pub headers_fit : Fits (c_text sqlite resp.headers)
    pub content_type_fits : Fits resp.content_type
    pub body_fits : resp.body_len < 2 ^ 31
    pub duration_is : real_of resp.duration ≡ real_cell resp.duration

  cells-stored :
      (sqlite : Sqlite) (id : ℤ) (resp : Response)
      → Storable sqlite id resp
      → from_cells sqlite malloc (nth_cell (response_cells id (response_uses sqlite resp)))
        ≡ some (stored sqlite id resp)
  cells-stored sqlite id resp ok_to =
      let headers = c_text sqlite resp.headers in
      assembled-cong sqlite malloc refl (ap cell_int (bound_1 sqlite resp))
        (ap cell_int (bound_2 sqlite resp)) (ap cell_int (bound_3 sqlite resp))
        (ap cell_real (bound_4 sqlite resp ∙ ok_to.duration_is))
        (ap cell_size (bound_7 sqlite resp)
          ∙ cell_size-body resp.body resp.body_len ok_to.body_fits)
        (ap cell_bytes (bound_5 sqlite resp) ∙ cell_bytes-text 5 headers ok_to.headers_fit)
        (ap cell_bytes (bound_6 sqlite resp)
          ∙ cell_bytes-text 6 resp.content_type ok_to.content_type_fits)
        (ap cell_bytes (bound_7 sqlite resp)
          ∙ cell_bytes-body resp.body resp.body_len ok_to.body_fits)
        (ap cell_size (bound_5 sqlite resp) ∙ cell_size-text 5 headers ok_to.headers_fit)
        (ap cell_size (bound_6 sqlite resp)
          ∙ cell_size-text 6 resp.content_type ok_to.content_type_fits)
      ∙ assembled-stored sqlite id resp

  cells-IsResponseRow :
      (sqlite : Sqlite) (id : ℤ) (resp : Response)
      → Storable sqlite id resp
      → IsResponseRow (response_cells id (response_uses sqlite resp))
  cells-IsResponseRow sqlite id resp ok_to = record {
    id = ok_to.id_is;
    request_id = subst IsIntCell (sym (bound_1 sqlite resp)) ok_to.request_id_is;
    status_code = subst IsIntCell (sym (bound_2 sqlite resp)) ok_to.status_code_is;
    headers =
        subst IsTextCell (sym (bound_5 sqlite resp))
          (text_use-IsTextCell 5 (c_text sqlite resp.headers) ok_to.headers_fit);
    content_type =
        subst IsTextCell (sym (bound_6 sqlite resp))
          (text_use-IsTextCell 6 resp.content_type ok_to.content_type_fits);
    body =
        subst IsBlobCell (sym (bound_7 sqlite resp))
          (body_use-IsBlobCell resp.body resp.body_len ok_to.body_fits);
    duration = subst IsRealCell (sym (bound_4 sqlite resp ∙ ok_to.duration_is)) tt;
    result = subst IsIntCell (sym (bound_3 sqlite resp)) (result_code-IsInt resp.result);
  }

  row-stored :
      (sqlite : Sqlite) (k : ℕ) (base : List Event) (is_open : Bool) (id : ℤ) (resp : Response)
      → Storable sqlite id resp
      → AtRow sqlite k base (response_cells id (response_uses sqlite resp))
      → (t : Db) × (map_row_to_response sqlite malloc
            (record { events = base; is_open = is_open; stmt = some k })
          ≡ (ok (some (stored sqlite id resp)), t))
  unfolding map_row_to_response
  row-stored sqlite k base is_open id resp e row =
      let a = read_response-answers sqlite malloc k base is_open in
      let c =
        from_answers-cells sqlite malloc k base (response_cells id (response_uses sqlite resp)) row
          (cells-IsResponseRow sqlite id resp e)
        ∙ cells-stored sqlite id resp e in
      rw (ample response_size) (a.0, a.1 ∙ ap (λ o. (ok o, a.0)) c)

  -- A response comes back as it was saved: when `db_save_response` returned `SQLITE_OK`, a
  -- statement that is at a row with the values it bound, in the order of the columns of the
  -- SELECT, and with the id of the row, is read into a record with these fields. The id is the
  -- one of the row, headers, content type and body that are empty come back as NULL, and the
  -- fields that are not stored are zero. `malloc` does not fail; the numbers are those of their
  -- types, the sizes below 2 GiB, and the duration is a number other than the negative zero.
  pub db_save_response-map_row :
      (sqlite : Sqlite) (resp : Response) (s : Db)
      → (db_save_response sqlite resp s).0.0 ≡ sqlite_ok
      → (k : ℕ) (base : List Event) (is_open : Bool) (id : ℤ)
      → AtRow sqlite k base
          (response_cells id (binds (length s.events) (db_save_response sqlite resp s).1.events))
      → Storable sqlite id resp
      → (t : Db) × (map_row_to_response sqlite malloc
            (record { events = base; is_open = is_open; stmt = some k })
          ≡ (ok (some (stored sqlite id resp)), t))
  db_save_response-map_row sqlite resp s returned k base is_open id row e =
      row-stored sqlite k base is_open id resp e (
        subst (λ uses. AtRow sqlite k base (response_cells id uses))
          (db_save_response-binds sqlite resp s returned) row)
