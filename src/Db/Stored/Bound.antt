-- ===== src/Db/Stored/Bound.antt =====
-- What `db_save_response` of src/core/db_manager.c binds.
use http_runtime.Base.{
  ℕ, Option, none, some, List, [], ◌∷◌, ◌≡◌, refl, ap, sym, ◌∙◌, ==_iff, ltb, if◌then◌else◌, length,
  Bytes, ℤ, int_of_bits, int_eq, arith, Bool-cases, inl, inr,
}
use http_runtime.Models.{Response}
use http_runtime.Exec.{
  Result, ok, failure, Leads, Leads-bind, Leads-pure, Outcome, Outcome-if, on_failure,
}
use http_runtime.Db.{
  Sqlite, Db, Event, Sql, Use, prepare, on_stmt, last_insert_rowid, bind_int, bind_int64,
  bind_double, bind_text, bind_blob, bind_null, step, insert_response, sqlite_ok, sqlite_error,
  sqlite_done, ask, prepare_v2, demand, use_stmt, finalize_stmt, finalize_and_return,
}
use http_runtime.Db.Save.{
  result_code, bind_optional_text, c_text, bind_body, save_response, db_save_response,
}
use http_runtime.Db.Stored.{and_bound, parameter, binds}

abbrev pub text_use : ℕ → Option Bytes → Use
text_use i none = bind_null i
text_use i (some text) = bind_text i (some text) (int_of_bits (length text))

abbrev pub body_use : Option Bytes → ℕ → Use
body_use none len = bind_null 7
body_use (some body) len =
    if ltb 0 len then bind_blob 7 (some body) (int_of_bits len) else bind_null 7

module _ (sqlite : Sqlite) where
  abbrev pub response_uses : Response → List Use
  response_uses resp =
      bind_int64 8 resp.body_len
      ∷ body_use resp.body resp.body_len
      ∷ text_use 6 resp.content_type
      ∷ text_use 5 (c_text sqlite resp.headers)
      ∷ bind_double 4 resp.duration
      ∷ bind_int 3 (result_code resp.result)
      ∷ bind_int 2 resp.status_code
      ∷ bind_int 1 resp.request_id
      ∷ []

  module _ (h : ℕ) where
    abbrev Any : Db → Type 0
    Any s = Unit {0}

    abbrev Before : Db → Type 0
    Before s = length s.events ≡ h

    abbrev Bound : List Use → Db → Type 0
    Bound uses s = (s.stmt ≡ some h) × (binds h s.events ≡ uses)

    abbrev Written : List Use → Db → Type 0
    Written uses s = binds h s.events ≡ uses

    prepare-Leads : (sql : Sql) → Leads Any Before (Bound []) (prepare_v2 sqlite sql)
    unfolding prepare_v2 binds
    prepare-Leads sql = record {
      at = λ s e.
          Outcome-if Any (Bound [])
            (int_eq (sqlite s.events (prepare (length s.events) sql)).rc sqlite_ok) _ _
            (λ d. (ap some e, rw ((==_iff (length s.events) h).1 e) refl)) (λ d. tt);
    }

    binds-use :
        (u : Use) (s : Db) (uses : List Use) (e : Event)
        → Bound uses s
        → e.call ≡ on_stmt s.stmt u
        → binds h (e ∷ s.events) ≡ and_bound (parameter u) u uses
    unfolding binds
    binds-use u s uses e (k, b) c = rw (c, k, (==_iff h h).1 refl, b) refl

    use_stmt-Leads :
        (code : ℤ) (u : Use) (uses : List Use)
        → Leads Any (Bound uses) (Bound (and_bound (parameter u) u uses)) (use_stmt sqlite code u)
    unfolding use_stmt demand ask
    use_stmt-Leads code u uses = record {
      at = λ s b.
          Outcome-if Any (Bound (and_bound (parameter u) u uses))
            (int_eq (sqlite s.events (on_stmt s.stmt u)).rc code) _ _
            (λ d. (b.0, binds-use u s uses _ b refl)) (λ d. tt);
    }

    rowid-Leads :
        (uses : List Use) → Leads Any (Bound uses) (Bound uses) (ask sqlite last_insert_rowid)
    unfolding ask binds
    rowid-Leads uses = record { at = λ s b. b }

    finalize-Leads :
        (uses : List Use) → Leads Any (Bound uses) (Written uses) (finalize_stmt sqlite)
    unfolding finalize_stmt binds
    finalize-Leads uses = record { at = λ s b. b.1 }

    text-Leads :
        (i : ℕ) (text : Option Bytes) (uses : List Use)
        → Leads Any (Bound uses) (Bound (text_use i text ∷ uses)) (bind_optional_text sqlite i text)
    text-Leads i none uses = use_stmt-Leads sqlite_ok (bind_null i) uses
    text-Leads i (some text) uses =
        use_stmt-Leads sqlite_ok (bind_text i (some text) (int_of_bits (length text))) uses

    body-Leads :
        (body : Option Bytes) (len : ℕ) (uses : List Use)
        → Leads Any (Bound uses) (Bound (body_use body len ∷ uses)) (bind_body sqlite body len)
    body-Leads none len uses = use_stmt-Leads sqlite_ok (bind_null 7) uses
    body-Leads (some body) len uses = elim (Bool-cases (ltb 0 len)) [
      | inl e ↦ rw e (use_stmt-Leads sqlite_ok (bind_blob 7 (some body) (int_of_bits len)) uses)
      | inr e ↦ rw e (use_stmt-Leads sqlite_ok (bind_null 7) uses)
    ]

    save_response-Leads :
        (resp : Response)
        → Leads Any Before (Written (response_uses resp)) (save_response sqlite resp)
    unfolding save_response
    save_response-Leads resp = Leads-bind _ _ (prepare-Leads insert_response) (λ _.
        Leads-bind _ _ (use_stmt-Leads sqlite_ok (bind_int 1 resp.request_id) _) (λ _.
          Leads-bind _ _ (use_stmt-Leads sqlite_ok (bind_int 2 resp.status_code) _) (λ _.
            Leads-bind _ _ (use_stmt-Leads sqlite_ok (bind_int 3 (result_code resp.result)) _) (λ _.
              Leads-bind _ _ (use_stmt-Leads sqlite_ok (bind_double 4 resp.duration) _) (λ _.
                Leads-bind _ _ (text-Leads 5 (c_text sqlite resp.headers) _) (λ _.
                  Leads-bind _ _ (text-Leads 6 resp.content_type _) (λ _.
                    Leads-bind _ _ (body-Leads resp.body resp.body_len _) (λ _.
                      Leads-bind _ _ (use_stmt-Leads sqlite_ok (bind_int64 8 resp.body_len) _) (λ _.
                        Leads-bind _ _ (use_stmt-Leads sqlite_done step _) (λ _.
                          Leads-bind _ _ (rowid-Leads _)
                            (λ id. Leads-bind _ _ (finalize-Leads _) (λ _. Leads-pure _))))))))))))

  failed_code :
      (resp : Response) (s : Db)
      → (let r : (ℤ × Response) × Db = finalize_and_return sqlite (sqlite_error, resp) s in
          r.0.0 ≡ sqlite_error)
  unfolding finalize_and_return
  failed_code resp s = ground arith

  -- When it returns `SQLITE_OK`, `db_save_response` has bound the fields of the response.
  pub db_save_response-binds :
      (resp : Response) (s : Db)
      → (db_save_response sqlite resp s).0.0 ≡ sqlite_ok
      → binds (length s.events) (db_save_response sqlite resp s).1.events ≡ response_uses resp
  unfolding db_save_response on_failure
  db_save_response-binds resp s =
      at (save_response sqlite resp s) ((save_response-Leads (length s.events) resp).at s refl)
    where
      at :
          (r : Result (ℤ × Response) × Db)
          → Outcome (Any (length s.events)) (Written (length s.events) (response_uses resp)) r
          → (let e = elim r.0 as (λ _. (ℤ × Response) × Db) [
            | ok a ↦ (a, r.1)
            | failure ↦ finalize_and_return sqlite (sqlite_error, resp) r.1
          ] in
              e.0.0 ≡ sqlite_ok → binds (length s.events) e.1.events ≡ response_uses resp)
      at (ok a, t) w = λ c. w
      at (failure, t) w = λ c. absurd (let e = sym (failed_code resp t) ∙ c in cc)
