-- ===== src/Db/Held/Functions.antt =====
-- Each function of src/core/db_manager.c finalizes the statements that it prepares, and ends its
-- transaction.
use http_runtime.Base.{ℕ, Option, none, some, ℤ, Bytes}
use http_runtime.Models.{Request, Response, Collection}
use http_runtime.Exec.{Leads}
use http_runtime.Db.{Sqlite, Db}
use http_runtime.Db.Held.{Transaction, Holding, Idle, Live, held_rules, ended}
use http_runtime.Db.Save.{
  save_collection, db_save_collection, save_response, db_save_response, save_request,
  bind_optional_text, bind_body, db_save_request, change_status, db_update_request_status,
}

module _ (sqlite : Sqlite) (t : Transaction) where
  bind_optional_text-Leads :
      (i : ℕ) (text : Option Bytes)
      → Leads (Holding t) (Live t) (Live t) (bind_optional_text sqlite i text)
  bind_optional_text-Leads i none = search held_rules
  bind_optional_text-Leads i (some text) = search held_rules

  bind_body-Leads :
      (body : Option Bytes) (len : ℕ)
      → Leads (Holding t) (Live t) (Live t) (bind_body sqlite body len)
  bind_body-Leads none len = search held_rules
  bind_body-Leads (some body) len = search held_rules

  save_collection-Leads :
      (coll : Collection) → Leads (Holding t) (Idle t) (Idle t) (save_collection sqlite coll)
  unfolding save_collection
  save_collection-Leads coll = search held_rules depth 40 fits 2000

  save_response-Leads :
      (resp : Response) → Leads (Holding t) (Idle t) (Idle t) (save_response sqlite resp)
  unfolding save_response
  save_response-Leads resp =
      search (held_rules, bind_optional_text-Leads, bind_body-Leads) depth 40 fits 2000

  save_request-Leads :
      (req : Request) → Leads (Holding t) (Idle t) (Idle t) (save_request sqlite req)
  unfolding save_request
  save_request-Leads req = search held_rules depth 40 fits 2000

  change_status-Leads :
      (id status : ℤ) → Leads (Holding t) (Idle t) (Idle t) (change_status sqlite id status)
  unfolding change_status
  change_status-Leads id status = search held_rules depth 40 fits 2000

  pub db_save_collection-Idle :
      (coll : Collection) (s : Db) → Idle t s → Idle t (db_save_collection sqlite coll s).1
  unfolding db_save_collection
  db_save_collection-Idle coll s h =
      ended sqlite t (save_collection sqlite coll) _ (save_collection-Leads coll) s h

  pub db_save_response-Idle :
      (resp : Response) (s : Db) → Idle t s → Idle t (db_save_response sqlite resp s).1
  unfolding db_save_response
  db_save_response-Idle resp s h =
      ended sqlite t (save_response sqlite resp) _ (save_response-Leads resp) s h

  pub db_save_request-Idle :
      (req : Request) (s : Db) → Idle t s → Idle t (db_save_request sqlite req s).1
  unfolding db_save_request
  db_save_request-Idle req s h =
      ended sqlite t (save_request sqlite req) _ (save_request-Leads req) s h

  pub db_update_request_status-Idle :
      (id status : ℤ) (s : Db) → Idle t s → Idle t (db_update_request_status sqlite id status s).1
  unfolding db_update_request_status
  db_update_request_status-Idle id status s h =
      ended sqlite t (change_status sqlite id status) _ (change_status-Leads id status) s h
