-- ===== src/Db/Held.antt =====
-- What the functions of src/core/db_manager.c hold of SQLite: the prepared statement that is not
-- yet finalized, and whether a transaction is open.
pub mod Functions
pub mod Reads
pub mod Runs
use http_runtime.Base.{
  ℕ, Bool, true, false, Option, none, some, List, [], ◌∷◌, ◌≡◌, refl, ap, sym, ◌∙◌, inl, inr, ◌⊎◌,
  Option-cases, subst, if◌then◌else◌, ◌==◌, ==_iff, ℤ, int_eq, arith, length,
}
use http_runtime.Exec.{
  Exec, ok, failure, Leads, Leads-pure, Leads-if, Leads-bind, Outcome, Outcome-if, ◌>>=◌,
  on_failure, on_failure-Leads,
}
use http_runtime.Db.{
  Sqlite, Db, Answer, Event, event, Call, Sql, Use, exec, prepare, on_stmt, finalize,
  last_insert_rowid, begin_immediate, commit, rollback, sqlite_ok, ask, demand, prepare_v2,
  use_stmt, column, has_row, finalize_stmt, run, finalize_and_return, step,
}

-- Whether there is a transaction. `unended` is what is left when SQLite refuses a COMMIT or a
-- ROLLBACK: the transaction may then be open.
pub data Transaction : Type 0 where
  no_transaction in_transaction unended : Transaction

abbrev pub Held : Type 0
Held = Option ℕ × Transaction

-- A statement is used or finalized while it is the open one, and one is open at most.
abbrev pub on_open : Option ℕ → Option ℕ → Held → Option Held
on_open (some h) (some k) next = if h == k then some next else none
on_open _ _ next = none

abbrev pub begun : Bool → Transaction → Transaction
begun done t = if done then in_transaction else t

abbrev pub ended_by : Bool → Transaction
ended_by done = if done then no_transaction else unended

-- Transactions do not nest, and only an open one is ended.
abbrev pub sql_step : Sql → Bool → Held → Option Held
sql_step begin_immediate done (stmt, no_transaction) = some (stmt, begun done no_transaction)
sql_step begin_immediate done (stmt, unended) = some (stmt, begun done unended)
sql_step begin_immediate done (stmt, in_transaction) = none
sql_step commit done (stmt, in_transaction) = some (stmt, ended_by done)
sql_step commit done (stmt, _) = none
sql_step rollback done (stmt, in_transaction) = some (stmt, ended_by done)
sql_step rollback done (stmt, _) = none
sql_step _ done held = some held

-- What is held behind a call, by its return code; `none` is a misuse.
unfoldable pub call_step : Call → Bool → Held → Option Held
call_step (prepare h sql) done (none, t) = some (if done then some h else none, t)
call_step (prepare h sql) done (some k, t) = none
call_step (on_stmt s u) done (stmt, t) = on_open s stmt (stmt, t)
call_step (finalize s) done (stmt, t) = on_open s stmt (none, t)
call_step (exec sql) done held = sql_step sql done held
call_step _ done held = some held

unfoldable pub event_step : Event → Option Held → Option Held
unfolding call_step
event_step e none = none
event_step e (some held) = call_step e.call (int_eq e.answer.rc sqlite_ok) held

unfoldable pub held_after : List Event → Option Held
unfolding event_step
held_after [] = some (none, no_transaction)
held_after (e ∷ events) = event_step e (held_after events)

-- The variable `stmt` is what is held.
abbrev pub Holding : Transaction → Db → Type 0
Holding t s = held_after s.events ≡ some (s.stmt, t)

abbrev pub Idle : Transaction → Db → Type 0
Idle t s = (s.stmt ≡ none) × (held_after s.events ≡ some (none, t))

abbrev pub Live : Transaction → Db → Type 0
Live t s = (h : ℕ) × (s.stmt ≡ some h) × (held_after s.events ≡ some (some h, t))

held-prepare :
    (h : ℕ) (sql : Sql) (a : Answer) (es : List Event) (t : Transaction) (done : Bool)
    → int_eq a.rc sqlite_ok ≡ done
    → held_after es ≡ some (none, t)
    → held_after (event (prepare h sql) a ∷ es) ≡ some (if done then some h else none, t)
unfolding held_after
held-prepare h sql a es t done d e = rw (e, d) refl

held-on_stmt :
    (h : ℕ) (u : Use) (a : Answer) (es : List Event) (t : Transaction) (s : Option ℕ)
    → s ≡ some h
    → held_after es ≡ some (some h, t)
    → held_after (event (on_stmt s u) a ∷ es) ≡ some (some h, t)
unfolding held_after
held-on_stmt h u a es t s k e = rw (e, k, (==_iff h h).1 refl) refl

held-finalize :
    (h : ℕ) (a : Answer) (es : List Event) (t : Transaction) (s : Option ℕ)
    → s ≡ some h
    → held_after es ≡ some (some h, t)
    → held_after (event (finalize s) a ∷ es) ≡ some (none, t)
unfolding held_after
held-finalize h a es t s k e = rw (e, k, (==_iff h h).1 refl) refl

held-rowid :
    (a : Answer) (es : List Event) (held : Held)
    → held_after es ≡ some held
    → held_after (event last_insert_rowid a ∷ es) ≡ some held
unfolding held_after
held-rowid a es held e = rw e refl

module _ (sqlite : Sqlite) (t : Transaction) where
  pub prepare_v2-Leads : (sql : Sql) → Leads (Holding t) (Idle t) (Live t) (prepare_v2 sqlite sql)
  unfolding prepare_v2
  prepare_v2-Leads sql = record {
    at = λ s h.
        let n = length s.events in
        let a = sqlite s.events (prepare n sql) in
        Outcome-if (Holding t) (Live t) (int_eq a.rc sqlite_ok) _ _
          (λ e. (n, refl, held-prepare n sql a s.events t true e h.1))
          (λ e. held-prepare n sql a s.events t false e h.1);
  }

  pub use_stmt-Leads :
      (code : ℤ) (u : Use) → Leads (Holding t) (Live t) (Live t) (use_stmt sqlite code u)
  unfolding use_stmt
  use_stmt-Leads code u = record {
    at = λ s h.
        let a = sqlite s.events (on_stmt s.stmt u) in
        let held = held-on_stmt h.0 u a s.events t s.stmt h.1 h.2 in
        Outcome-if (Holding t) (Live t) (int_eq a.rc code) _ _ (λ e. (h.0, h.1, held))
          (λ e. held ∙ ap (λ x. some (x, t)) (sym h.1));
  }

  pub column-Leads : (u : Use) → Leads (Holding t) (Live t) (Live t) (column sqlite u)
  unfolding column
  column-Leads u = record { at = λ s h. (h.0, h.1, held-on_stmt h.0 u _ s.events t s.stmt h.1 h.2) }

  pub has_row-Leads : Leads (Holding t) (Live t) (Live t) (has_row sqlite)
  unfolding has_row
  has_row-Leads = record {
    at = λ s h. (h.0, h.1, held-on_stmt h.0 step _ s.events t s.stmt h.1 h.2);
  }

  finalize_stmt-Idle : (s : Db) → Live t s → Idle t (finalize_stmt sqlite s).1
  unfolding finalize_stmt
  finalize_stmt-Idle s h = (refl, held-finalize h.0 _ s.events t s.stmt h.1 h.2)

  pub finalize_stmt-Leads : Leads (Holding t) (Live t) (Idle t) (finalize_stmt sqlite)
  unfolding finalize_stmt
  finalize_stmt-Leads = record { at = λ s h. finalize_stmt-Idle s h }

  pub last_insert_rowid-Leads : Leads (Holding t) (Live t) (Live t) (ask sqlite last_insert_rowid)
  unfolding ask
  last_insert_rowid-Leads = record { at = λ s h. (h.0, h.1, held-rowid _ s.events _ h.2) }

  return_idle :
      {A : Type 0} (a : A) (s : Db) → s.stmt ≡ none → finalize_and_return sqlite a s ≡ (a, s)
  unfolding finalize_and_return
  return_idle a s e = ground arith

  return_live :
      {A : Type 0} (a : A) (s : Db) (h : ℕ)
      → s.stmt ≡ some h
      → finalize_and_return sqlite a s ≡ (a, (finalize_stmt sqlite s).1)
  unfolding finalize_and_return finalize_stmt
  return_live a s h e = ground arith

  pub finalize_and_return-Idle :
      {A : Type 0} (a : A) (s : Db) → Holding t s → Idle t (finalize_and_return sqlite a s).1
  finalize_and_return-Idle {A} a s h = elim (Option-cases s.stmt) [
    | inl e ↦
        subst (λ (r : A × Db). Idle t r.1) (sym (return_idle a s e))
          (e, h ∙ ap (λ x. some (x, t)) e)
    | inr (k, e) ↦
        subst (λ (r : A × Db). Idle t r.1) (sym (return_live a s k e))
          (finalize_stmt-Idle s (k, e, h ∙ ap (λ x. some (x, t)) e))
  ]

module _ {A B : Type 0} (sqlite : Sqlite) (t : Transaction) (R : Db → Type 0) where
  pub Live-bind :
      (m : Exec Db A) (f : A → Exec Db B)
      → Leads (Holding t) (Live t) (Live t) m
      → ((a : A) → Leads (Holding t) (Live t) R (f a))
      → Leads (Holding t) (Live t) R (m >>= f)
  Live-bind m f = Leads-bind m f

module _ {B : Type 0} (sqlite : Sqlite) (t : Transaction) (R : Db → Type 0) where
  pub after_prepare :
      (sql : Sql) (f : Unit {0} → Exec Db B)
      → ((a : Unit {0}) → Leads (Holding t) (Live t) R (f a))
      → Leads (Holding t) (Idle t) R (prepare_v2 sqlite sql >>= f)
  after_prepare sql f = Leads-bind (prepare_v2 sqlite sql) f (prepare_v2-Leads sqlite t sql)

  pub after_finalize :
      (f : Unit {0} → Exec Db B)
      → ((a : Unit {0}) → Leads (Holding t) (Idle t) R (f a))
      → Leads (Holding t) (Live t) R (finalize_stmt sqlite >>= f)
  after_finalize f = Leads-bind (finalize_stmt sqlite) f (finalize_stmt-Leads sqlite t)

-- No statement is open, and no transaction but one that SQLite refused to end.
abbrev pub Resting : Db → Type 0
Resting s = Idle no_transaction s ⊎ Idle unended s

-- A function that only finalizes behind its label.
pub ended :
    (sqlite : Sqlite) (t : Transaction) {A : Type 0} (m : Exec Db A) (a : A)
    → Leads (Holding t) (Idle t) (Idle t) m
    → (s : Db) → Idle t s
    → Idle t (on_failure m (finalize_and_return sqlite a) s).1
ended sqlite t m a k s h =
    on_failure-Leads {Q = Idle t} m _ k (λ u e. finalize_and_return-Idle sqlite t a u e) s h

pub ruleset held_rules = (
  Leads-pure, Leads-if, after_prepare, Live-bind, after_finalize, use_stmt-Leads, column-Leads,
  has_row-Leads, last_insert_rowid-Leads,
)
