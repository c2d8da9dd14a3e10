-- ===== src/Checker/Maintenance/Process.antt =====
-- internal/checker/maintenance.go: the scan over the maintenances (CheckMaintenance, processMaintenance).
use status_dashboard_backend.Common.{
  ℕ, Bool, true, false, if◌then◌else◌, ◌==◌, Option, none, some, List, [], ◌∷◌, Result, ok, err,
  ◌>>=◌,
}
use status_dashboard_backend.Event.{Status, pending_review, status_eq}
use status_dashboard_backend.Model.{Time, Email, Incident}
use status_dashboard_backend.Store.Tables.{Db, DbError, incident_not_found}
use status_dashboard_backend.Store.Read.{get_incident, get_maintenances}
use status_dashboard_backend.Store.Write.{modify_incident}
use status_dashboard_backend.Store.Tx.{Driver, with_tx}
use status_dashboard_backend.Notification.Publish.{Change, Publisher, publish_tx}
use status_dashboard_backend.Checker.Maintenance.{needs_refetch, evaluate_and_fix_mnt_status}

pub data Fault : Type 0 where
  nil_dereference : Fault
  db_error : DbError → Fault

abbrev pub lift : Result DbError (Unit {0}) × Db → Option Fault × Db
lift (ok _, db) = (none, db)
lift (err e, db) = (some (db_error e), db)

abbrev pub str_deref : Option Email → Email
str_deref none = []
str_deref (some s) = s

unfoldable pub checker_change : Status → Incident → Change
checker_change old fresh = record {
  incident_id = fresh.id;
  title = fresh.text;
  old_status = old;
  new_status = fresh.status;
  contact_email = str_deref fresh.contact_email;
  actor = "checker";
  changed_at = 0;
}

-- the body of the transaction: the change, and its notification
unfoldable pub transition :
    Option Publisher → Time → ℕ → Status → Incident → Db → Result DbError (Unit {0} × Db)
unfolding checker_change
transition pub_ now change_id old fresh db = modify_incident now fresh db >>= λ (r : Incident × Db).
    publish_tx pub_ now change_id (checker_change old r.0) r.1

-- the write for a fresh read whose status is to change
unfoldable pub write_transition :
    Driver → Option Publisher → Time → ℕ → Incident → Status × Incident → Db → Option Fault × Db
unfolding transition with_tx
write_transition d pub_ now change_id fresh (actual, fixed) db =
    if fresh.status == actual
    then (none, db)
    else lift (
        with_tx d (transition pub_ now change_id fresh.status (record fixed { status = actual }))
          db)

unfoldable pub process_fresh :
    Driver → Option Publisher → Time → ℕ → Incident → Db → Option Fault × Db
unfolding write_transition evaluate_and_fix_mnt_status
process_fresh d pub_ now change_id fresh db = elim (evaluate_and_fix_mnt_status now fresh) [
  | none ↦ (some nil_dereference, db)
  | some r ↦ write_transition d pub_ now change_id fresh r db
]

unfoldable pub process_maintenance :
    Driver → Option Publisher → Time → ℕ → Incident → Db → Option Fault × Db
unfolding needs_refetch get_incident process_fresh
process_maintenance d pub_ now change_id mn db =
    if needs_refetch now mn
    then (elim (get_incident db mn.id) [
      | none ↦ (some (db_error incident_not_found), db)
      | some fresh ↦ process_fresh d pub_ now change_id fresh db
    ])
    else (none, db)

abbrev pub is_panic : Option Fault → Bool
is_panic (some nil_dereference) = true
is_panic _ = false

-- The loop of CheckMaintenance: an error is logged and the scan goes on; a nil dereference ends it.
unfoldable pub check_each :
    Driver → Option Publisher → Time → ℕ → List Incident → Db → Option Fault × Db
unfolding process_maintenance
check_each d pub_ now change_id [] db = (none, db)
check_each d pub_ now change_id (mn ∷ mns) db =
    let (fault, db') = process_maintenance d pub_ now change_id mn db in
    let skipped = check_each d pub_ now change_id mns db in
    let rest = check_each d pub_ now change_id mns db' in
    if mn.status == pending_review then skipped else if is_panic fault then (fault, db') else rest

unfoldable pub check_maintenance : Driver → Option Publisher → Time → ℕ → Db → Option Fault × Db
unfolding check_each get_maintenances
check_maintenance d pub_ now change_id db = check_each d pub_ now change_id (get_maintenances db) db
