-- ===== src/Api/Patch/Handler.antt =====
-- internal/api/v2/v2.go: the transaction of a PATCH, its notification, and the handler.
use status_dashboard_backend.Common.{
  ℕ, String, string_eq, nat_eq, int_eq, true, ◌&&◌, ◌||◌, not, if◌then◌else◌, ◌==◌, Option, none,
  some, [], ◌∷◌, ◌++◌, Result, ok, err, ◌>>=◌,
}
use status_dashboard_backend.Event.{maintenance, event_type_eq, Status, status_eq, reopened}
use status_dashboard_backend.Model.{Time, Incident}
use status_dashboard_backend.Store.Tables.{IncidentRow, Db, DbError, version_conflict, update_where}
use status_dashboard_backend.Store.Read.{get_incident}
use status_dashboard_backend.Store.Write.{set_some, modify_incident}
use status_dashboard_backend.Store.Tx.{Driver, with_tx}
use status_dashboard_backend.Notification.Publish.{Change, Publisher, is_enabled, publish_tx}
use status_dashboard_backend.Api.Response.{
  version_is_required, version_conflicted, Refusal, bad_request, conflict, internal, Caller,
}
use status_dashboard_backend.Api.View.{ApiEvent, to_api_event, text_or_empty, email_or_empty}
use status_dashboard_backend.Api.Patch.{
  is_some, update_fields, prepare_incident_patch, PatchIncidentData,
}

-- the change that publishMaintenanceChange hands to the publisher; the zero time stands for now
unfoldable pub maintenance_change : Incident → Status → Option String → Change
maintenance_change inc old user_id = record {
  incident_id = inc.id;
  title = inc.text;
  old_status = old;
  new_status = inc.status;
  contact_email = email_or_empty inc.contact_email;
  actor = text_or_empty user_id;
  changed_at = 0;
}

unfoldable pub publish_maintenance_change :
    Option Publisher
    → Time
    → ℕ
    → Incident
    → Status
    → Option String
    → Db
    → Result DbError (Unit {0} × Db)
unfolding maintenance_change
publish_maintenance_change publisher now change_id inc old user_id db =
    if not (is_enabled publisher) || not (inc.type == maintenance)
    then ok (tt, db)
    else publish_tx publisher now change_id (maintenance_change inc old user_id) db

-- the body of the transaction
unfoldable pub patch_tx :
    Option Publisher
    → Time
    → ℕ
    → Incident
    → Status
    → Option String
    → Db
    → Result DbError (Unit {0} × Db)
unfolding publish_maintenance_change
patch_tx publisher now change_id inc old user_id db =
    modify_incident now inc db >>= λ (r : Incident × Db).
    if inc.status == old
    then ok (tt, r.1)
    else publish_maintenance_change publisher now change_id r.0 old user_id r.1

-- the answer for an error of the transaction
unfoldable pub patch_refusal : DbError → Refusal
patch_refusal version_conflict = conflict version_conflicted
patch_refusal _ = internal

unfoldable pub answer_tx : Result DbError (Unit {0}) × Db → Result Refusal (Unit {0}) × Db
unfolding patch_refusal
answer_tx (ok _, db) = (ok tt, db)
answer_tx (err e, db) = (err (patch_refusal e), db)

unfoldable pub persist_incident_patch :
    Driver
    → Option Publisher
    → Time
    → ℕ
    → Incident
    → Status
    → Option String
    → Db
    → Result Refusal (Unit {0}) × Db
unfolding patch_tx answer_tx with_tx
persist_incident_patch d publisher now change_id inc old user_id db =
    answer_tx (with_tx d (patch_tx publisher now change_id inc old user_id) db)

-- ReOpenIncident: SET end_date = NULL
unfoldable pub re_open_incident : ℕ → Db → Db
re_open_incident i db = record db {
  incidents =
      update_where (λ (r : IncidentRow). r.id == i)
        (λ (r : IncidentRow). record r { end_date = none }) db.incidents;
}

-- reopenIncident
unfoldable pub reopen_incident : Incident → Status → Db → Db
unfolding re_open_incident
reopen_incident stored status db = if status == reopened then re_open_incident stored.id db else db

-- the event that PatchIncidentHandler hands to the transaction
unfoldable pub patched : Caller → PatchIncidentData → Incident → Incident
unfolding update_fields
patched c p stored =
    let inc = update_fields p stored in
    record inc {
      statuses =
          inc.statuses
          ++ record {
            id = 0;
            incident_id = inc.id;
            status = p.status;
            text = p.message;
            timestamp = p.update_date;
            created_at = none;
            modified_at = none;
            deleted_at = none;
            created_by = c.user_id;
            modified_by = none;
          }
            ∷ [];
      version = set_some p.version inc.version;
    }

-- the end of the handler, after the transaction
unfoldable pub after_patch : Incident → Status → Db → Result Refusal ApiEvent × Db
unfolding reopen_incident get_incident
after_patch stored status db =
    let db' = reopen_incident stored status db in
    elim (get_incident db' stored.id) [
      | none ↦ (err internal, db')
      | some inc ↦ (ok (to_api_event inc true), db')
    ]

-- the handler after the transaction
unfoldable pub answer_patch :
    Incident → Status → Result Refusal (Unit {0}) × Db → Result Refusal ApiEvent × Db
unfolding after_patch
answer_patch stored status (err refusal, db) = (err refusal, db)
answer_patch stored status (ok _, db) = after_patch stored status db

unfoldable pub patch_incident_handler :
    Driver
    → Option Publisher
    → Time
    → ℕ
    → Caller
    → Incident
    → PatchIncidentData
    → Db
    → Result Refusal ApiEvent × Db
unfolding prepare_incident_patch patched persist_incident_patch answer_patch
patch_incident_handler d publisher now change_id c stored p db =
    if stored.type == maintenance && not (is_some p.version)
    then (err (bad_request version_is_required), db)
    else (elim (prepare_incident_patch c stored p) [
      | err refusal ↦ (err refusal, db)
      | ok _ ↦ answer_patch stored p.status (
          persist_incident_patch d publisher now change_id (patched c p stored) stored.status
            c.user_id db)
    ])
