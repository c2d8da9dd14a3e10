-- ===== src/Store/Write.antt =====
-- The writes of internal/db/write.go and internal/db/db.go: update rows, patches under optimistic
-- locking, and new incidents. `now` is the clock during the operation.
use status_dashboard_backend.Common.{
  ℕ, suc, ℤ, pos, suc_ℤ, Bool, true, ◌&&◌, ◌==◌, nat_eq, string_eq, int_eq, if◌then◌else◌, Option,
  none, some, List, [], ◌∷◌, ◌++◌, map, keep, not, Result, ok, err,
}
use status_dashboard_backend.Event.{maintenance, event_type_eq, unset, status_eq}
use status_dashboard_backend.Model.{Time, Component, IncidentStatus, Incident}
use status_dashboard_backend.Store.Tables.{
  IncidentRow, Db, DbError, version_required, version_conflict, incident_text_required,
  update_where, affected,
}

abbrev pub value_or {ℓ} : {A : Type ℓ} → Option A → A → A
value_or none fallback = fallback
value_or (some a) fallback = a

-- `if p != nil { set(*p) }`
abbrev pub set_some {ℓ} : {A : Type ℓ} → Option A → Option A → Option A
set_some none old = old
set_some (some a) old = some a

-- the new row's id is returned; the update keeps the stamps that were written
unfoldable pub insert_incident_status : Time → IncidentStatus → ℕ → Db → ℕ × IncidentStatus × Db
insert_incident_status now s fallback db =
    let s' = record s {
      created_at = some (value_or s.created_at now);
      modified_at = some (value_or s.modified_at now);
    } in
    let row = record s' {
      id = db.next_status;
      incident_id = if s.incident_id == 0 then fallback else s.incident_id;
      deleted_at = none;
    } in
    (
      db.next_status,
      s',
      record db { statuses = db.statuses ++ row ∷ []; next_status = suc db.next_status },
    )

-- the loop over inc.Statuses: an update that has an id is stored already
unfoldable pub insert_new_incident_statuses :
    Time → ℕ → List IncidentStatus → Db → List IncidentStatus × Db
unfolding insert_incident_status
insert_new_incident_statuses now i [] db = ([], db)
insert_new_incident_statuses now i (s ∷ ss) db =
    if s.id == 0
    then (let (id, s', db') = insert_incident_status now s i db in
        let (ss', db'') = insert_new_incident_statuses now i ss db' in
        (record s' { id = id; incident_id = i } ∷ ss', db''))
    else (let (ss', db') = insert_new_incident_statuses now i ss db in (s ∷ ss', db'))

-- applyIncidentPatch, and the version and stamp that modifyIncident sets after it
unfoldable pub apply_incident_patch : Incident → IncidentRow → IncidentRow
apply_incident_patch inc row = record row {
  text = inc.text;
  description = set_some inc.description row.description;
  start_date = inc.start_date;
  end_date = set_some inc.end_date row.end_date;
  impact = inc.impact;
  status = if inc.status == unset then row.status else some inc.status;
  system = if inc.system then true else row.system;
  type = inc.type;
  created_at = set_some inc.created_at row.created_at;
  created_by = set_some inc.created_by row.created_by;
  contact_email = set_some inc.contact_email row.contact_email;
}

-- the WHERE clause of the update: the id, and for maintenance the expected version
unfoldable pub selects : Incident → ℤ → IncidentRow → Bool
selects inc expected row =
    if inc.type == maintenance
    then row.id == inc.id && row.version == expected
    else row.id == inc.id

unfoldable pub stamp : Time → ℤ → Incident → IncidentRow → IncidentRow
unfolding apply_incident_patch
stamp now version inc row = record (apply_incident_patch inc row) {
  version = version;
  modified_at = some now;
}

unfoldable pub modify_at_version : Time → ℤ → Incident → Db → Result DbError (Incident × Db)
unfolding selects stamp insert_new_incident_statuses
modify_at_version now expected inc db =
    let hit = selects inc expected in
    let db' = record db {
      incidents = update_where hit (stamp now (suc_ℤ expected) inc) db.incidents;
    } in
    if inc.type == maintenance && affected hit db.incidents == 0
    then err version_conflict
    else (let (ss, db'') = insert_new_incident_statuses now inc.id inc.statuses db' in
        ok (record inc { statuses = ss; version = some (suc_ℤ expected) }, db''))

-- modifyIncident: the incident as the caller holds it afterwards, and the tables
unfoldable pub modify_incident : Time → Incident → Db → Result DbError (Incident × Db)
unfolding modify_at_version
modify_incident now inc db = elim inc.version [
  | none ↦ err version_required
  | some expected ↦ modify_at_version now expected inc db
]

unfoldable pub new_row : Time → ℕ → Incident → IncidentRow
new_row now i inc = record {
  id = i;
  text = inc.text;
  description = inc.description;
  start_date = inc.start_date;
  end_date = inc.end_date;
  impact = inc.impact;
  status = if inc.status == unset then none else some inc.status;
  system = inc.system;
  type = inc.type;
  component_ids = keep (λ c. not (c == 0)) (map (λ (c : Component). c.id) inc.components);
  created_at = some (value_or inc.created_at now);
  modified_at = some (value_or inc.modified_at now);
  deleted_at = none;
  created_by = inc.created_by;
  contact_email = inc.contact_email;
  version = value_or inc.version (pos 1);
}

-- SaveIncidentTx: the incident with its id, its version and its stored updates
unfoldable pub save_incident : Time → Incident → Db → Result DbError (Incident × Db)
unfolding new_row insert_new_incident_statuses
save_incident now inc db =
    if inc.text == ""
    then err incident_text_required
    else (let row = new_row now db.next_incident inc in
        let db' = record db {
          incidents = db.incidents ++ row ∷ [];
          next_incident = suc db.next_incident;
        } in
        let (ss, db'') = insert_new_incident_statuses now row.id inc.statuses db' in
        ok (
          record inc {
            id = row.id;
            version = some row.version;
            statuses = ss;
            created_at = row.created_at;
            modified_at = row.modified_at;
          },
          db'',
        ))
