-- ===== src/Store/Changes.antt =====
-- internal/db/db.go: a component added to an incident, components extracted to a new incident, a raised
-- impact, the events of a component, and the text of an update. `now` is the clock during the operation.
pub mod Removals
pub mod Extracted
use status_dashboard_backend.Common.{
  ℕ, suc, String, ◌<>◌, string_eq, decimal, ℤ, pos, negsuc, suc_ℤ, Bool, true, false, ◌&&◌, ◌||◌,
  not, if◌then◌else◌, ◌==◌, nat_eq, int_eq, leb, Option, none, some, List, [], ◌∷◌, ◌++◌, any, keep,
  find, map, length, take, reverse, Result, ok, err, ◌>>=◌,
}
use status_dashboard_backend.Event.{
  incident, event_type_eq, Status, unset, status_eq, out_dated_system, resolved, completed,
  cancelled,
}
use status_dashboard_backend.Model.{Time, Component, IncidentStatus, Incident}
use status_dashboard_backend.Store.Tables.{
  IncidentRow, Db, DbError, version_required, version_conflict, incident_not_found, driver,
  nothing_to_extract, update_not_exist, update_where, affected,
}
use status_dashboard_backend.Store.Read.{with_statuses}
use status_dashboard_backend.Store.Events.{IncidentsParams, public_event_predicates, last_rows}
use status_dashboard_backend.Store.Write.{value_or, set_some, insert_incident_status, save_incident}
use status_dashboard_backend.Store.Components.{print_attrs, link}
use status_dashboard_backend.Store.Moves.{
  row_has_id, has_number, update_of, with_update, remove_incident_component,
  drop_incident_component, save_incident_full,
}
use status_dashboard_backend.Store.Tx.{Driver, with_tx}

abbrev at_version : ℕ → ℤ → IncidentRow → Bool
at_version i expected r = r.id == i && r.version == expected

unfoldable pub with_component : ℕ → IncidentRow → IncidentRow
with_component c row = record row { component_ids = row.component_ids ++ c ∷ [] }

-- A second edge to the same component violates the unique index.
unfoldable pub link_component : Incident → Component → Db → Result DbError (Incident × Db)
unfolding with_component
link_component inc comp db =
    if comp.id == 0
    then ok (inc, db)
    else if any (λ (r : IncidentRow). row_has_id inc.id r && has_number r.component_ids comp.id)
        db.incidents
    then err driver
    else ok (
      record inc { components = inc.components ++ comp ∷ [] },
      record db {
        incidents = update_where (row_has_id inc.id) (with_component comp.id) db.incidents;
      },
    )

-- the body of the transaction, with the version that the caller read
unfoldable pub add_component_tx :
    Time → ℤ → Incident → Component → IncidentStatus → Db → Result DbError (Incident × Db)
unfolding link_component insert_incident_status
add_component_tx now expected inc comp status db =
    let hit = at_version inc.id expected in
    let db' = record db {
      incidents =
          update_where hit (λ (r : IncidentRow). record r { version = suc_ℤ expected })
            db.incidents;
    } in
    if affected hit db.incidents == 0
    then err version_conflict
    else (link_component inc comp db' >>= λ (r : Incident × Db).
        ok (r.0, (insert_incident_status now status inc.id r.1).2))

abbrev at_new_version : ℤ → Result DbError Incident × Db → Result DbError Incident × Db
at_new_version v (ok inc, db) = (ok (record inc { version = some v }), db)
at_new_version v (err e, db) = (err e, db)

-- AddComponentToIncident: the incident as the caller holds it afterwards
unfoldable pub add_component_to_incident :
    Driver → Time → Incident → Component → IncidentStatus → Db → Result DbError Incident × Db
unfolding add_component_tx with_tx
add_component_to_incident d now inc comp status db = elim inc.version [
  | none ↦ (err version_required, db)
  | some expected ↦
      at_new_version (suc_ℤ expected) (with_tx d (add_component_tx now expected inc comp status) db)
]

-- the new incident of ExtractComponentsToNewIncident before it is stored
unfoldable pub extracted : Time → List Component → ℤ → String → Option String → Incident
extracted now comps impact text description = record {
  id = 0;
  text = text;
  description = description;
  start_date = now;
  end_date = none;
  impact = impact;
  statuses = [];
  status = out_dated_system;
  system = false;
  type = incident;
  components = comps;
  created_at = none;
  modified_at = none;
  deleted_at = none;
  created_by = none;
  contact_email = none;
  version = none;
}

-- the updates of the moved components, one each
unfoldable pub note_moves : Time → ℕ → String → String → List Component → List IncidentStatus
unfolding update_of print_attrs
note_moves now i way other [] = []
note_moves now i way other (c ∷ cs) =
    update_of i out_dated_system (print_attrs c <> way <> other) now ∷ note_moves now i way other cs

unfoldable pub remove_all : List Component → Incident → Db → Result DbError (Incident × Db)
unfolding remove_incident_component drop_incident_component
remove_all [] old db = ok (old, db)
remove_all (c ∷ cs) old db =
    if c.id == 0
    then remove_all cs old db
    else (remove_incident_component old.id c.id db >>= λ db'.
        remove_all cs (drop_incident_component c.id old) db')

unfoldable pub extract_tx :
    Time → List Component → Incident → Incident → Db → Result DbError (Incident × Db)
unfolding remove_all save_incident_full
extract_tx now comps old new db = remove_all comps old db >>= λ (r : Incident × Db).
    save_incident_full now new r.1 >>= λ (n : Incident × Db).
    save_incident_full now r.0 n.1 >>= λ (o : Incident × Db). ok (n.0, o.1)

-- ExtractComponentsToNewIncident: the new incident is stored before the transaction begins.
unfoldable pub extract_components_to_new_incident :
    Driver
    → Time
    → List Component
    → Incident
    → ℤ
    → String
    → Option String
    → Db
    → Result DbError Incident × Db
unfolding extracted note_moves extract_tx save_incident with_tx link
extract_components_to_new_incident d now [] old impact text description db =
    (err nothing_to_extract, db)
extract_components_to_new_incident d now (c ∷ cs) old impact text description db =
    elim (save_incident now (extracted now (c ∷ cs) impact text description) db) [
      | err e ↦ (err e, db)
      | ok (new, db') ↦
          let new' = record new {
            statuses = note_moves now new.id " moved from " (link old) (c ∷ cs);
          } in
          let old' = record old {
            statuses = old.statuses ++ note_moves now old.id " moved to " (link new) (c ∷ cs);
          } in
          with_tx d (extract_tx now (c ∷ cs) old' new') db'
    ]

-- %d of a signed number
abbrev signed : ℤ → String
signed (pos n) = decimal n
signed (negsuc n) = "-" <> decimal (suc n)

-- the incident of IncreaseIncidentImpact as the caller holds it afterwards
unfoldable pub increased : Time → Incident → ℤ → Incident
increased now inc impact =
    let text = "impact changed from " <> signed inc.impact <> " to " <> signed impact in
    record (with_update
      (record (update_of inc.id out_dated_system text now) {
        created_at = some now;
        modified_at = some now;
      })
      inc) { impact = impact; modified_at = some now }

-- the columns that it writes, where an empty field is left alone
unfoldable pub increased_row : Time → Incident → IncidentRow → IncidentRow
increased_row now inc row = record row {
  text = if inc.text == "" then row.text else inc.text;
  description = set_some inc.description row.description;
  start_date = inc.start_date;
  end_date = set_some inc.end_date row.end_date;
  impact = inc.impact;
  status = if inc.status == unset then row.status else some inc.status;
  system = if inc.system then true else row.system;
  type = inc.type;
  created_at = set_some inc.created_at row.created_at;
  modified_at = some now;
  created_by = set_some inc.created_by row.created_by;
  contact_email = set_some inc.contact_email row.contact_email;
  version = value_or inc.version row.version;
}

unfoldable pub increase_tx : Time → Incident → ℤ → Db → Result DbError (Incident × Db)
unfolding increased increased_row insert_incident_status
increase_tx now inc impact db =
    let inc' = increased now inc impact in
    let text = "impact changed from " <> signed inc.impact <> " to " <> signed impact in
    let row = record (update_of inc.id out_dated_system text now) {
      created_at = some now;
      modified_at = some now;
    } in
    let db' = record db {
      incidents = update_where (row_has_id inc.id) (increased_row now inc') db.incidents;
    } in
    if affected (row_has_id inc.id) db.incidents == 0
    then err incident_not_found
    else ok (inc', (insert_incident_status now row inc.id db').2)

unfoldable pub increase_incident_impact :
    Driver → Time → Incident → ℤ → Db → Result DbError Incident × Db
unfolding increase_tx with_tx
increase_incident_impact d now inc impact db = with_tx d (increase_tx now inc impact) db
