-- ===== src/Store/Moves.antt =====
-- internal/db/write.go and db.go: the full write of an incident with its components, and the moves
-- of components between incidents. A component edge is a list without repetitions, as its unique index
-- has it; an update by id of a missing row is an error. `now` is the clock during the operation.
pub mod Edges
pub mod Rows
pub mod Moved
use status_dashboard_backend.Common.{
  ℕ, suc, String, ◌<>◌, string_eq, decimal, ℤ, pos, negsuc, suc_ℤ, Bool, true, false, ◌&&◌, ◌||◌,
  not, if◌then◌else◌, ◌==◌, nat_eq, int_eq, Option, none, some, List, [], ◌∷◌, ◌++◌, any, keep, map,
  length, Result, ok, err, ◌>>=◌,
}
use status_dashboard_backend.Event.{incident, Status, unset, status_eq, out_dated_system, resolved}
use status_dashboard_backend.Model.{Time, Component, IncidentStatus, Incident}
use status_dashboard_backend.Store.Tables.{
  IncidentRow, Db, DbError, version_required, version_conflict, incident_text_required,
  incident_not_found, driver, nothing_to_extract, update_where, affected,
}
use status_dashboard_backend.Store.Write.{
  value_or, set_some, insert_incident_status, insert_new_incident_statuses, save_incident,
}
use status_dashboard_backend.Store.Components.{print_attrs, link, get_component}
use status_dashboard_backend.Store.Tx.{Driver, with_tx}

abbrev pub row_has_id : ℕ → IncidentRow → Bool
row_has_id i r = r.id == i

abbrev pub has_number : List ℕ → ℕ → Bool
has_number xs i = any (λ j. j == i) xs

-- AddComponentIDs: the ids are a set
unfoldable pub add_ids : List ℕ → List ℕ → List ℕ
add_ids [] ids = ids
add_ids (i ∷ more) ids = add_ids more (if has_number ids i then ids else ids ++ i ∷ [])

-- the ids of the incident's components, less the zero ids
unfoldable pub wanted : List Component → List ℕ
wanted cs = keep (λ i. not (i == 0)) (map (λ (c : Component). c.id) cs)

-- reconcileIncidentComponents
unfoldable pub reconciled : List Component → List ℕ → List ℕ
unfolding wanted add_ids
reconciled cs current =
    let missing = keep (λ i. not (has_number current i)) (wanted cs) in
    add_ids missing (keep (has_number (wanted cs)) current)

-- the columns that saveIncidentFull writes, and the component edge after its reconciliation
unfoldable pub full_row : Incident → IncidentRow → IncidentRow
unfolding reconciled
full_row inc row = record row {
  text = inc.text;
  description = inc.description;
  start_date = inc.start_date;
  end_date = inc.end_date;
  impact = inc.impact;
  status = some inc.status;
  system = inc.system;
  type = inc.type;
  component_ids = reconciled inc.components row.component_ids;
  created_at = inc.created_at;
  modified_at = inc.modified_at;
  deleted_at = inc.deleted_at;
  created_by = inc.created_by;
  contact_email = inc.contact_email;
  version = value_or inc.version (pos 1);
}

-- the stamps that saveIncidentFull sets in the caller's incident
unfoldable pub stamped : Time → Incident → Incident
stamped now inc = record inc {
  created_at = some (value_or inc.created_at now);
  modified_at = some now;
}

unfoldable pub save_incident_full : Time → Incident → Db → Result DbError (Incident × Db)
unfolding full_row stamped insert_new_incident_statuses
save_incident_full now inc db =
    if inc.text == ""
    then err incident_text_required
    else if affected (row_has_id inc.id) db.incidents == 0
    then err incident_not_found
    else (let db' = record db {
      incidents = update_where (row_has_id inc.id) (full_row (stamped now inc)) db.incidents;
    } in
        let (ss, db'') = insert_new_incident_statuses now inc.id inc.statuses db' in
        ok (record (stamped now inc) { statuses = ss }, db''))

unfoldable pub without_component : ℕ → IncidentRow → IncidentRow
without_component c row = record row { component_ids = keep (λ i. not (i == c)) row.component_ids }

unfoldable pub remove_incident_component : ℕ → ℕ → Db → Result DbError Db
unfolding without_component
remove_incident_component i c db =
    if affected (row_has_id i) db.incidents == 0
    then err incident_not_found
    else ok
        (record db { incidents = update_where (row_has_id i) (without_component c) db.incidents })

unfoldable pub drop_incident_component : ℕ → Incident → Incident
drop_incident_component c inc = record inc {
  components = keep (λ (x : Component). not (x.id == c)) inc.components;
}

-- an update that has not been stored yet
unfoldable pub update_of : ℕ → Status → String → Time → IncidentStatus
update_of i status text now = record {
  id = 0;
  incident_id = i;
  status = status;
  text = text;
  timestamp = now;
  created_at = none;
  modified_at = none;
  deleted_at = none;
  created_by = none;
  modified_by = none;
}

abbrev pub with_update : IncidentStatus → Incident → Incident
with_update s inc = record inc { statuses = inc.statuses ++ s ∷ [] }

-- MoveComponentFromOldToAnotherIncident, the target before its write
unfoldable pub moved_to : Time → Component → Incident → Incident → Incident
unfolding update_of print_attrs link
moved_to now comp old new =
    with_update
      (update_of new.id out_dated_system (print_attrs comp <> " moved from " <> link old) now)
      (record new { components = new.components ++ comp ∷ [] })

-- the source before its write
unfoldable pub moved_from : Time → Component → Bool → Incident → Incident → Incident
unfolding update_of print_attrs link
moved_from now comp close_old old new =
    let text = print_attrs comp <> " moved to " <> link new in
    if close_old
    then with_update (update_of old.id resolved (text <> ", Incident closed by system") now)
        (record old { status = resolved; end_date = some now })
    else with_update (update_of old.id out_dated_system text now) old

-- a source that stays open loses the component
unfoldable pub leave_component : Component → Bool → Incident → Db → Result DbError (Incident × Db)
unfolding remove_incident_component drop_incident_component
leave_component comp close_old old db =
    if close_old || comp.id == 0
    then ok (old, db)
    else (remove_incident_component old.id comp.id db >>= λ db'.
        ok (drop_incident_component comp.id old, db'))

-- the transaction of the move: the two incidents as the caller holds them afterwards
unfoldable pub move_tx :
    Time → Component → Bool → Incident → Incident → Db → Result DbError ((Incident × Incident) × Db)
unfolding leave_component save_incident_full
move_tx now comp close_old old new db =
    leave_component comp close_old old db >>= λ (r : Incident × Db).
    save_incident_full now new r.1 >>= λ (n : Incident × Db).
    save_incident_full now r.0 n.1 >>= λ (o : Incident × Db). ok ((o.0, n.0), o.1)

-- the component with its name, which a stub lacks
unfoldable pub named_component : Component → Db → Result DbError Component
unfolding get_component
named_component comp db = if comp.name == "" then get_component db comp.id else ok comp

-- the old and the new incident afterwards
unfoldable pub move_component_from_old_to_another_incident :
    Driver
    → Time
    → Component
    → Incident
    → Incident
    → Bool
    → Db
    → Result DbError (Incident × Incident) × Db
unfolding named_component moved_to moved_from move_tx with_tx
move_component_from_old_to_another_incident d now comp old new close_old db =
    elim (named_component comp db) [
      | err e ↦ (err e, db)
      | ok c ↦
          let new' = moved_to now c old new in
          with_tx d (move_tx now c close_old (moved_from now c close_old old new') new') db
    ]
