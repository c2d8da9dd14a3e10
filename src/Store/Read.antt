-- ===== src/Store/Read.antt =====
-- The mappers of internal/db/mappers.go, and the reads of internal/db that the checker and the
-- handlers make.
use status_dashboard_backend.Common.{
  ℕ, Option, none, some, List, [], ◌∷◌, map, keep, find, ◌==◌, nat_eq, reverse,
}
use status_dashboard_backend.Event.{
  EventType, information, maintenance, event_type_eq, Status, unset,
}
use status_dashboard_backend.Model.{Component, IncidentStatus, Incident}
use status_dashboard_backend.Store.Tables.{IncidentRow, Db}

-- the components of the edge that the query loads
unfoldable pub components_of : List Component → List ℕ → List Component
components_of table [] = []
components_of table (i ∷ ids) =
    let rest = components_of table ids in
    elim (find (λ c. c.id == i) table) [ none ↦ rest | some c ↦ c ∷ rest ]

-- a NULL column is read as the empty text
abbrev pub status_or_empty : Option Status → Status
status_or_empty none = unset
status_or_empty (some s) = s

unfoldable pub incident_from_ent : Db → IncidentRow → Incident
incident_from_ent db e = record {
  id = e.id;
  text = e.text;
  description = e.description;
  start_date = e.start_date;
  end_date = e.end_date;
  impact = e.impact;
  statuses = [];
  status = status_or_empty e.status;
  system = e.system;
  type = e.type;
  components = components_of db.components e.component_ids;
  created_at = e.created_at;
  modified_at = e.modified_at;
  deleted_at = e.deleted_at;
  created_by = e.created_by;
  contact_email = e.contact_email;
  version = some e.version;
}

-- the update history of one incident, in the order of the ids
unfoldable pub statuses_by_incident : List IncidentStatus → ℕ → List IncidentStatus
statuses_by_incident table i = keep (λ s. s.incident_id == i) table

unfoldable pub attach_statuses : Db → List Incident → List Incident
unfolding statuses_by_incident
attach_statuses db [] = []
attach_statuses db (inc ∷ incs) =
    record inc { statuses = statuses_by_incident db.statuses inc.id } ∷ attach_statuses db incs

unfoldable pub find_row : Db → ℕ → Option IncidentRow
find_row db i = find (λ r. r.id == i) db.incidents

unfoldable pub with_statuses : Db → IncidentRow → Incident
unfolding incident_from_ent statuses_by_incident
with_statuses db e = record (incident_from_ent db e) {
  statuses = statuses_by_incident db.statuses e.id;
}

-- `none` is ErrDBIncidentDSNotExist
unfoldable pub get_incident : Db → ℕ → Option Incident
unfolding find_row
get_incident db i = elim (find_row db i) [ none ↦ none | some e ↦ some (with_statuses db e) ]

unfoldable pub get_events_by_type : Db → EventType → List Incident
unfolding attach_statuses incident_from_ent
get_events_by_type db t =
    attach_statuses db (map (incident_from_ent db) (keep (λ r. r.type == t) db.incidents))

-- ORDER BY id ASC
unfoldable pub get_maintenances : Db → List Incident
unfolding get_events_by_type
get_maintenances db = get_events_by_type db maintenance

-- ORDER BY id DESC
unfoldable pub get_info_events : Db → List Incident
unfolding get_events_by_type
get_info_events db = reverse (get_events_by_type db information)
