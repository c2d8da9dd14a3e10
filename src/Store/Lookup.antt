-- ===== src/Store/Lookup.antt =====
-- internal/db/db.go: the events of a component and of an attribute, the list without the filter for the public,
-- and the updates of an event with the patch of one update's text.
use status_dashboard_backend.Common.{
  ℕ, zero, suc, ◌+◌, string_eq, [], ◌∷◌, String, Bool, true, false, ◌&&◌, ◌||◌, not, if◌then◌else◌,
  ◌==◌, nat_eq, leb, none, some, List, any, keep, find, map, length, take, reverse, Result, ok, err,
}
use status_dashboard_backend.Event.{
  event_type_eq, maintenance, Status, status_eq, resolved, completed, cancelled, pending_review,
  reviewed, planned, in_progress, modified,
}
use status_dashboard_backend.Model.{Time, Component, ComponentAttr, IncidentStatus, Incident}
use status_dashboard_backend.Store.Tables.{
  IncidentRow, Db, DbError, update_not_exist, component_not_exist, update_where, affected,
}
use status_dashboard_backend.Store.Read.{components_of, with_statuses, statuses_by_incident}
use status_dashboard_backend.Store.Sql.{Truth, holds, sql_not, sql_and, status_in}
use status_dashboard_backend.Store.Events.{
  IncidentsParams, given, public_event_predicates, get_events_with_count,
}

-- StatusNotIn; the information statuses are the same texts
abbrev pub is_over : Status → Bool
is_over s = s == resolved || s == completed || s == cancelled

abbrev pub is_active_for_component : Time → IncidentRow → Bool
is_active_for_component now row = elim row.end_date [
  | none ↦ true
  | some end_date ↦
      leb row.start_date now && leb now end_date && holds (sql_not (status_in is_over row))
]

-- `Types` is empty where it is not given
unfoldable pub concerns : Time → ℕ → IncidentsParams → Db → IncidentRow → Bool
unfolding public_event_predicates
concerns now c p db row =
    any (λ i. i == c) row.component_ids
    && public_event_predicates db row
    && given p.is_active (λ b. not b || is_active_for_component now row)
    && given p.types (λ ts. length ts == 0 || any (λ t. row.type == t) ts)

unfoldable pub get_events_by_component_id : Time → ℕ → IncidentsParams → Db → List Incident
unfolding concerns
get_events_by_component_id now c p db =
    let found = keep (concerns now c p db) db.incidents in
    map (with_statuses db) (if p.last_count == 0 then found else take p.last_count (reverse found))

-- the list without the number of all events
abbrev pub without_count : Result DbError (List Incident × ℕ) → Result DbError (List Incident)
without_count (ok r) = ok r.0
without_count (err e) = err e

unfoldable pub get_events_internal : Time → IncidentsParams → Db → Result DbError (List Incident)
unfolding get_events_with_count
get_events_internal now p db = without_count (get_events_with_count now p true db)

unfoldable pub get_event_updates : Db → ℕ → List IncidentStatus
unfolding statuses_by_incident
get_event_updates db i = statuses_by_incident db.statuses i

abbrev pub is_update : IncidentStatus → IncidentStatus → Bool
is_update u s = s.id == u.id && s.incident_id == u.incident_id

unfoldable pub set_update_text : Time → String → IncidentStatus → IncidentStatus
set_update_text now text s = record s { text = text; modified_at = some now }

-- ModifyEventUpdateTx: the row as it is afterwards
unfoldable pub modify_event_update :
    Time → IncidentStatus → Db → Result DbError (IncidentStatus × Db)
unfolding set_update_text
modify_event_update now u db =
    let rows = update_where (is_update u) (set_update_text now u.text) db.statuses in
    if affected (is_update u) db.statuses == 0
    then err update_not_exist
    else (elim (find (λ (s : IncidentStatus). s.id == u.id) rows) [
      | none ↦ err update_not_exist
      | some s ↦ ok (s, record db { statuses = rows })
    ])

-- GetComponentFromNameAttrs compares the values of all attributes; the name of the given one is not looked at.
unfoldable pub get_component_from_name_attrs :
    Db → String → ComponentAttr → Result DbError Component
get_component_from_name_attrs db name attr =
    elim (find
      (λ (c : Component).
        c.name == name && any (λ (a : ComponentAttr). a.value == attr.value) c.attrs)
      db.components) [ none ↦ err component_not_exist | some c ↦ ok c ]

-- the attributes of a component that the query joins
abbrev pub joined_attrs : ComponentAttr → Component → ℕ
joined_attrs attr c =
    affected (λ (a : ComponentAttr). a.name == attr.name && a.value == attr.value) c.attrs

-- how often the join gives the incident: once for every matching attribute of every component of it
unfoldable pub join_count : ComponentAttr → List Component → ℕ
join_count attr [] = 0
join_count attr (c ∷ cs) = joined_attrs attr c + join_count attr cs

abbrev pub times : ℕ → IncidentRow → List IncidentRow → List IncidentRow
times zero row rows = rows
times (suc n) row rows = row ∷ times n row rows

-- NOT EXISTS (SELECT 1 FROM incident_status WHERE … AND status IN ($8, $9, $10, $11))
unfoldable pub no_stored_public_update : List IncidentStatus → ℕ → Bool
no_stored_public_update [] i = true
no_stored_public_update (s ∷ ss) i =
    let rest = no_stored_public_update ss i in
    if s.incident_id == i
      && (s.status == planned
          || s.status == in_progress
          || s.status == modified
          || s.status == completed)
    then false
    else rest

-- the visibility rules in the text of incidentsByComponentAttrQuery
unfoldable pub shown_by_query : Db → IncidentRow → Bool
unfolding no_stored_public_update
shown_by_query db row =
    let of_type : Truth = some (row.type == maintenance) in
    let in_review = status_in (λ s. s == pending_review || s == reviewed) row in
    let withdrawn = status_in (λ s. s == cancelled) row in
    let never_shown : Truth = some (no_stored_public_update db.statuses row.id) in
    holds (
      sql_and (sql_not (sql_and of_type in_review))
        (sql_not (sql_and (sql_and of_type withdrawn) never_shown)))

-- the rows of incidentsByComponentAttrQuery, in the order of the ids
unfoldable pub incidents_by_component_attr :
    ComponentAttr → Db → List IncidentRow → List IncidentRow
unfolding join_count components_of shown_by_query
incidents_by_component_attr attr db [] = []
incidents_by_component_attr attr db (row ∷ rows) =
    let rest = incidents_by_component_attr attr db rows in
    if shown_by_query db row
    then times (join_count attr (components_of db.components row.component_ids)) row rest
    else rest

-- GetIncidentsByComponentAttr; without a limit the query leaves the order open.
unfoldable pub get_incidents_by_component_attr : Db → ComponentAttr → ℕ → List Incident
unfolding incidents_by_component_attr
get_incidents_by_component_attr db attr last_count =
    let rows = incidents_by_component_attr attr db db.incidents in
    map (with_statuses db) (if last_count == 0 then rows else take last_count (reverse rows))

-- GetEvents
unfoldable pub get_events : Time → Bool → IncidentsParams → Db → Result DbError (List Incident)
unfolding get_events_with_count
get_events now is_auth p db = without_count (get_events_with_count now p is_auth db)
