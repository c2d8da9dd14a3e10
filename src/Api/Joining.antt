-- ===== src/Api/Joining.antt =====
-- internal/api/v2/v2.go: how a component joins a system incident (addComponentToSystemIncident), and how it is
-- moved to one with a higher impact (moveComponentFromToSystemIncidents). `now` is the clock.
pub mod Closing
use status_dashboard_backend.Common.{
  ℕ, String, ◌<>◌, string_eq, ℤ, leb_ℤ, int_eq, Bool, true, false, not, if◌then◌else◌, eqb, ◌==◌,
  nat_eq, Option, none, some, List, [], ◌∷◌, ◌++◌, find, length, Result, ok, err, ◌>>=◌,
}
use status_dashboard_backend.Event.{incident, maintenance, event_type_eq, Status, unset}
use status_dashboard_backend.Model.{Time, Component, IncidentStatus, Incident}
use status_dashboard_backend.Store.Tables.{Db, DbError}
use status_dashboard_backend.Store.Write.{modify_incident}
use status_dashboard_backend.Store.Tx.{Driver, with_tx}
use status_dashboard_backend.Store.Events.{IncidentsParams}
use status_dashboard_backend.Store.Components.{print_attrs, get_component}
use status_dashboard_backend.Store.Moves.{update_of, move_component_from_old_to_another_incident}
use status_dashboard_backend.Store.Changes.{
  add_component_to_incident, extract_components_to_new_incident, increase_incident_impact,
}
use status_dashboard_backend.Store.Lookup.{get_events_by_component_id, get_events_internal}
use status_dashboard_backend.Api.Create.{IncidentData, create_event}

abbrev pub no_params : IncidentsParams
no_params = record {
  types = none;
  status = none;
  start_date = none;
  end_date = none;
  impact = none;
  is_system = none;
  component_ids = [];
  last_count = 0;
  is_active = none;
  limit = none;
  page = none;
}

abbrev pub system_params : IncidentsParams
system_params = record no_params {
  types = some (incident ∷ []);
  is_system = some true;
  is_active = some true;
}

abbrev pub component_params : IncidentsParams
component_params = record no_params {
  types = some (incident ∷ maintenance ∷ []);
  is_active = some true;
}

abbrev pub has_impact : ℤ → Incident → Bool
has_impact impact inc = inc.impact == impact

-- the incident that a request for one component creates
unfoldable pub system_incident : Component → IncidentData → Incident
system_incident comp d = record {
  id = 0;
  text = d.title;
  description = some d.description;
  start_date = d.start_date;
  end_date = d.end_date;
  impact = d.impact;
  statuses = [];
  status = unset;
  system = elim d.system [ none ↦ false | some b ↦ b ];
  type = d.type;
  components = comp ∷ [];
  created_at = none;
  modified_at = none;
  deleted_at = none;
  created_by = none;
  contact_email = none;
  version = none;
}

unfoldable pub added_status : Time → Component → Incident → IncidentStatus
unfolding update_of print_attrs
added_status now comp inc =
    update_of inc.id inc.status (print_attrs comp <> " added to the incident by system.") now

abbrev pub new_of : Result DbError (Incident × Incident) × Db → Result DbError Incident × Db
new_of (ok (old, new), db) = (ok new, db)
new_of (err e, db) = (err e, db)

module _ (d : Driver) (now : Time) where
  -- the search for a system incident with the impact asked for, and what follows
  unfoldable pub join_or_create :
      Component → IncidentData → List Incident → Db → Result DbError Incident × Db
  unfolding system_incident added_status add_component_to_incident create_event
  join_or_create comp req incs db = elim (find (has_impact req.impact) incs) [
    | some inc ↦ add_component_to_incident d now inc comp (added_status now comp inc) db
    | none ↦ create_event d none now 0 (system_incident comp req) none db
  ]

  unfoldable pub add_component_to_system_incident :
      Component → IncidentData → Db → Result DbError Incident × Db
  unfolding join_or_create get_events_internal
  add_component_to_system_incident comp req db = elim (get_events_internal now system_params db) [
    | err e ↦ (err e, db)
    | ok incs ↦ join_or_create comp req incs db
  ]

  -- ModifyIncident of the extracted incident, marked as a system incident
  unfoldable pub mark_system : Result DbError Incident × Db → Result DbError Incident × Db
  unfolding with_tx modify_incident
  mark_system (err e, db) = (err e, db)
  mark_system (ok inc, db) = with_tx d (modify_incident now (record inc { system = true })) db

  -- the search for a system incident with the impact asked for, and what follows
  unfoldable pub move_or_raise :
      Component → IncidentData → Incident → List Incident → Db → Result DbError Incident × Db
  unfolding move_component_from_old_to_another_incident increase_incident_impact
      extract_components_to_new_incident mark_system
  move_or_raise comp req old incs db = elim (find (has_impact req.impact) incs) [
    | some inc ↦ new_of (
        move_component_from_old_to_another_incident d now comp old inc (length inc.components == 1)
          db)
    | none ↦
        if length old.components == 1
        then increase_incident_impact d now old req.impact db
        else mark_system (
            extract_components_to_new_incident d now (comp ∷ []) old req.impact req.title
              (some req.description) db)
  ]

  unfoldable pub move_component_from_to_system_incidents :
      Component → IncidentData → Incident → Db → Result DbError Incident × Db
  unfolding move_or_raise get_events_internal
  move_component_from_to_system_incidents comp req old db =
      elim (get_events_internal now system_params db) [
        | err e ↦ (err e, db)
        | ok incs ↦ move_or_raise comp req old incs db
      ]
