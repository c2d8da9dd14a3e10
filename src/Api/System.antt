-- ===== src/Api/System.antt =====
-- internal/api/v2/v2.go: the creation of system incidents. Each component is looked up in the events that
-- are active for it, and is then left alone, added to a system incident, or moved to one with a
-- higher impact. `now` is the clock during the request.
pub mod Priority
use status_dashboard_backend.Common.{
  ℕ, String, ◌<>◌, string_eq, ℤ, leb_ℤ, int_eq, Bool, true, false, not, if◌then◌else◌, eqb, ◌==◌,
  nat_eq, Option, none, some, List, [], ◌∷◌, ◌++◌, find, length, Result, ok, err, ◌>>=◌,
}
use status_dashboard_backend.Event.{incident, maintenance, event_type_eq, Status, unset}
use status_dashboard_backend.Model.{Time, Component, IncidentStatus, Incident}
use status_dashboard_backend.Store.Tables.{Db, DbError}
use status_dashboard_backend.Store.Write.{modify_incident}
use status_dashboard_backend.Store.Tx.{Driver, with_tx}
use status_dashboard_backend.Store.Events.{IncidentsParams}
use status_dashboard_backend.Store.Components.{print_attrs, get_component}
use status_dashboard_backend.Store.Moves.{update_of, move_component_from_old_to_another_incident}
use status_dashboard_backend.Store.Changes.{
  add_component_to_incident, extract_components_to_new_incident, increase_incident_impact,
}
use status_dashboard_backend.Store.Lookup.{get_events_by_component_id, get_events_internal}
use status_dashboard_backend.Api.Create.{IncidentData, create_event}
use status_dashboard_backend.Api.Joining.{
  component_params, add_component_to_system_incident, move_component_from_to_system_incidents,
}

-- `error` is the text that an active maintenance forbids the creation
pub record ProcessComponentResp : Type 0 where
  pub component_id : ℕ
  pub incident_id : ℕ
  pub maintenance_exists : Bool

pub data CreationError : Type 0 where
  system_creation_wrong_type : CreationError
  database : DbError → CreationError

-- What the loop over the events of a component finds.
pub data Finding : Type 0 where
  maintenance_found incident_found system_found : Incident → Finding
  nothing_found : Finding

abbrev pub first_or : Option Incident → Incident → Incident
first_or none inc = inc
first_or (some first) inc = first

abbrev pub system_or_nothing : Option Incident → Finding
system_or_nothing none = nothing_found
system_or_nothing (some inc) = system_found inc

-- the loop of handleComponentWithExistingEvents, with the first system incident so far
unfoldable pub scan_events : Option Incident → List Incident → Finding
scan_events first [] = system_or_nothing first
scan_events first (e ∷ es) =
    let rest = scan_events (some (first_or first e)) es in
    if e.type == maintenance
    then maintenance_found e
    else if not e.system
    then incident_found e
    else rest

abbrev pub respond : ℕ → Result DbError Incident × Db → Result DbError ProcessComponentResp × Db
respond c (err e, db) = (err e, db)
respond c (ok inc, db) =
    (ok (record { component_id = c; incident_id = inc.id; maintenance_exists = false }), db)

abbrev pub cons_resp :
    ProcessComponentResp
    → Result DbError (List ProcessComponentResp) × Db
    → Result DbError (List ProcessComponentResp) × Db
cons_resp r (ok rs, db) = (ok (r ∷ rs), db)
cons_resp r (err e, db) = (err e, db)

module _ (d : Driver) (now : Time) where
  unfoldable pub handle_system_incident_with_impact_comparison :
      Component → IncidentData → Incident → Db → Result DbError ProcessComponentResp × Db
  unfolding move_component_from_to_system_incidents
  handle_system_incident_with_impact_comparison comp req inc db =
      if leb_ℤ req.impact inc.impact
      then respond comp.id (ok inc, db)
      else respond comp.id (move_component_from_to_system_incidents d now comp req inc db)

  -- Events without any that fits cannot be: the loop decides on each kind.
  unfoldable pub handle_finding :
      Component → IncidentData → Finding → Db → Result DbError ProcessComponentResp × Db
  unfolding handle_system_incident_with_impact_comparison add_component_to_system_incident
  handle_finding comp req (maintenance_found e) db =
      (ok (record { component_id = comp.id; incident_id = e.id; maintenance_exists = true }), db)
  handle_finding comp req (incident_found e) db = respond comp.id (ok e, db)
  handle_finding comp req (system_found e) db =
      handle_system_incident_with_impact_comparison comp req e db
  handle_finding comp req nothing_found db =
      respond comp.id (add_component_to_system_incident d now comp req db)

  unfoldable pub process_system_incident_component :
      Component → IncidentData → Db → Result DbError ProcessComponentResp × Db
  unfolding handle_finding scan_events get_events_by_component_id
  process_system_incident_component comp req db =
      handle_finding comp req
        (scan_events none (get_events_by_component_id now comp.id component_params db)) db

  -- the loop over the components
  unfoldable pub process_each :
      List Component → IncidentData → Db → Result DbError (List ProcessComponentResp) × Db
  unfolding process_system_incident_component
  process_each [] req db = (ok [], db)
  process_each (c ∷ cs) req db =
      let (r, db') = process_system_incident_component c req db in
      elim r [ err e ↦ (err e, db') | ok resp ↦ cons_resp resp (process_each cs req db') ]

unfoldable pub fetch_components : Db → List ℕ → Result DbError (List Component)
unfolding get_component
fetch_components db [] = ok []
fetch_components db (i ∷ ids) =
    get_component db i >>= λ c. fetch_components db ids >>= λ cs. ok (c ∷ cs)

abbrev pub or_database : {A : Type 0} → Result DbError A × Db → Result CreationError A × Db
or_database (ok a, db) = (ok a, db)
or_database (err e, db) = (err (database e), db)

abbrev pub system_description : String
system_description = "System-wide incident affecting multiple components. Created automatically."

abbrev pub described : IncidentData → IncidentData
described req =
    if req.description == "" then record req { description = system_description } else req

unfoldable pub handle_system_incident_creation :
    Driver → Time → IncidentData → Db → Result CreationError (List ProcessComponentResp) × Db
unfolding fetch_components process_each
handle_system_incident_creation d now req db =
    if not (req.type == incident)
    then (err system_creation_wrong_type, db)
    else (elim (fetch_components db req.components) [
      | err e ↦ (err (database e), db)
      | ok comps ↦ or_database (process_each d now comps (described req) db)
    ])
