-- ===== src/Api/Regular.antt =====
-- internal/api/v2/v2.go: the creation of regular events. A new incident takes its components out of the
-- incidents that are open already; an incident that loses its last one is closed. `now` is the clock
-- during the request. The open events are shared by pointers, so the list is passed on.
pub mod Movement
use status_dashboard_backend.Common.{
  ℕ, String, ℤ, pos, int_eq, Bool, true, false, ◌||◌, not, if◌then◌else◌, ◌==◌, nat_eq, Option,
  none, some, List, [], ◌∷◌, any, map, length, Result, ok, err,
}
use status_dashboard_backend.Event.{information, maintenance, event_type_eq}
use status_dashboard_backend.Model.{Time, Component, Incident}
use status_dashboard_backend.Store.Tables.{Db, DbError}
use status_dashboard_backend.Store.Tx.{Driver}
use status_dashboard_backend.Store.Moves.{move_component_from_old_to_another_incident}
use status_dashboard_backend.Store.Lookup.{get_events_internal}
use status_dashboard_backend.Notification.Publish.{Publisher}
use status_dashboard_backend.Api.Response.{
  incident_system_creation_wrong_type, Refusal, bad_request, internal, Caller,
}
use status_dashboard_backend.Api.Create.{
  IncidentData, is_empty, requested, create_event, prepare_incident_create,
}
use status_dashboard_backend.Api.Joining.{no_params}
use status_dashboard_backend.Api.System.{
  ProcessComponentResp, CreationError, system_creation_wrong_type, database, cons_resp,
  handle_system_incident_creation, or_database,
}

unfoldable pub should_skip_component_movement : List Incident → IncidentData → Bool
should_skip_component_movement opened req =
    is_empty opened || req.impact == pos 0 || req.type == information

abbrev pub resp_for : Incident → Component → ProcessComponentResp
resp_for inc c = record { component_id = c.id; incident_id = inc.id; maintenance_exists = false }

unfoldable pub create_simple_incident_result : Incident → List ProcessComponentResp
create_simple_incident_result inc = map (resp_for inc) inc.components

unfoldable pub should_skip_incident : Incident → Bool
should_skip_incident inc = inc.type == information || inc.type == maintenance

abbrev pub has_component : ℕ → Incident → Bool
has_component i inc = any (λ (c : Component). i == c.id) inc.components

-- an open event that stays in front of the others
abbrev pub keep_first :
    Incident
    → Result DbError (Incident × List Incident) × Db
    → Result DbError (Incident × List Incident) × Db
keep_first inc (ok (new, opened), db) = (ok (new, inc ∷ opened), db)
keep_first inc (err e, db) = (err e, db)

abbrev pub replace_first :
    List Incident
    → Result DbError (Incident × Incident) × Db
    → Result DbError (Incident × List Incident) × Db
replace_first opened (ok (old, new), db) = (ok (new, old ∷ opened), db)
replace_first opened (err e, db) = (err e, db)

-- a missing flag is false
abbrev pub is_system : IncidentData → Bool
is_system req = elim req.system [ none ↦ false | some b ↦ b ]

module _ (d : Driver) (now : Time) where
  -- the loop of processComponentInOpenedIncidents: the new incident and the open events after it
  unfoldable pub move_component :
      Component → Incident → List Incident → Db → Result DbError (Incident × List Incident) × Db
  unfolding should_skip_incident move_component_from_old_to_another_incident
  move_component comp new [] db = (ok (new, []), db)
  move_component comp new (inc ∷ opened) db =
      let later = keep_first inc (move_component comp new opened db) in
      if should_skip_incident inc
      then later
      else if has_component comp.id inc
      then replace_first opened (
          move_component_from_old_to_another_incident d now comp inc new
            (length inc.components == 1) db)
      else later

  -- the loop of processComponentMovement over the components that the request named
  unfoldable pub process_component_movement :
      List Component
      → Incident
      → List Incident
      → Db
      → Result DbError (List ProcessComponentResp) × Db
  unfolding move_component
  process_component_movement [] new opened db = (ok [], db)
  process_component_movement (c ∷ cs) new opened db =
      let (r, db') = move_component c new opened db in
      elim r [
        | err e ↦ (err e, db')
        | ok (new', opened') ↦
            cons_resp (resp_for new' c) (process_component_movement cs new' opened' db')
      ]

  unfoldable pub after_create :
      IncidentData
      → List Incident
      → Result DbError Incident × Db
      → Result DbError (List ProcessComponentResp) × Db
  unfolding should_skip_component_movement create_simple_incident_result process_component_movement
  after_create req opened (err e, db) = (err e, db)
  after_create req opened (ok inc, db) =
      if should_skip_component_movement opened req
      then (ok (create_simple_incident_result inc), db)
      else process_component_movement inc.components inc opened db

  unfoldable pub handle_regular_incident_creation :
      Option Publisher
      → ℕ
      → IncidentData
      → Option String
      → Db
      → Result DbError (List ProcessComponentResp) × Db
  unfolding get_events_internal after_create create_event requested
  handle_regular_incident_creation publisher change_id req user_id db =
      elim (get_events_internal now (record no_params { is_active = some true }) db) [
        | err e ↦ (err e, db)
        | ok opened ↦
            after_create req opened
              (create_event d publisher now change_id (requested req user_id) user_id db)
      ]

  unfoldable pub route_incident_creation :
      Option Publisher
      → ℕ
      → IncidentData
      → Option String
      → Db
      → Result CreationError (List ProcessComponentResp) × Db
  unfolding handle_system_incident_creation handle_regular_incident_creation
  route_incident_creation publisher change_id req user_id db =
      if is_system req
      then handle_system_incident_creation d now req db
      else or_database (handle_regular_incident_creation publisher change_id req user_id db)

-- the answer 200, or 409 where a component has an active maintenance
pub record PostIncidentResp : Type 0 where
  pub is_conflict : Bool
  pub result : List ProcessComponentResp

abbrev pub exists_maintenance : ProcessComponentResp → Bool
exists_maintenance r = r.maintenance_exists

unfoldable pub answer_creation :
    Result CreationError (List ProcessComponentResp) × Db → Result Refusal PostIncidentResp × Db
answer_creation (ok rs, db) =
    (ok (record { is_conflict = any exists_maintenance rs; result = rs }), db)
answer_creation (err system_creation_wrong_type, db) =
    (err (bad_request incident_system_creation_wrong_type), db)
answer_creation (err (database e), db) = (err internal, db)

unfoldable pub post_incident_handler :
    Driver
    → Option Publisher
    → (List ℕ → Bool)
    → Time
    → ℕ
    → Caller
    → IncidentData
    → Db
    → Result Refusal PostIncidentResp × Db
unfolding prepare_incident_create answer_creation route_incident_creation
post_incident_handler d publisher parses now change_id c req db =
    elim (prepare_incident_create parses now c publisher req) [
      | err refusal ↦ (err refusal, db)
      | ok req' ↦
          answer_creation (route_incident_creation d now publisher change_id req' c.user_id db)
    ]
