-- ===== src/Api/Extract.antt =====
-- internal/api/v2/v2.go: the extraction of components to a new incident. `now` is the clock during the
-- request. The binding of the body, which asks for distinct component ids, comes before.
pub mod Rest
use status_dashboard_backend.Common.{
  ℕ, String, string_eq, eqb, Bool, true, false, ◌&&◌, ◌||◌, not, if◌then◌else◌, leb, ◌==◌, nat_eq,
  Option, none, some, List, [], ◌∷◌, any, find, get_elem?, length, Result, ok, err, ◌>>=◌, ◌>>◌,
  fail_if,
}
use status_dashboard_backend.Event.{incident, event_type_eq, Status}
use status_dashboard_backend.Model.{Time, ComponentAttr, Component, IncidentStatus, Incident}
use status_dashboard_backend.Rbac.{Role, can_approve}
use status_dashboard_backend.Store.Tables.{Db, DbError, component_exists}
use status_dashboard_backend.Store.Tx.{Driver}
use status_dashboard_backend.Store.Components.{get_component, save_component}
use status_dashboard_backend.Store.Changes.{extract_components_to_new_incident}
use status_dashboard_backend.Store.Lookup.{get_event_updates, modify_event_update}
use status_dashboard_backend.Api.Response.{
  ApiError, extract_forbidden_role, extract_forbidden_type, extract_unknown_component,
  extract_all_components, update_not_exist, component_exist, component_attr_invalid_format,
  component_not_exist, auth_forbidden, Refusal, bad_request, forbidden, status_not_found, internal,
  Caller, or_bad_request,
}
use status_dashboard_backend.Api.View.{ApiEvent, to_api_event, EventUpdateData}

-- the map from ids to the stored components: the last one with an id stays
unfoldable pub stored_component : ℕ → List Component → Option Component
stored_component i [] = none
stored_component i (c ∷ cs) = elim (stored_component i cs) [
  | some found ↦ some found
  | none ↦ if c.id == i then some c else none
]

-- the loop over the requested ids
unfoldable pub find_all : List ℕ → List Component → Result ApiError (List Component)
unfolding stored_component
find_all [] stored = ok []
find_all (i ∷ ids) stored = elim (stored_component i stored) [
  | none ↦ err extract_unknown_component
  | some c ↦ find_all ids stored >>= λ cs. ok (c ∷ cs)
]

unfoldable pub get_components_to_extract :
    List ℕ → List Component → Result ApiError (List Component)
unfolding find_all
get_components_to_extract ids stored = find_all ids stored >>= λ moved.
    fail_if (length moved == length stored) extract_all_components >>= λ _. ok moved

-- the checks of the handler, up to the components that move
unfoldable pub prepare_extract : Caller → Incident → List ℕ → Result Refusal (List Component)
unfolding get_components_to_extract can_approve
prepare_extract c stored ids = elim c.role [
  | none ↦ err (forbidden auth_forbidden)
  | some role ↦
      fail_if (not (can_approve role)) (forbidden extract_forbidden_role)
      >> fail_if (not (stored.type == incident)) (forbidden extract_forbidden_type)
      >> or_bad_request (get_components_to_extract ids stored.components)
]

abbrev pub answer_extract : Result DbError Incident × Db → Result Refusal ApiEvent × Db
answer_extract (ok inc, db) = (ok (to_api_event inc true), db)
answer_extract (err e, db) = (err internal, db)

unfoldable pub post_incident_extract_handler :
    Driver → Time → Caller → Incident → List ℕ → Db → Result Refusal ApiEvent × Db
unfolding prepare_extract extract_components_to_new_incident
post_incident_extract_handler d now c stored ids db = elim (prepare_extract c stored ids) [
  | err refusal ↦ (err refusal, db)
  | ok comps ↦ answer_extract (
      extract_components_to_new_incident d now comps stored stored.impact stored.text
        stored.description db)
]
