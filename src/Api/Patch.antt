-- ===== src/Api/Patch.antt =====
-- internal/api/v2/v2.go: PATCH on an event. `now` is the clock during the request; the stored event
-- is the one that the middleware put in the request's context.
pub mod Handler
pub mod Checks
pub mod Lifecycle
pub mod Persist
use Prim.Native.String.{count}
use status_dashboard_backend.Common.{
  ℕ, String, string_eq, nat_eq, ℤ, pos, int_eq, Bool, true, false, ◌&&◌, ◌||◌, not, if◌then◌else◌,
  ltb, leb, ◌==◌, Option, none, some, List, [], ◌∷◌, ◌++◌, Result, ok, err, ◌>>◌, ◌>>=◌, fail_if,
}
use status_dashboard_backend.Event.{
  EventType, information, incident, maintenance, event_type_eq, Status, status_eq, unset,
  impact_changed, resolved, reopened, changed, pending_review, cancelled, is_information_status,
  is_maintenance_status, is_incident_open_status, is_incident_closed_status,
}
use status_dashboard_backend.Model.{Time, Email, IncidentStatus, Incident}
use status_dashboard_backend.Rbac.{Role, operator, creator}
use status_dashboard_backend.Store.Tables.{IncidentRow, Db, DbError, version_conflict, update_where}
use status_dashboard_backend.Store.Read.{get_incident}
use status_dashboard_backend.Store.Write.{value_or, set_some, modify_incident}
use status_dashboard_backend.Store.Tx.{Driver, with_tx}
use status_dashboard_backend.Notification.Publish.{Change, Publisher, is_enabled, publish_tx}
use status_dashboard_backend.Api.Response.{
  ApiError, description_too_long, type_impact_mismatch, patch_info_status, patch_maintenance_status,
  patch_incident_status, patch_closed_status, patch_impact_status_wrong, patch_opened_start_date,
  patch_type_forbidden, version_is_required, auth_forbidden, maintenance_status_transition_conflict,
  version_conflicted, Refusal, bad_request, forbidden, conflict, internal, Caller, or_bad_request,
}
use status_dashboard_backend.Api.View.{ApiEvent, to_api_event, text_or_empty, email_or_empty}

-- An absent type is `none`; `binding` restricts the others to the three types.
pub record PatchIncidentData : Type 0 where
  pub title : Option String
  pub description : Option String
  pub impact : Option ℤ
  pub message : String
  pub status : Status
  pub update_date : Time
  pub start_date : Option Time
  pub end_date : Option Time
  pub type : Option EventType
  pub version : Option ℤ

abbrev pub max_description_length : ℕ
max_description_length = 1500

abbrev pub is_some {ℓ} : {A : Type ℓ} → Option A → Bool
is_some none = false
is_some (some a) = true

-- `d != nil && utf8.RuneCountInString(*d) > maxDescriptionLength`
abbrev pub too_long : Option String → Bool
too_long none = false
too_long (some d) = ltb max_description_length (count d)

unfoldable pub validate_effective_type_and_impact : EventType → ℤ → Result ApiError (Unit {0})
validate_effective_type_and_impact t impact =
    fail_if ((t == maintenance || t == information) && not (impact == pos 0)) type_impact_mismatch
    >> fail_if (t == incident && impact == pos 0) type_impact_mismatch

unfoldable pub validate_statuses_patch : PatchIncidentData → Incident → Result ApiError (Unit {0})
validate_statuses_patch p stored =
    fail_if (stored.type == information && not (is_information_status p.status)) patch_info_status
    >> fail_if (stored.type == maintenance && not (is_maintenance_status p.status))
        patch_maintenance_status
    >> fail_if
        (stored.type == incident
          && (not (is_incident_open_status p.status) && not (is_incident_closed_status p.status)))
        patch_incident_status

-- `incoming.Impact != nil && *incoming.Impact != *stored.Impact`
abbrev pub impact_differs : Option ℤ → ℤ → Bool
impact_differs none i = false
impact_differs (some n) i = not (n == i)

unfoldable pub check_patch_data_for_incident :
    PatchIncidentData → Incident → Result ApiError (Unit {0})
check_patch_data_for_incident p stored =
    if is_some stored.end_date
    then fail_if (not (is_incident_closed_status p.status)) patch_closed_status
      >> fail_if ((is_some p.start_date || is_some p.end_date) && not (p.status == changed))
          patch_closed_status
    else fail_if (impact_differs p.impact stored.impact && not (p.status == impact_changed))
        patch_impact_status_wrong
      >> fail_if (is_some p.start_date) patch_opened_start_date

-- `incoming.Type != "" && incoming.Type != stored.Type`
abbrev pub type_differs : Option EventType → EventType → Bool
type_differs none t = false
type_differs (some s) t = not (s == t)

unfoldable pub check_patch_data : PatchIncidentData → Incident → Result ApiError (Unit {0})
unfolding validate_effective_type_and_impact validate_statuses_patch check_patch_data_for_incident
check_patch_data p stored =
    fail_if (too_long p.description) description_too_long
    >> fail_if (type_differs p.type stored.type) patch_type_forbidden
    >> validate_effective_type_and_impact stored.type (value_or p.impact stored.impact)
    >> validate_statuses_patch p stored
    >> (if stored.type == incident then check_patch_data_for_incident p stored else ok tt)

unfoldable pub update_fields : PatchIncidentData → Incident → Incident
update_fields p stored =
    let dated = stored.impact == pos 0 || is_some stored.end_date in
    let end_date = if dated then set_some p.end_date stored.end_date else stored.end_date in
    record stored {
      start_date = if dated then value_or p.start_date stored.start_date else stored.start_date;
      end_date =
          if p.status == resolved
          then some p.update_date
          else if p.status == reopened
          then none
          else end_date;
      text = value_or p.title stored.text;
      description = set_some p.description stored.description;
      impact = value_or p.impact stored.impact;
      status = p.status;
    }

-- `a == nil || b == nil || *a != *b`, negated
abbrev pub same_user : Option String → Option String → Bool
same_user (some a) (some b) = a == b
same_user _ _ = false

unfoldable pub allow_maintenance_patch_as_creator :
    Caller → Incident → PatchIncidentData → Result Refusal (Unit {0})
allow_maintenance_patch_as_creator c stored p =
    fail_if (not (same_user c.user_id stored.created_by)) (forbidden auth_forbidden)
    >> fail_if (not (stored.status == pending_review))
        (conflict maintenance_status_transition_conflict)
    >> fail_if (not (p.status == pending_review || p.status == cancelled))
        (conflict maintenance_status_transition_conflict)

unfoldable pub allow_maintenance_patch :
    Caller → Role → Incident → PatchIncidentData → Result Refusal (Unit {0})
unfolding allow_maintenance_patch_as_creator
allow_maintenance_patch c role stored p =
    if leb operator role
    then ok tt
    else if leb creator role
    then allow_maintenance_patch_as_creator c stored p
    else err (forbidden auth_forbidden)

unfoldable pub prepare_incident_patch :
    Caller → Incident → PatchIncidentData → Result Refusal (Unit {0})
unfolding check_patch_data allow_maintenance_patch
prepare_incident_patch c stored p =
    or_bad_request (check_patch_data p stored)
    >> (if stored.type == maintenance
        then (elim c.role [
          | none ↦ err (forbidden auth_forbidden)
          | some role ↦ allow_maintenance_patch c role stored p
        ])
        else ok tt)
