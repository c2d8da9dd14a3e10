-- ===== src/Api/Create.antt =====
-- internal/api/v2/v2.go and validation.go: the checks of POST on an event, and the transaction that
-- stores it. `now` is the clock during the request. mail.ParseAddress is a parameter.
pub mod Accepted
pub mod Stored
use Prim.Native.String.{count}
use status_dashboard_backend.Common.{
  ℕ, String, string_eq, ℤ, pos, int_eq, Bool, true, false, ◌&&◌, ◌||◌, not, if◌then◌else◌, ltb, leb,
  ◌==◌, text_eq, Option, none, some, List, [], ◌∷◌, ◌++◌, Result, ok, err, ◌>>◌, ◌>>=◌, fail_if,
}
use status_dashboard_backend.Event.{
  EventType, information, incident, maintenance, event_type_eq, Status, status_eq, unset, planned,
  pending_review, detected, incident_detected_text, maintenance_pending_review_text,
  maintenance_planned_text, info_planned_text,
}
use status_dashboard_backend.Model.{Time, Email, Component, IncidentStatus, Incident}
use status_dashboard_backend.Rbac.{Role, operator, creator, is_reporter}
use status_dashboard_backend.Store.Tables.{Db, DbError}
use status_dashboard_backend.Store.Write.{modify_incident, save_incident}
use status_dashboard_backend.Store.Tx.{Driver, with_tx}
use status_dashboard_backend.Notification.Publish.{Publisher, allows_domain}
use status_dashboard_backend.Api.Response.{
  ApiError, description_too_long, type_impact_mismatch, end_date_should_be_empty,
  start_date_in_future, maintenance_end_date_empty, updates_should_be_empty, contact_email_invalid,
  contact_email_domain, end_date_before_start, description_required, auth_forbidden,
  insufficient_role, Refusal, bad_request, forbidden, Caller, or_bad_request,
}
use status_dashboard_backend.Api.View.{EventUpdateData, email_or_empty}
use status_dashboard_backend.Api.Patch.{max_description_length}
use status_dashboard_backend.Api.Patch.Handler.{publish_maintenance_change}

-- `Impact` is required by its binding, hence no option.
pub record IncidentData : Type 0 where
  pub title : String
  pub description : String
  pub impact : ℤ
  pub components : List ℕ
  pub start_date : Time
  pub end_date : Option Time
  pub system : Option Bool
  pub type : EventType
  pub updates : List EventUpdateData
  pub contact_email : Email
  pub status : Status

abbrev pub is_none {ℓ} : {A : Type ℓ} → Option A → Bool
is_none none = true
is_none (some a) = false

unfoldable pub validate_event_description : IncidentData → Result ApiError (Unit {0})
validate_event_description d =
    fail_if (ltb max_description_length (count d.description)) description_too_long

unfoldable pub validate_event_creation_impact : IncidentData → Result ApiError (Unit {0})
validate_event_creation_impact d =
    fail_if ((d.type == maintenance || d.type == information) && not (d.impact == pos 0))
      type_impact_mismatch
    >> fail_if (d.type == incident && d.impact == pos 0) type_impact_mismatch

unfoldable pub validate_event_creation_times : Time → IncidentData → Result ApiError (Unit {0})
validate_event_creation_times now d =
    fail_if (d.type == incident && not (is_none d.end_date)) end_date_should_be_empty
    >> fail_if (d.type == incident && ltb now d.start_date) start_date_in_future
    >> fail_if (d.type == maintenance && is_none d.end_date) maintenance_end_date_empty

abbrev pub is_empty {ℓ} : {A : Type ℓ} → List A → Bool
is_empty [] = true
is_empty (x ∷ xs) = false

unfoldable pub validate_event_creation : Time → IncidentData → Result ApiError (Unit {0})
unfolding validate_event_description validate_event_creation_impact validate_event_creation_times
validate_event_creation now d =
    validate_event_description d
    >> validate_event_creation_impact d
    >> validate_event_creation_times now d
    >> fail_if (not (is_empty d.updates)) updates_should_be_empty

-- `EndDate != nil && !EndDate.After(StartDate)`
abbrev pub ends_before_start : IncidentData → Bool
ends_before_start d = elim d.end_date [ none ↦ false | some e ↦ not (ltb d.start_date e) ]

unfoldable pub validate_maintenance_creation :
    (Email → Bool) → IncidentData → Result ApiError (Unit {0})
validate_maintenance_creation parses d =
    fail_if (not (is_empty d.contact_email) && not (parses d.contact_email)) contact_email_invalid
    >> fail_if (ends_before_start d) end_date_before_start
    >> fail_if (d.description == "") description_required

unfoldable pub resolve_maintenance_create_status : Role → Result ApiError Status
resolve_maintenance_create_status role =
    if leb operator role
    then ok planned
    else if leb creator role
    then ok pending_review
    else err insufficient_role

-- the address that the event is created with
unfoldable pub resolve_contact_email :
    Caller → Option Publisher → IncidentData → Result Refusal IncidentData
resolve_contact_email c publisher d =
    if is_empty d.contact_email
    then ok (record d { contact_email = email_or_empty c.user_email })
    else if allows_domain publisher d.contact_email
    then ok d
    else err (bad_request contact_email_domain)

unfoldable pub is_system_incident : IncidentData → Bool
is_system_incident d = d.type == incident && (elim d.system [ none ↦ false | some b ↦ b ])

unfoldable pub prepare_maintenance :
    (Email → Bool) → Caller → Option Publisher → Role → IncidentData → Result Refusal IncidentData
unfolding validate_maintenance_creation resolve_contact_email resolve_maintenance_create_status
prepare_maintenance parses c publisher role d =
    or_bad_request (validate_maintenance_creation parses d) >>= λ _.
    resolve_contact_email c publisher d >>= λ d'. elim (resolve_maintenance_create_status role) [
      | err e ↦ err (forbidden e)
      | ok status ↦ ok (record d' { status = status })
    ]

-- prepareIncidentCreate once the role is known
unfoldable pub prepare_for_role :
    (Email → Bool) → Caller → Option Publisher → Role → IncidentData → Result Refusal IncidentData
unfolding is_system_incident prepare_maintenance is_reporter
prepare_for_role parses c publisher role d =
    if is_reporter role && not (is_system_incident d)
    then err (forbidden insufficient_role)
    else if d.type == maintenance
    then prepare_maintenance parses c publisher role d
    else ok d

-- the request with its status and its address settled
unfoldable pub prepare_incident_create :
    (Email → Bool) → Time → Caller → Option Publisher → IncidentData → Result Refusal IncidentData
unfolding validate_event_creation prepare_for_role
prepare_incident_create parses now c publisher d =
    or_bad_request (validate_event_creation now d) >>= λ _. elim c.role [
      | none ↦ err (forbidden auth_forbidden)
      | some role ↦ prepare_for_role parses c publisher role d
    ]

abbrev pub stub : ℕ → Component
stub i = record { id = i; name = ""; attrs = [] }

abbrev pub stubs : List ℕ → List Component
stubs [] = []
stubs (i ∷ ids) = stub i ∷ stubs ids

abbrev pub optional_email : Email → Option Email
optional_email [] = none
optional_email (c ∷ cs) = some (c ∷ cs)

-- the event that handleRegularIncidentCreation hands to createEvent
unfoldable pub requested : IncidentData → Option String → Incident
requested d user_id = record {
  id = 0;
  text = d.title;
  description = some d.description;
  start_date = d.start_date;
  end_date = d.end_date;
  impact = d.impact;
  statuses = [];
  status = d.status;
  system = elim d.system [ none ↦ false | some b ↦ b ];
  type = d.type;
  components = stubs d.components;
  created_at = none;
  modified_at = none;
  deleted_at = none;
  created_by = user_id;
  contact_email = optional_email d.contact_email;
  version = none;
}

-- the first update of an event: its status and its text
unfoldable pub initial_status : Incident → Status × String
initial_status inc = elim inc.type [
  | information ↦ (planned, info_planned_text)
  | maintenance ↦
      if inc.status == pending_review
      then (pending_review, maintenance_pending_review_text)
      else (planned, maintenance_planned_text)
  | incident ↦ (detected, incident_detected_text)
]

-- the event with its first update, dated back to the start of the event if that is past
unfoldable pub with_initial_status : Time → Option String → Incident → Incident
unfolding initial_status
with_initial_status now user_id inc =
    let (status, text) = initial_status inc in
    record inc {
      statuses =
          inc.statuses
          ++ record {
            id = 0;
            incident_id = inc.id;
            status = status;
            text = text;
            timestamp = if ltb inc.start_date now then inc.start_date else now;
            created_at = none;
            modified_at = none;
            deleted_at = none;
            created_by = user_id;
            modified_by = none;
          }
            ∷ [];
      status = status;
    }

-- the body of the transaction; the result is the event in the caller's hands
unfoldable pub create_tx :
    Option Publisher → Time → ℕ → Incident → Option String → Db → Result DbError (Incident × Db)
unfolding save_incident with_initial_status modify_incident publish_maintenance_change
create_tx publisher now change_id inc user_id db =
    save_incident now inc db >>= λ (saved : Incident × Db).
    modify_incident now (with_initial_status now user_id saved.0) saved.1 >>= λ (r : Incident × Db).
    publish_maintenance_change publisher now change_id r.0 unset user_id r.1
    >>= λ (p : Unit {0} × Db). ok (r.0, p.1)

unfoldable pub create_event :
    Driver
    → Option Publisher
    → Time
    → ℕ
    → Incident
    → Option String
    → Db
    → Result DbError Incident × Db
unfolding with_tx create_tx
create_event d publisher now change_id inc user_id db =
    with_tx d (create_tx publisher now change_id inc user_id) db
