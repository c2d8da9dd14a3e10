-- ===== src/Tests/Requests.antt =====
-- The theorems on PATCH, POST and the query, on the requests of the tests.
use status_dashboard_backend.Common.{
  ◌≡◌, ◌≢◌, ◌↔◌, ◌⊎◌, refl, not, Bool, true, false, ◌||◌, ◌&&◌, ◌==◌, leb, none, some, pos, [], ◌∷◌,
  ok, err, arith, inl, Result,
}
use status_dashboard_backend.Event.{
  Status-discrete, resolved, incident, maintenance, event_type_eq, planned, pending_review,
  cancelled, status_eq, reopened, changed, is_incident_open_status,
}
use status_dashboard_backend.Model.{Incident, Email}
use status_dashboard_backend.Rbac.{creator, operator}
use status_dashboard_backend.Store.Tables.{Db, DbError, IncidentRow}
use status_dashboard_backend.Store.Read.{find_row}
use status_dashboard_backend.Store.Write.{value_or, modify_incident}
use status_dashboard_backend.Store.Tx.{reliable}
use status_dashboard_backend.Notification.Publish.{is_enabled}
use status_dashboard_backend.Api.Response.{Caller, Refusal, bad_request, version_is_required}
use status_dashboard_backend.Api.View.{ApiEvent, to_api_event}
use status_dashboard_backend.Api.Patch.{
  PatchIncidentData, check_patch_data, allow_maintenance_patch, same_user, too_long, type_differs,
}
use status_dashboard_backend.Api.Patch.Handler.{patch_incident_handler, persist_incident_patch}
use status_dashboard_backend.Api.Patch.Checks.{
  fits_phase, impact_fits, status_fits, check_patch_data_iff, allow_maintenance_patch_iff,
}
use status_dashboard_backend.Api.Patch.Lifecycle.{incident_open_iff}
use status_dashboard_backend.Api.Patch.Persist.{
  patch_refused_unchanged, no_transition_no_notification,
}
use status_dashboard_backend.Api.Create.{
  IncidentData, prepare_incident_create, create_tx, initial_status, requested,
}
use status_dashboard_backend.Api.Create.Accepted.{
  prepared_IsValid, prepared_role, IsTimely, may_create,
}
use status_dashboard_backend.Api.Create.Stored.{create_tx_lem}
use status_dashboard_backend.Tests.Data.{outage, row_of, tables, tables_with, publisher, event_with}

abbrev resolve : PatchIncidentData
resolve = record {
  title = none;
  description = none;
  impact = none;
  message = "done";
  status = resolved;
  update_date = 180;
  start_date = none;
  end_date = none;
  type = none;
  version = none;
}

resolve_passes : check_patch_data resolve outage ≡ ok tt
unfolding check_patch_data is_incident_open_status
resolve_passes = refl

check_patch_data_example : (check_patch_data resolve outage ≡ ok tt) ↔ (
    (too_long resolve.description ≡ false)
    × (type_differs resolve.type outage.type ≡ false)
    × (impact_fits outage.type (value_or resolve.impact outage.impact) ≡ true)
    × (status_fits outage.type resolve.status ≡ true)
    × ((not (outage.type == incident) || fits_phase resolve outage) ≡ true))
check_patch_data_example = check_patch_data_iff resolve outage

abbrev author : Caller
author = record { role = some creator; user_id = some "anna"; user_email = none }

abbrev resolution : Result Refusal ApiEvent × Db
resolution = patch_incident_handler reliable none 185 1 author outage resolve (tables_with outage)

abbrev nothing : ApiEvent
nothing = to_api_event outage true

abbrev answered : ApiEvent
answered = elim resolution.0 [ ok a ↦ a | err e ↦ nothing ]

resolves :
    patch_incident_handler reliable none 185 1 author outage resolve (tables_with outage)
    ≡ (ok answered, resolution.1)
unfolding patch_incident_handler is_incident_open_status modify_incident Status-discrete is_enabled
resolves = refl

found : find_row (tables_with outage) outage.id ≡ some (row_of outage)
unfolding find_row
found = refl

incident_open_example :
    (after : IncidentRow) × (find_row resolution.1 outage.id ≡ some after)
    × ((after.end_date ≡ none)
        ↔ ((resolve.status ≡ reopened) ⊎ ((outage.end_date ≡ none) × (resolve.status ≢ resolved))))
    × ((resolve.status ≢ resolved) ⊎ (after.end_date ≡ some resolve.update_date))
    × ((after.start_date ≡ outage.start_date)
        ⊎ ((resolve.status ≡ changed) × (outage.end_date ≢ none)))
incident_open_example =
    incident_open_iff reliable none 185 1 author outage resolve (tables_with outage) (row_of outage)
      refl refl found refl resolves

abbrev cancel : PatchIncidentData
cancel = record resolve { status = cancelled }

abbrev submitted : Incident
submitted = event_with maintenance pending_review (pos 0) (some 200) []

allow_maintenance_patch_example :
    (allow_maintenance_patch author creator submitted cancel ≡ ok tt) ↔ (
      (leb operator creator
        || leb creator creator
          && (same_user author.user_id submitted.created_by
              && (submitted.status == pending_review
                  && (cancel.status == pending_review || cancel.status == cancelled))))
      ≡ true)
allow_maintenance_patch_example = allow_maintenance_patch_iff author creator submitted cancel

refused :
    (patch_incident_handler reliable
      (some publisher)
      150
      1
      author
      submitted
      cancel
      (tables_with submitted)).0
    ≡ err (bad_request version_is_required)
unfolding patch_incident_handler
refused = refl

patch_refused_unchanged_example :
    (patch_incident_handler reliable
      (some publisher)
      150
      1
      author
      submitted
      cancel
      (tables_with submitted)).1
    ≡ tables_with submitted
patch_refused_unchanged_example =
    patch_refused_unchanged reliable (some publisher) 150 1 author submitted cancel
      (tables_with submitted) (bad_request version_is_required) refused (ground arith)

-- an edit of a maintenance that keeps its status, at the version that is stored
abbrev edited : Incident
edited = record submitted { text = "Moved"; version = some (pos 3) }

no_transition_example :
    (persist_incident_patch reliable
      (some publisher)
      150
      1
      edited
      pending_review
      (some "anna")
      (tables_with submitted)).1.outbox
    ≡ (tables_with submitted).outbox
no_transition_example =
    no_transition_no_notification reliable (some publisher) 150 1 edited pending_review
      (some "anna") (tables_with submitted) (inl refl)

abbrev proposal : IncidentData
proposal = record {
  title = "Upgrade";
  description = "New kernel";
  impact = pos 0;
  components = 4 ∷ [];
  start_date = 500;
  end_date = some 600;
  system = none;
  type = maintenance;
  updates = [];
  contact_email = [];
  status = planned;
}

abbrev any_address : Email → Bool
any_address e = true

prepared :
    prepare_incident_create any_address 400 author none proposal
    ≡ ok (record proposal { status = pending_review })
unfolding prepare_incident_create
prepared = refl

prepared_example :
    (impact_fits maintenance (pos 0) ≡ true)
    × IsTimely 400 (record proposal { status = pending_review })
prepared_example = prepared_IsValid any_address 400 author none proposal prepared

prepared_role_example : may_create creator (record proposal { status = pending_review }) ≡ true
prepared_role_example = prepared_role any_address 400 author none proposal creator refl prepared

abbrev event : Incident
event = requested (record proposal { status = pending_review }) (some "anna")

abbrev creation : Result DbError (Incident × Db)
creation = create_tx none 400 1 event (some "anna") tables

abbrev after_creation : Db
after_creation = elim creation [ ok (_, db) ↦ db | err _ ↦ tables ]

abbrev created : Incident
created = elim creation [ ok (inc, _) ↦ inc | err _ ↦ event ]

creates : create_tx none 400 1 event (some "anna") tables ≡ ok (created, after_creation)
unfolding create_tx requested is_enabled
creates = refl

unused : find_row tables 8 ≡ none
unfolding find_row
unused = refl

no_version : event.version ≡ none
unfolding requested
no_version = refl

create_tx_example :
    (row : IncidentRow) × (find_row after_creation 8 ≡ some row)
    × (row.status ≡ some (initial_status event).0)
    × (row.version ≡ pos 2)
    × (row.type ≡ event.type)
create_tx_example = create_tx_lem none 400 1 event (some "anna") tables unused no_version creates
