-- ===== src/Api/Patch/Checks.antt =====
-- What a patch that passes the checks may be (checkPatchData, prepareIncidentPatch).
use status_dashboard_backend.Common.{
  ◌≡◌, ◌↔◌, ℤ, pos, int_eq, eqb_ℤ_iff, Bool, true, false, ◌&&◌, ◌||◌, not, ◌==◌, leb, ok, arith,
  string_eq, none, some,
}
use status_dashboard_backend.Event.{
  EventType, information, incident, maintenance, event_type_eq, Status, status_eq, pending_review,
  cancelled, is_information_status, is_maintenance_status, is_incident_open_status,
  is_incident_closed_status, reopened, changed, impact_changed,
}
use status_dashboard_backend.Model.{Incident}
use status_dashboard_backend.Rbac.{Role, operator, creator}
use status_dashboard_backend.Store.Write.{value_or}
use status_dashboard_backend.Api.Response.{Caller}
use status_dashboard_backend.Api.Patch.{
  PatchIncidentData, check_patch_data, update_fields, validate_effective_type_and_impact,
  validate_statuses_patch, check_patch_data_for_incident, allow_maintenance_patch,
  allow_maintenance_patch_as_creator, same_user, too_long, type_differs, is_some, impact_differs,
}

-- incidents have an impact, the other events have none
abbrev pub impact_fits : EventType → ℤ → Bool
impact_fits incident i = not (i == pos 0)
impact_fits _ i = i == pos 0

abbrev pub status_fits : EventType → Status → Bool
status_fits incident s = is_incident_open_status s || is_incident_closed_status s
status_fits maintenance s = is_maintenance_status s
status_fits information s = is_information_status s

impact_checked :
    (t : EventType) (i : ℤ)
    → (validate_effective_type_and_impact t i ≡ ok tt) ↔ (impact_fits t i ≡ true)
unfolding validate_effective_type_and_impact
impact_checked information i = ground (arith, eqb_ℤ_iff i (pos 0))
impact_checked incident i = ground (arith, eqb_ℤ_iff i (pos 0))
impact_checked maintenance i = ground (arith, eqb_ℤ_iff i (pos 0))

status_checked :
    (p : PatchIncidentData) (stored : Incident)
    → (validate_statuses_patch p stored ≡ ok tt) ↔ (status_fits stored.type p.status ≡ true)
unfolding validate_statuses_patch
status_checked p stored = ground arith

-- A closed incident is reopened or changed, and given dates only by `changed`; an open one keeps its start, and its
-- impact unless the status is `impact_changed`.
abbrev pub fits_phase : PatchIncidentData → Incident → Bool
fits_phase p stored = elim stored.end_date [
  | none ↦
      not (is_some p.start_date)
      && (p.status == impact_changed || not (impact_differs p.impact stored.impact))
  | some end_date ↦
      (p.status == reopened || p.status == changed)
      && (p.status == changed || not (is_some p.start_date) && not (is_some p.end_date))
]

closed_status : (s : Status) → is_incident_closed_status s ≡ (s == reopened || s == changed)
unfolding is_incident_closed_status
closed_status s = ground (arith, status_eq.beq_iff s reopened, status_eq.beq_iff s changed)

phase_checked :
    (p : PatchIncidentData) (stored : Incident)
    → (check_patch_data_for_incident p stored ≡ ok tt) ↔ (fits_phase p stored ≡ true)
unfolding check_patch_data_for_incident
phase_checked p stored = ground (arith, closed_status p.status)

-- A patch passes the checks exactly when its description is short enough, it keeps the type, the impact that it leaves
-- and its status fit the type, and, for an incident, it fits the phase: a closed incident takes only `reopened` and
-- `changed`, and dates only with `changed`; an open one takes no start date, and another impact only with
-- `impact_changed`. The statuses that fit the type of an incident are the open ones, `changed` and `reopened`, so an open
-- incident takes `reopened` too.
pub check_patch_data_iff :
    (p : PatchIncidentData) (stored : Incident)
    → (check_patch_data p stored ≡ ok tt) ↔ (
        (too_long p.description ≡ false)
        × (type_differs p.type stored.type ≡ false)
        × (impact_fits stored.type (value_or p.impact stored.impact) ≡ true)
        × (status_fits stored.type p.status ≡ true)
        × ((not (stored.type == incident) || fits_phase p stored) ≡ true))
unfolding check_patch_data
check_patch_data_iff p stored = ground (
  arith,
  impact_checked stored.type (value_or p.impact stored.impact),
  status_checked p stored,
  phase_checked p stored,
)

-- An event that passed the checks keeps its type and stays well typed: the fields that the handler writes have an
-- impact and a status that fit the type.
update_fields_fits :
    (p : PatchIncidentData) (stored : Incident)
    → check_patch_data p stored ≡ ok tt
    → ((update_fields p stored).type ≡ stored.type)
      × (impact_fits (update_fields p stored).type (update_fields p stored).impact ≡ true)
      × (status_fits (update_fields p stored).type (update_fields p stored).status ≡ true)
unfolding update_fields
update_fields_fits p stored h = ground (arith, check_patch_data_iff p stored)

-- Who may patch a maintenance: operators and admins anything; a creator only an event of their own that is still
-- in pending_review, and only to keep it there or to cancel it; nobody else.
pub allow_maintenance_patch_iff :
    (c : Caller) (role : Role) (stored : Incident) (p : PatchIncidentData)
    → (allow_maintenance_patch c role stored p ≡ ok tt) ↔ (
        (leb operator role
          || leb creator role
            && (same_user c.user_id stored.created_by
                && (stored.status == pending_review
                    && (p.status == pending_review || p.status == cancelled))))
        ≡ true)
unfolding allow_maintenance_patch allow_maintenance_patch_as_creator
allow_maintenance_patch_iff c role stored p = ground arith
