-- ===== src/Event.antt =====
-- internal/event/event.go: the types and statuses of events, and which statuses belong to which
-- type. A status is a Go string; the named ones are constructors, and `other` carries a text that is
-- none of them. Statuses that two types share ("planned", "completed", "cancelled") are one value.
-- `description` and the three legacy spellings ("analyzing", "in progress", "scheduled") are
-- the further texts that internal/api/v2/v2.go names; `unset` is the empty string.
use status_dashboard_backend.Common.{
  String, ◌≡◌, ◌↔◌, arith, Bool, true, false, Eq, is_yes, is_yes_iff, String-discrete,
}

pub data EventType : Type 0 where
  information incident maintenance : EventType

pub data Status : Type 0 where
  unset out_dated_system description : Status
  detected analysing fixing impact_changed observing resolved : Status
  reopened changed : Status
  pending_review reviewed planned in_progress modified completed cancelled : Status
  active : Status
  analyzing_legacy in_progress_legacy scheduled_legacy : Status
  other : String → Status

unfoldable pub Status-discrete : Discrete Status
Status-discrete = hlevel String-discrete

abbrev pub eqb_type : EventType → EventType → Bool
eqb_type information information = true
eqb_type incident incident = true
eqb_type maintenance maintenance = true
eqb_type _ _ = false

pub eqb_type_iff : (a b : EventType) → (eqb_type a b ≡ true) ↔ (a ≡ b)
eqb_type_iff a b = ground arith

instance abbrev pub event_type_eq : Eq EventType
event_type_eq = record { beq = eqb_type; beq_iff = eqb_type_iff }

instance abbrev pub status_eq : Eq Status
status_eq = record {
  beq = λ a b. is_yes (Status-discrete a b);
  beq_iff = λ a b. is_yes_iff (Status-discrete a b);
}

unfoldable pub is_incident_open_status : Status → Bool
is_incident_open_status detected = true
is_incident_open_status analysing = true
is_incident_open_status fixing = true
is_incident_open_status impact_changed = true
is_incident_open_status observing = true
is_incident_open_status resolved = true
is_incident_open_status _ = false

unfoldable pub is_incident_closed_status : Status → Bool
is_incident_closed_status reopened = true
is_incident_closed_status changed = true
is_incident_closed_status _ = false

unfoldable pub is_maintenance_status : Status → Bool
is_maintenance_status pending_review = true
is_maintenance_status reviewed = true
is_maintenance_status planned = true
is_maintenance_status in_progress = true
is_maintenance_status modified = true
is_maintenance_status completed = true
is_maintenance_status cancelled = true
is_maintenance_status _ = false

unfoldable pub is_information_status : Status → Bool
is_information_status planned = true
is_information_status active = true
is_information_status completed = true
is_information_status cancelled = true
is_information_status _ = false

-- the string itself
unfoldable pub status_text : Status → String
status_text unset = ""
status_text out_dated_system = "SYSTEM"
status_text description = "description"
status_text detected = "detected"
status_text analysing = "analysing"
status_text fixing = "fixing"
status_text impact_changed = "impact changed"
status_text observing = "observing"
status_text resolved = "resolved"
status_text reopened = "reopened"
status_text changed = "changed"
status_text pending_review = "pending_review"
status_text reviewed = "reviewed"
status_text planned = "planned"
status_text in_progress = "in_progress"
status_text modified = "modified"
status_text completed = "completed"
status_text cancelled = "cancelled"
status_text active = "active"
status_text analyzing_legacy = "analyzing"
status_text in_progress_legacy = "in progress"
status_text scheduled_legacy = "scheduled"
status_text (other s) = s

-- The fixed texts of the updates that the program writes itself.
abbrev pub incident_detected_text : String
incident_detected_text = "The incident is detected."

abbrev pub maintenance_pending_review_text : String
maintenance_pending_review_text = "Maintenance is pending_review."

abbrev pub maintenance_planned_text : String
maintenance_planned_text = "Maintenance is planned."

abbrev pub maintenance_in_progress_text : String
maintenance_in_progress_text = "Maintenance is in_progress."

abbrev pub maintenance_completed_text : String
maintenance_completed_text = "Maintenance is completed."

abbrev pub info_planned_text : String
info_planned_text = "The informational notification is planned."

abbrev pub info_active_text : String
info_active_text = "The informational notification is active."

abbrev pub info_completed_text : String
info_completed_text = "The informational notification is completed."
