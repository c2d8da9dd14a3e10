-- ===== src/Api/View.antt =====
-- internal/api/v2/v2.go: an event as the API shows it (toAPIEvent and what it calls).
pub mod Updates
pub mod History
use status_dashboard_backend.Common.{
  ℕ, suc, String, string_eq, ℤ, Bool, true, false, ◌&&◌, ◌||◌, not, if◌then◌else◌, ◌==◌, Option,
  none, some, List, [], ◌∷◌, map,
}
use status_dashboard_backend.Event.{
  EventType, information, incident, maintenance, event_type_eq, Status, status_eq, out_dated_system,
  description, analysing, resolved, changed, impact_changed, pending_review, reviewed, planned,
  in_progress, completed, analyzing_legacy, in_progress_legacy, scheduled_legacy,
}
use status_dashboard_backend.Model.{Time, Email, Component, IncidentStatus, Incident}

pub record EventUpdateData : Type 0 where
  pub id : ℕ
  pub status : Status
  pub text : String
  pub timestamp : Time

-- `Incident` of the API; an omitted text is empty
pub record ApiEvent : Type 0 where
  pub id : ℕ
  pub title : String
  pub description : String
  pub impact : ℤ
  pub components : List ℕ
  pub start_date : Time
  pub end_date : Option Time
  pub system : Bool
  pub updates : List EventUpdateData
  pub status : Status
  pub type : EventType
  pub contact_email : Email
  pub created_by : String
  pub version : Option ℤ

-- the terminal status of an outdated system event
unfoldable pub outdated_status : EventType → Status
outdated_status incident = resolved
outdated_status information = completed
outdated_status maintenance = completed

unfoldable pub normalize_status : Status → Option Time → EventType → Status
unfolding outdated_status
normalize_status analyzing_legacy end_date t = analysing
normalize_status in_progress_legacy end_date t = in_progress
normalize_status scheduled_legacy end_date t = planned
normalize_status out_dated_system none t = out_dated_system
normalize_status out_dated_system (some _) t = outdated_status t
normalize_status s end_date t = s

unfoldable pub is_internal_status : Status → Bool
is_internal_status pending_review = true
is_internal_status reviewed = true
is_internal_status _ = false

-- "changed" and "impact changed" annotate a change
abbrev pub is_annotation : Status → Bool
is_annotation s = s == changed || s == impact_changed

-- the loop of mapEventUpdates, from an index, a last status and a latest description
unfoldable pub map_updates :
    Bool
    → Option Time
    → EventType
    → ℕ
    → Status
    → String
    → List IncidentStatus
    → List EventUpdateData × String
unfolding is_internal_status normalize_status
map_updates is_auth end_date t idx last latest [] = ([], latest)
map_updates is_auth end_date t idx last latest (s ∷ ss) =
    let skipped = map_updates is_auth end_date t idx last latest ss in
    let described = map_updates is_auth end_date t idx last s.text ss in
    let normal = normalize_status s.status end_date t in
    let status = if is_annotation normal then last else normal in
    let (rest, found) = map_updates is_auth end_date t (suc idx) status latest ss in
    if not is_auth && is_internal_status s.status
    then skipped
    else if s.status == description
    then described
    else (
      record { id = idx; status = status; text = s.text; timestamp = s.timestamp } ∷ rest,
      found,
    )

unfoldable pub map_event_updates :
    List IncidentStatus → Bool → Status → Option Time → EventType → List EventUpdateData × String
unfolding map_updates
map_event_updates statuses is_auth event_status end_date t =
    map_updates is_auth end_date t 0 (normalize_status event_status end_date t) "" statuses

-- the loop of eventStatus
unfoldable pub last_state : Option Time → EventType → Status → List IncidentStatus → Status
unfolding normalize_status
last_state end_date t prev [] = prev
last_state end_date t prev (s ∷ ss) =
    let row = normalize_status s.status end_date t in
    let skipped = last_state end_date t prev ss in
    let rest = last_state end_date t (if is_annotation row then prev else row) ss in
    if s.status == description then skipped else rest

unfoldable pub event_status : Incident → Status
unfolding last_state
event_status inc =
    let status = normalize_status inc.status inc.end_date inc.type in
    if not (is_annotation status)
    then status
    else last_state inc.end_date inc.type status inc.statuses

abbrev pub text_or_empty : Option String → String
text_or_empty none = ""
text_or_empty (some s) = s

abbrev pub email_or_empty : Option Email → Email
email_or_empty none = []
email_or_empty (some e) = e

unfoldable pub to_api_event : Incident → Bool → ApiEvent
unfolding map_event_updates event_status
to_api_event inc is_auth =
    let (updates, latest) =
      map_event_updates inc.statuses is_auth inc.status inc.end_date inc.type in
    record {
      id = inc.id;
      title = inc.text;
      description = if not (latest == "") then latest else text_or_empty inc.description;
      impact = inc.impact;
      components = map (λ (c : Component). c.id) inc.components;
      start_date = inc.start_date;
      end_date = inc.end_date;
      system = inc.system;
      updates = updates;
      status = event_status inc;
      type = inc.type;
      contact_email = if is_auth then email_or_empty inc.contact_email else [];
      created_by = if is_auth then text_or_empty inc.created_by else "";
      version = if is_auth && inc.type == maintenance then inc.version else none;
    }
