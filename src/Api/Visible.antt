-- ===== src/Api/Visible.antt =====
-- Who may see an event: the single read (GetIncidentHandler) and the list (publicEventPredicates of
-- internal/db/db.go).
pub mod Listed
use status_dashboard_backend.Common.{
  ℕ, ◌≡◌, refl, Bool, true, false, ◌&&◌, ◌||◌, not, if◌then◌else◌, ◌==◌, nat_eq, Option, none, some,
  List, [], ◌∷◌, Text, arith, keep, any, Bool-cases, inl, inr, Result, ok, err, length, All,
  All-keep, All-map, map, Option-cases,
}
use status_dashboard_backend.Event.{
  maintenance, event_type_eq, Status, pending_review, reviewed, cancelled, planned, in_progress,
  modified, completed, status_eq,
}
use status_dashboard_backend.Model.{Time, IncidentStatus, Incident}
use status_dashboard_backend.Rbac.{Service, resolve_role, can_view_internal_fields}
use status_dashboard_backend.Store.Tables.{Db, IncidentRow}
use status_dashboard_backend.Store.Read.{
  get_incident, find_row, with_statuses, statuses_by_incident, incident_from_ent,
}
use status_dashboard_backend.Store.Sql.{holds-rules, holds-rules_null}
use status_dashboard_backend.Store.Events.{
  public_event_predicates, no_public_status, is_public_update,
}
use status_dashboard_backend.Api.Response.{Refusal, status_not_found, incident_not_exist}
use status_dashboard_backend.Api.View.{ApiEvent, to_api_event}

-- the roles of the token, where the context has them
unfoldable pub has_extended_view : Option Service → Option (List Text) → Bool
has_extended_view none roles = false
has_extended_view (some svc) none = false
has_extended_view (some svc) (some roles) =
    if length roles == 0 then false else can_view_internal_fields (resolve_role svc roles)

-- a history without a public update
unfoldable pub never_public : List IncidentStatus → Bool
never_public [] = true
never_public (s ∷ ss) = if is_public_update s then false else never_public ss

unfoldable pub is_cancelled_without_public_status : Incident → Bool
unfolding never_public
is_cancelled_without_public_status inc =
    if not (inc.type == maintenance) || not (inc.status == cancelled)
    then false
    else never_public inc.statuses

-- GetIncidentHandler on the event that it read
unfoldable pub show_event : Bool → Incident → Result Refusal ApiEvent
unfolding is_cancelled_without_public_status
show_event is_auth r =
    if not is_auth
      && (r.type == maintenance && (r.status == pending_review || r.status == reviewed))
    then err (status_not_found incident_not_exist)
    else if not is_auth && is_cancelled_without_public_status r
    then err (status_not_found incident_not_exist)
    else ok (to_api_event r is_auth)

unfoldable pub get_incident_handler : Db → Bool → ℕ → Result Refusal ApiEvent
unfolding show_event get_incident
get_incident_handler db is_auth i = elim (get_incident db i) [
  | none ↦ err (status_not_found incident_not_exist)
  | some r ↦ show_event is_auth r
]

never_public-eq :
    (i : ℕ) (ss : List IncidentStatus)
    → never_public (keep (λ s. s.incident_id == i) ss)
      ≡ not (any (λ (s : IncidentStatus). s.incident_id == i && is_public_update s) ss)
unfolding never_public
never_public-eq i [] = refl
never_public-eq i (s ∷ ss) = elim (Bool-cases (s.incident_id == i)) [
  | inl e ↦ rw e (elim (Bool-cases (is_public_update s)) [
    | inl p ↦ rw p refl
    | inr p ↦ rw p (never_public-eq i ss)
  ])
  | inr e ↦ rw e (never_public-eq i ss)
]

-- `status IS NULL`
abbrev pub has_no_status : IncidentRow → Bool
has_no_status row = elim row.status [ none ↦ true | some s ↦ false ]

-- The two tests on a row with a status.
visible-eq :
    (db : Db) (row : IncidentRow) {s : Status}
    → row.status ≡ some s
    → public_event_predicates db row ≡ (
        not (row.type == maintenance && (s == pending_review || s == reviewed))
        && not (row.type == maintenance && (s == cancelled && no_public_status db row)))
unfolding public_event_predicates
visible-eq db row {s} h = rw h (
    holds-rules (row.type == maintenance) (s == pending_review || s == reviewed) (s == cancelled)
      (no_public_status db row))

visible_null :
    (db : Db) (row : IncidentRow)
    → row.status ≡ none
    → public_event_predicates db row ≡ not (row.type == maintenance)
unfolding public_event_predicates
visible_null db row h = rw h (holds-rules_null (row.type == maintenance) (no_public_status db row))

pub show_event-eq :
    (db : Db) (is_auth : Bool) (row : IncidentRow)
    → show_event is_auth (with_statuses db row) ≡ (
        if is_auth
          || public_event_predicates db row
          || (row.type == maintenance && has_no_status row)
        then ok (to_api_event (with_statuses db row) is_auth)
        else err (status_not_found incident_not_exist))
unfolding show_event with_statuses no_public_status statuses_by_incident incident_from_ent
show_event-eq db is_auth row = elim (Option-cases row.status) [
  | inl h ↦ rw (visible_null db row h, h) (ground arith)
  | inr (s, h) ↦ rw (visible-eq db row h, h) (ground (arith, never_public-eq row.id db.statuses))
]

-- The two implementations of "may the public see it", for every stored row: the single read answers a caller
-- without the extended view exactly when the predicates of the public list select the row or the row is a maintenance
-- whose status is NULL, and answers "not found" otherwise; a caller with the extended view always gets the event.
pub get_incident_handler_lem :
    (db : Db) (is_auth : Bool) (i : ℕ) (row : IncidentRow)
    → find_row db i ≡ some row
    → get_incident_handler db is_auth i ≡ (
        if is_auth
          || public_event_predicates db row
          || (row.type == maintenance && has_no_status row)
        then ok (to_api_event (with_statuses db row) is_auth)
        else err (status_not_found incident_not_exist))
unfolding get_incident_handler get_incident
get_incident_handler_lem db is_auth i row h =
    rw (get_incident_handler, get_incident, h) (show_event-eq db is_auth row)
