-- ===== src/Api/Create/Accepted.antt =====
-- Which events may be created, and by whom (prepareIncidentCreate).
use status_dashboard_backend.Common.{
  nat_eq, ◌≡◌, ◌≢◌, ◌≤◌, pos, int_eq, eqb_ℤ_iff, Bool, true, ◌&&◌, ◌||◌, not, if◌then◌else◌, ◌==◌,
  leb, Option, none, some, Result, ok, err, arith, string_eq, Option-cases, inl, inr, >>=-eq-ok,
}
use status_dashboard_backend.Event.{
  incident, maintenance, event_type_eq, Status, status_eq, planned, pending_review,
}
use status_dashboard_backend.Model.{Time, Email}
use status_dashboard_backend.Rbac.{Role, operator, creator, reporter, is_reporter}
use status_dashboard_backend.Notification.Publish.{Publisher}
use status_dashboard_backend.Api.Response.{Refusal, forbidden, Caller, or_bad_request}
use status_dashboard_backend.Api.Patch.Checks.{impact_fits}
use status_dashboard_backend.Api.Create.{
  IncidentData, validate_event_creation, validate_maintenance_creation, prepare_incident_create,
  prepare_for_role, prepare_maintenance, resolve_contact_email, resolve_maintenance_create_status,
  is_system_incident,
}

-- the time window of an event fits its type
abbrev pub IsTimely : Time → IncidentData → Type 0
IsTimely now d =
    (d.type ≡ incident → (d.end_date ≡ none) × (d.start_date ≤ now))
    × (d.type ≡ maintenance → d.end_date ≢ none)

validated :
    (now : Time) (d : IncidentData)
    → validate_event_creation now d ≡ ok tt
    → (impact_fits d.type d.impact ≡ true) × IsTimely now d
unfolding validate_event_creation
validated now d h = ground (arith, eqb_ℤ_iff d.impact (pos 0))

-- the status in which this role creates a maintenance
abbrev pub status_granted : Role → Status → Bool
status_granted role status =
    if leb operator role then status == planned else leb creator role && status == pending_review

-- the caller may create this event in this status
abbrev pub may_create : Role → IncidentData → Bool
unfolding is_system_incident
may_create role d =
    if d.type == maintenance
    then status_granted role d.status
    else not (role == reporter) || is_system_incident d

address_kept :
    (c : Caller) (publisher : Option Publisher) (d : IncidentData) {d' : IncidentData}
    → resolve_contact_email c publisher d ≡ ok d'
    → d' ≡ record d { contact_email = d'.contact_email }
unfolding resolve_contact_email
address_kept c publisher d h = ground arith

-- what the further steps of a maintenance leave alone, and the status that they give
abbrev IsPrepared : Role → IncidentData → IncidentData → Type 0
IsPrepared role d d' =
    (d' ≡ record d { contact_email = d'.contact_email; status = d'.status })
    × (status_granted role d'.status ≡ true)

status_given :
    (role : Role) (d : IncidentData) {d' : IncidentData}
    → ◌≡◌ {A = Result Refusal IncidentData}
        (elim (resolve_maintenance_create_status role) [
          | err e ↦ err (forbidden e)
          | ok status ↦ ok (record d { status = status })
        ])
        (ok d')
    → IsPrepared role d d'
unfolding resolve_maintenance_create_status
status_given role d h = ground arith

maintenance-IsPrepared :
    (parses : Email → Bool) (c : Caller) (publisher : Option Publisher) (role : Role)
    (d : IncidentData) {d' : IncidentData}
    → prepare_maintenance parses c publisher role d ≡ ok d'
    → IsPrepared role d d'
unfolding prepare_maintenance
maintenance-IsPrepared parses c publisher role d {d'} h =
    let (u, v, k) = >>=-eq-ok (or_bad_request (validate_maintenance_creation parses d)) _ h in
    let (d1, r, k') = >>=-eq-ok (resolve_contact_email c publisher d) _ k in
    let q = address_kept c publisher d r in let g = status_given role d1 k' in ground (arith, q, g)

role_prepared :
    (parses : Email → Bool) (c : Caller) (publisher : Option Publisher) (role : Role)
    (d : IncidentData) {d' : IncidentData}
    → prepare_for_role parses c publisher role d ≡ ok d'
    → (d' ≡ record d { contact_email = d'.contact_email; status = d'.status })
      × (may_create role d' ≡ true)
unfolding prepare_for_role is_system_incident is_reporter
role_prepared parses c publisher role d h =
    ground (arith, maintenance-IsPrepared parses c publisher role d)

accepted :
    (parses : Email → Bool) (now : Time) (c : Caller) (publisher : Option Publisher)
    (d : IncidentData) {d' : IncidentData}
    → prepare_incident_create parses now c publisher d ≡ ok d'
    → (validate_event_creation now d ≡ ok tt)
      × ((role : Role) × (c.role ≡ some role)
          × (prepare_for_role parses c publisher role d ≡ ok d'))
unfolding prepare_incident_create
accepted parses now c publisher d h =
    let (u, v, k) = >>=-eq-ok (or_bad_request (validate_event_creation now d)) _ h in
    elim (Option-cases c.role) [
      | inl n ↦ ground arith
      | inr (role, n) ↦ (ground arith, (role, n, ground arith))
    ]

-- A creation request that is accepted has an impact that fits its type, starts no incident in the future or with an end,
-- and gives every maintenance an end.
pub prepared_IsValid :
    (parses : Email → Bool) (now : Time) (c : Caller) (publisher : Option Publisher)
    (d : IncidentData) {d' : IncidentData}
    → prepare_incident_create parses now c publisher d ≡ ok d'
    → (impact_fits d'.type d'.impact ≡ true) × IsTimely now d'
unfolding prepare_incident_create
prepared_IsValid parses now c publisher d h =
    let (v, (role, r, k)) = accepted parses now c publisher d h in
    let q = role_prepared parses c publisher role d k in
    let w = validated now d v in ground (arith, q, w)

-- Who may create what: only operators and admins create a maintenance as planned, a creator's maintenance starts
-- in pending_review, nobody below creates a maintenance, and a reporter creates system incidents only.
pub prepared_role :
    (parses : Email → Bool) (now : Time) (c : Caller) (publisher : Option Publisher)
    (d : IncidentData) (role : Role) {d' : IncidentData}
    → c.role ≡ some role
    → prepare_incident_create parses now c publisher d ≡ ok d'
    → may_create role d' ≡ true
unfolding prepare_incident_create
prepared_role parses now c publisher d role r h =
    let (v, (role', r', k)) = accepted parses now c publisher d h in
    let q = role_prepared parses c publisher role' d k in ground (arith, q)
