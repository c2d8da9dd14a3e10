-- ===== src/Api/View/History.antt =====
-- The status of an event (eventStatus).
use status_dashboard_backend.Common.{
  ◌≡◌, Bool, true, false, if_elim, if◌then◌else◌, ◌==◌, Option, List, [], ◌∷◌, arith, Bool-cases,
  inl, inr, ◌⊎◌, any, not, ◌&&◌,
}
use status_dashboard_backend.Event.{EventType, Status, status_eq, description}
use status_dashboard_backend.Model.{Time, Incident, IncidentStatus}
use status_dashboard_backend.Api.View.{last_state, event_status, is_annotation, normalize_status}

-- a row that says in which status the event was
abbrev pub is_state : Option Time → EventType → IncidentStatus → Bool
is_state end_date t s =
    not (s.status == description) && not (is_annotation (normalize_status s.status end_date t))

-- the loop's next previous status
abbrev next_state : Option Time → EventType → Status → IncidentStatus → Status
next_state e t prev s =
    if is_annotation (normalize_status s.status e t) then prev else normalize_status s.status e t

last_state-kept :
    (e : Option Time) (t : EventType) (prev : Status) (ss : List IncidentStatus)
    → is_annotation prev ≡ false
    → is_annotation (last_state e t prev ss) ≡ false
unfolding last_state
last_state-kept e t prev [] h = h
last_state-kept e t prev (s ∷ ss) h =
    if_elim (λ r. is_annotation r ≡ false) (s.status == description) _ _
      (λ _. last_state-kept e t prev ss h)
      (λ _. last_state-kept e t (next_state e t prev s) ss (
        if_elim (λ r. is_annotation r ≡ false) (is_annotation (normalize_status s.status e t)) prev
          (normalize_status s.status e t) (λ _. h) (λ n. n)))

last_state-found :
    (e : Option Time) (t : EventType) (prev : Status) (ss : List IncidentStatus)
    → any (is_state e t) ss ≡ true
    → is_annotation (last_state e t prev ss) ≡ false
unfolding last_state
last_state-found e t prev [] h = ground arith
last_state-found e t prev (s ∷ ss) h =
    if_elim (λ r. is_annotation r ≡ false) (s.status == description) _ _
      (λ d. last_state-found e t prev ss (ground (arith, d, h)))
      (λ d. elim (Bool-cases (is_annotation (normalize_status s.status e t))) [
        | inl a ↦ last_state-found e t (next_state e t prev s) ss (ground (arith, d, a, h))
        | inr a ↦ last_state-kept e t (next_state e t prev s) ss (ground (arith, a))
      ])

-- "changed" and "impact changed" are never the status of an event that has a status in its history: if its own
-- status is neither of the two, or some row of its history is a status, then the status shown is neither.
event_status_collapsed :
    (inc : Incident)
    → (is_annotation (normalize_status inc.status inc.end_date inc.type) ≡ false)
      ⊎ (any (is_state inc.end_date inc.type) inc.statuses ≡ true)
    → is_annotation (event_status inc) ≡ false
unfolding event_status
event_status_collapsed inc h =
    let own = normalize_status inc.status inc.end_date inc.type in
    if_elim (λ r. is_annotation r ≡ false) (not (is_annotation own)) own
      (last_state inc.end_date inc.type own inc.statuses) (λ n. ground (arith, n))
      (λ n. elim h [
        | inl a ↦ last_state-kept inc.end_date inc.type own inc.statuses a
        | inr a ↦ last_state-found inc.end_date inc.type own inc.statuses a
      ])
