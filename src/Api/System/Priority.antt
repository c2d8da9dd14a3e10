-- ===== src/Api/System/Priority.antt =====
-- Which event decides about a component of a system incident (handleComponentWithExistingEvents in
-- internal/api/v2/v2.go), and when nothing is written.
use status_dashboard_backend.Common.{
  ◌≡◌, refl, ◌∙◌, ap, arith, ℤ, leb_ℤ, Bool, true, false, ◌||◌, not, if◌then◌else◌, ◌==◌, Option,
  none, some, List, [], ◌∷◌, find, Bool-cases, inl, inr, ok,
}
use status_dashboard_backend.Event.{maintenance, event_type_eq}
use status_dashboard_backend.Model.{Time, Component, Incident}
use status_dashboard_backend.Store.Tables.{Db}
use status_dashboard_backend.Store.Tx.{Driver}
use status_dashboard_backend.Store.Lookup.{get_events_by_component_id}
use status_dashboard_backend.Api.Create.{IncidentData}
use status_dashboard_backend.Api.Joining.{component_params}
use status_dashboard_backend.Api.System.{
  ProcessComponentResp, Finding, maintenance_found, incident_found, system_found, system_or_nothing,
  scan_events, handle_finding, handle_system_incident_with_impact_comparison,
  process_system_incident_component,
}

-- An event that decides by itself: a maintenance, or an incident that is no system incident.
abbrev pub decides : Incident → Bool
decides e = e.type == maintenance || not e.system

abbrev pub decision_of : Incident → Finding
decision_of e = if e.type == maintenance then maintenance_found e else incident_found e

abbrev pub head_of : List Incident → Option Incident
head_of [] = none
head_of (e ∷ es) = some e

abbrev pub decision_from : Option Incident → Option Incident → Finding
decision_from (some e) first = decision_of e
decision_from none first = system_or_nothing first

-- what an independent reading of the events gives
abbrev pub decision : List Incident → Finding
decision es = decision_from (find decides es) (head_of es)

abbrev head_after : Option Incident → List Incident → Option Incident
head_after none es = head_of es
head_after (some inc) es = some inc

abbrev decision_after : Option Incident → List Incident → Finding
decision_after first es = decision_from (find decides es) (head_after first es)

scan_events-eq_after :
    (first : Option Incident) (es : List Incident) → scan_events first es ≡ decision_after first es
unfolding scan_events
scan_events-eq_after none [] = refl
scan_events-eq_after (some inc) [] = refl
scan_events-eq_after none (e ∷ es) = ground (arith, scan_events-eq_after (some e) es)
scan_events-eq_after (some inc) (e ∷ es) = ground (arith, scan_events-eq_after (some inc) es)

-- The first event of the list that is a maintenance or no system incident decides, whichever of
-- the two it is; where there is none, the first event, a system incident, is the one to compare with.
pub scan_events-eq : (es : List Incident) → scan_events none es ≡ decision es
scan_events-eq es = scan_events-eq_after none es

-- The event that settles a request for a component without a write: the deciding one, or a system
-- incident whose impact is at least the one asked for.
abbrev pub settling_from : ℤ → Option Incident → Option Incident → Option Incident
settling_from impact (some e) first = some e
settling_from impact none none = none
settling_from impact none (some e) = if leb_ℤ impact e.impact then some e else none

abbrev pub settling : ℤ → List Incident → Option Incident
settling impact es = settling_from impact (find decides es) (head_of es)

undecided_head :
    (es : List Incident) (x : Incident)
    → find decides es ≡ none
    → head_of es ≡ some x
    → (x.type == maintenance) ≡ false
undecided_head [] x n f = cc
undecided_head (e ∷ es) x n f = let same : e ≡ x = cc in rw (← same) (ground arith)

module _ (d : Driver) (now : Time) (comp : Component) (req : IncidentData) (db : Db) where
  -- the answer that names an event
  abbrev pub names : Incident → ProcessComponentResp
  names e = record {
    component_id = comp.id;
    incident_id = e.id;
    maintenance_exists = e.type == maintenance;
  }

  decided_finding :
      (e : Incident) → handle_finding d now comp req (decision_of e) db ≡ (ok (names e), db)
  unfolding handle_finding
  decided_finding e = elim (Bool-cases (e.type == maintenance)) [
    | inl m ↦ rw m refl
    | inr m ↦ rw m refl
  ]

  compared_finding :
      (e : Incident)
      → (e.type == maintenance) ≡ false
      → leb_ℤ req.impact e.impact ≡ true
      → handle_finding d now comp req (system_found e) db ≡ (ok (names e), db)
  unfolding handle_finding handle_system_incident_with_impact_comparison
  compared_finding e m l = rw (m, l) refl

  settled_finding :
      (found first : Option Incident) (e : Incident)
      → ((x : Incident) → found ≡ none → first ≡ some x → (x.type == maintenance) ≡ false)
      → settling_from req.impact found first ≡ some e
      → handle_finding d now comp req (decision_from found first) db ≡ (ok (names e), db)
  settled_finding (some y) first e u h = rw (← (let k : y ≡ e = cc in k)) (decided_finding y)
  settled_finding none none e u h = cc
  settled_finding none (some x) e u h = elim (Bool-cases (leb_ℤ req.impact x.impact)) [
    | inl y ↦
        let f : some x ≡ some e = rw y at h in
        rw (← (let g : x ≡ e = cc in g)) (compared_finding x (u x refl refl) y)
    | inr y ↦ cc (let f : none ≡ some e = rw y at h in f)
  ]

  -- If an active maintenance or regular incident of the component comes first, or only system
  -- incidents are active and the first one's impact is at least the one asked for, then nothing
  -- is written, and the answer names that event and tells whether it is a maintenance.
  pub process_component_settled :
      (e : Incident)
      → settling req.impact (get_events_by_component_id now comp.id component_params db) ≡ some e
      → process_system_incident_component d now comp req db ≡ (ok (names e), db)
  unfolding process_system_incident_component
  process_component_settled e h =
      let es = get_events_by_component_id now comp.id component_params db in
      ap (λ f. handle_finding d now comp req f db) (scan_events-eq es)
      ∙ settled_finding (find decides es) (head_of es) e (undecided_head es) h
