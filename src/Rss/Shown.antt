-- ===== src/Rss/Shown.antt =====
-- Who may see the events of a feed (getEvents and createMaintenanceFeedItems in internal/rss/rss.go).
use status_dashboard_backend.Common.{
  ℕ, zero, suc, string_eq, ◌≡◌, subst, arith, true, false, ◌&&◌, not, ◌==◌, nat_eq, some, sym, List,
  [], ◌∷◌, reverse, map, keep, take, All, All-map, All-take, Result-cases, Bool-cases, inl, inr,
  Result, ok, err, refl, ◌∙◌, ◌||◌, any,
}
use mathlib.Core.List.{reverse_aux}
use status_dashboard_backend.Model.{Time, ComponentAttr, Incident, IncidentStatus}
use status_dashboard_backend.Event.{
  maintenance, event_type_eq, status_eq, pending_review, reviewed, cancelled,
}
use status_dashboard_backend.Store.Tables.{IncidentRow, Db, DbError}
use status_dashboard_backend.Store.Read.{components_of, with_statuses}
use status_dashboard_backend.Store.Sql.{
  Truth, sql_and, sql_not, status_in, holds-sql_and, sql_and_assoc,
}
use status_dashboard_backend.Store.Events.{
  public_event_predicates, get_events_with_count, no_public_status, is_public_update,
}
use status_dashboard_backend.Store.Lookup.{
  concerns, get_component_from_name_attrs, get_events_by_component_id, incidents_by_component_attr,
  join_count, times, get_incidents_by_component_attr, get_events, without_count, shown_by_query,
  no_stored_public_update,
}
use status_dashboard_backend.Api.View.{to_api_event}
use status_dashboard_backend.Api.Visible.{show_event}
use status_dashboard_backend.Api.Visible.Listed.{
  IsShown, public-IsShown, get_events_with_count_public,
}
use status_dashboard_backend.Rss.{FeedParams, inc_params, max_events, region_of, feed_events}

module _ {A : Type 0} (P : A → Type 0) where
  All-reverse_aux : (xs ys : List A) → All P xs → All P ys → All P (reverse_aux xs ys)
  All-reverse_aux [] ys h k = k
  All-reverse_aux (x ∷ xs) ys h k = All-reverse_aux xs (x ∷ ys) h.1 (h.0, k)

  All-reverse : (xs : List A) → All P xs → All P (reverse xs)
  All-reverse xs h = All-reverse_aux xs [] h tt

with_count :
    (r : Result DbError (List Incident × ℕ)) {incs : List Incident}
    → without_count r ≡ ok incs
    → (n : ℕ) × (r ≡ ok (incs, n))
with_count (ok (es, n)) h = (n, ground arith)
with_count (err e) h = cc

module _ (db : Db) where
  abbrev IsPublic : IncidentRow → Type 0
  IsPublic row = public_event_predicates db row ≡ true

  IsShown-rows :
      (rows : List IncidentRow) → All IsPublic rows → All IsShown (map (with_statuses db) rows)
  IsShown-rows rows h =
      All-map IsPublic IsShown (with_statuses db) rows (λ row v. public-IsShown db row v) h

  All-times :
      (n : ℕ) (row : IncidentRow) (rows : List IncidentRow)
      → IsPublic row
      → All IsPublic rows
      → All IsPublic (times n row rows)
  All-times zero row rows p h = h
  All-times (suc n) row rows p h = (p, All-times n row rows p h)

  never_stored-eq :
      (ss : List IncidentStatus) (i : ℕ)
      → no_stored_public_update ss i
        ≡ not (any (λ (s : IncidentStatus). s.incident_id == i && is_public_update s) ss)
  unfolding no_stored_public_update
  never_stored-eq [] i = refl
  never_stored-eq (s ∷ ss) i = ground (arith, never_stored-eq ss i)

  -- The rules in the text of the query select what the predicates of the list select.
  shown_by_query-eq : (row : IncidentRow) → public_event_predicates db row ≡ shown_by_query db row
  unfolding public_event_predicates shown_by_query no_public_status
  shown_by_query-eq row =
      let m : Truth = some (row.type == maintenance) in
      let in_review = status_in (λ s. s == pending_review || s == reviewed) row in
      let withdrawn = status_in (λ s. s == cancelled) row in
      let never_shown : Truth = some (no_stored_public_update db.statuses row.id) in
      sym (
        holds-sql_and (sql_not (sql_and m in_review))
          (sql_not (sql_and (sql_and m withdrawn) never_shown))
        ∙ rw (sql_and_assoc m withdrawn never_shown, never_stored-eq db.statuses row.id) refl)

  joined-IsPublic :
      (attr : ComponentAttr) (rows : List IncidentRow)
      → All IsPublic (incidents_by_component_attr attr db rows)
  unfolding incidents_by_component_attr
  joined-IsPublic attr [] = tt
  joined-IsPublic attr (row ∷ rows) = elim (Bool-cases (shown_by_query db row)) [
    | inl e ↦ rw e (
        All-times (join_count attr (components_of db.components row.component_ids)) row
          (incidents_by_component_attr attr db rows) (shown_by_query-eq row ∙ e)
          (joined-IsPublic attr rows))
    | inr e ↦ rw e (joined-IsPublic attr rows)
  ]

  kept-IsPublic :
      (now : Time) (c : ℕ) (rows : List IncidentRow)
      → All IsPublic (keep (concerns now c inc_params db) rows)
  unfolding concerns
  kept-IsPublic now c [] = tt
  kept-IsPublic now c (row ∷ rows) = elim (Bool-cases (concerns now c inc_params db row)) [
    | inl e ↦ rw e (ground (arith, e), kept-IsPublic now c rows)
    | inr e ↦ rw e (kept-IsPublic now c rows)
  ]

  component_events-IsShown :
      (now : Time) (c : ℕ) → All IsShown (get_events_by_component_id now c inc_params db)
  unfolding get_events_by_component_id
  component_events-IsShown now c =
      let found = keep (concerns now c inc_params db) db.incidents in
      IsShown-rows (take max_events (reverse found)) (
        All-take IsPublic max_events (reverse found)
          (All-reverse IsPublic found (kept-IsPublic now c db.incidents)))

  attribute_events-IsShown :
      (attr : ComponentAttr) → All IsShown (get_incidents_by_component_attr db attr max_events)
  unfolding get_incidents_by_component_attr
  attribute_events-IsShown attr =
      let found = incidents_by_component_attr attr db db.incidents in
      IsShown-rows (take max_events (reverse found)) (
        All-take IsPublic max_events (reverse found)
          (All-reverse IsPublic found (joined-IsPublic attr db.incidents)))

  all_events-IsShown :
      (now : Time) {incs : List Incident}
      → get_events now false inc_params db ≡ ok incs
      → All IsShown incs
  unfolding get_events
  all_events-IsShown now h =
      let (n, e) = with_count (get_events_with_count now inc_params false db) h in
      get_events_with_count_public now inc_params db e

  -- Every event that a feed is made of, whichever component or region it is asked for, is one that the single read
  -- shows to everybody.
  pub feed_events-IsShown :
      (now : Time) (p : FeedParams) {incs : List Incident}
      → feed_events now p db ≡ ok incs
      → All (λ e. show_event false e ≡ ok (to_api_event e false)) incs
  unfolding feed_events
  feed_events-IsShown now p {incs} h =
      elim (Bool-cases (not (p.component_name == "") && not (p.region == ""))) [
        | inl e ↦
            elim (Result-cases (get_component_from_name_attrs db p.component_name (region_of p))) [
              | inl (c, f) ↦
                  let g : ◌≡◌ {A = Result DbError (List Incident)}
                      (ok (get_events_by_component_id now c.id inc_params db)) (ok incs) =
                    rw (e, feed_events, f) at h in
                  subst (All IsShown)
                    (let k : get_events_by_component_id now c.id inc_params db ≡ incs = cc in k)
                    (component_events-IsShown now c.id)
              | inr (x, f) ↦ cc (
                  let g : ◌≡◌ {A = Result DbError (List Incident)} (err x) (ok incs) =
                    rw (e, feed_events, f) at h in
                  g)
            ]
        | inr e ↦ elim (Bool-cases (p.component_name == "" && not (p.region == ""))) [
          | inl f ↦
              let g : ◌≡◌ {A = Result DbError (List Incident)}
                  (ok (get_incidents_by_component_attr db (region_of p) max_events)) (ok incs) =
                rw (e, f, feed_events) at h in
              subst (All IsShown)
                (let k : get_incidents_by_component_attr db (region_of p) max_events ≡ incs = cc in
                  k)
                (attribute_events-IsShown (region_of p))
          | inr f ↦ all_events-IsShown now (rw (e, f, feed_events) at h)
        ]
      ]
