-- ===== src/Api/Visible/Listed.antt =====
-- The public list of events and the single read.
use status_dashboard_backend.Common.{
  ℕ, ◌≡◌, Bool, true, false, List, [], ◌∷◌, ok, All, All-keep, All-map, map, keep, arith, inl, inr,
  ◌∙◌, refl, Option-cases, sym, subst,
}
use status_dashboard_backend.Model.{Time, Incident}
use status_dashboard_backend.Store.Tables.{Db, IncidentRow}
use status_dashboard_backend.Store.Read.{with_statuses}
use status_dashboard_backend.Store.Events.{
  IncidentsParams, matches, apply_events_filters, get_events_with_count, page_of, by_start_desc,
  public_event_predicates,
}
use status_dashboard_backend.Store.Events.Paging.{All-page_of, All-by_start_desc}
use status_dashboard_backend.Api.View.{to_api_event}
use status_dashboard_backend.Api.Visible.{show_event, show_event-eq}

-- the handler of the single read shows it to everybody
abbrev pub IsShown : Incident → Type 0
IsShown inc = show_event false inc ≡ ok (to_api_event inc false)

All-Unit : (rows : List IncidentRow) → All (λ (r : IncidentRow). Unit {0}) rows
All-Unit [] = tt
All-Unit (r ∷ rows) = (tt, All-Unit rows)

pub public-IsShown :
    (db : Db) (row : IncidentRow)
    → public_event_predicates db row ≡ true
    → IsShown (with_statuses db row)
public-IsShown db row visible = show_event-eq db false row ∙ rw visible refl

matches-IsShown :
    (now : Time) (p : IncidentsParams) (db : Db) (row : IncidentRow)
    → matches now p false db row ≡ true
    → IsShown (with_statuses db row)
unfolding matches
matches-IsShown now p db row h = public-IsShown db row (ground (arith, h))

listed-IsShown :
    (now : Time) (p : IncidentsParams) (db : Db)
    → All IsShown (
        map
          (with_statuses db)
          (page_of p (by_start_desc (keep (matches now p false db) db.incidents))))
listed-IsShown now p db =
    let found = keep (matches now p false db) db.incidents in
    All-map (λ r. (matches now p false db r ≡ true) × Unit {0}) IsShown (with_statuses db)
      (page_of p (by_start_desc found)) (λ r h. matches-IsShown now p db r h.0)
      (All-page_of _ p (by_start_desc found) (
        All-by_start_desc _ found
          (All-keep _ (matches now p false db) db.incidents (All-Unit db.incidents))))

found-by-matches :
    (now : Time) (p : IncidentsParams) (is_auth : Bool) (db : Db) {events : List Incident}
    {total : ℕ}
    → get_events_with_count now p is_auth db ≡ ok (events, total)
    → events
      ≡ map
          (with_statuses db)
          (page_of p (by_start_desc (keep (matches now p is_auth db) db.incidents)))
unfolding get_events_with_count apply_events_filters
found-by-matches now p is_auth db h = elim (Option-cases p.is_active) [
  | inl n ↦ ground arith
  | inr (true, n) ↦ ground arith
  | inr (false, n) ↦ ground arith
]

-- Whatever the filters and the page, every event in the answer to a caller without the extended view is one that
-- the single read shows to such a caller too.
pub get_events_with_count_public :
    (now : Time) (p : IncidentsParams) (db : Db) {events : List Incident} {total : ℕ}
    → get_events_with_count now p false db ≡ ok (events, total)
    → All (λ e. show_event false e ≡ ok (to_api_event e false)) events
get_events_with_count_public now p db h =
    subst (All IsShown) (sym (found-by-matches now p false db h)) (listed-IsShown now p db)
