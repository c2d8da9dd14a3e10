-- ===== src/Rss.antt =====
-- internal/rss/rss.go: which events a feed shows, in which order, and its items. The layouts of time.Format and
-- utf8.ValidString with the test for the zero character are parameters; the XML is the library's.
pub mod Items
pub mod Shown
pub mod Order
pub mod Announced
use status_dashboard_backend.Common.{
  ℕ, String, string_eq, ◌<>◌, Bool, true, false, ◌&&◌, ◌||◌, not, if◌then◌else◌, ◌==◌, Option, none,
  some, List, [], ◌∷◌, ◌++◌, any, keep, Result, ok, err, sort_desc,
}
use status_dashboard_backend.Model.{Time, ComponentAttr, Incident}
use status_dashboard_backend.Store.Tables.{Db, DbError, component_not_exist}
use status_dashboard_backend.Store.Events.{IncidentsParams}
use status_dashboard_backend.Store.Lookup.{
  get_component_from_name_attrs, get_events_by_component_id, get_incidents_by_component_attr,
  get_events,
}

abbrev pub general_title : String
general_title = "Incidents | Status Dashboard"

abbrev pub max_events : ℕ
max_events = 10

unfoldable pub validate_region : String → Bool
validate_region region = any (λ r. r == region) ("EU-DE" ∷ "EU-NL" ∷ "EU-CH2" ∷ "Global" ∷ [])

pub record FeedParams : Type 0 where
  pub region : String
  pub component_name : String

abbrev pub inc_params : IncidentsParams
inc_params = record {
  types = none;
  status = none;
  start_date = none;
  end_date = none;
  impact = none;
  is_system = none;
  component_ids = [];
  last_count = max_events;
  is_active = none;
  limit = none;
  page = none;
}

abbrev pub region_of : FeedParams → ComponentAttr
region_of p = record { name = "region"; value = p.region }

-- getEvents: the three cases of its switch
unfoldable pub feed_events : Time → FeedParams → Db → Result DbError (List Incident)
unfolding get_component_from_name_attrs get_events_by_component_id get_incidents_by_component_attr
    get_events
feed_events now p db =
    if not (p.component_name == "") && not (p.region == "")
    then (elim (get_component_from_name_attrs db p.component_name (region_of p)) [
      | err e ↦ err e
      | ok c ↦ ok (get_events_by_component_id now c.id inc_params db)
    ])
    else if p.component_name == "" && not (p.region == "")
    then ok (get_incidents_by_component_attr db (region_of p) max_events)
    else get_events now false inc_params db

abbrev pub is_open : Incident → Bool
is_open inc = elim inc.end_date [ none ↦ true | some _ ↦ false ]

abbrev pub started : Incident → ℕ
started inc = inc.start_date

-- the end of a closed event
abbrev pub finished : Incident → ℕ
finished inc = elim inc.end_date [ none ↦ 0 | some t ↦ t ]

unfoldable pub sort_events : List Incident → List Incident
unfolding sort_desc
sort_events incs =
    sort_desc started (keep is_open incs)
    ++ sort_desc finished (keep (λ (inc : Incident). not (is_open inc)) incs)

unfoldable pub prepare_feed_title : String → String → String
prepare_feed_title region component =
    if region == ""
    then general_title
    else if not (component == "")
    then component <> " (" <> region <> ") - " <> general_title
    else region <> " - " <> general_title

-- What the handler refuses: 404 for wrong parameters, for an unknown region and component, 400 and 500.
pub data FeedRefusal : Type 0 where
  wrong_params invalid_region unknown_component malformed_name internal_error : FeedRefusal

abbrev pub refused_feed : FeedParams → DbError → FeedRefusal
refused_feed p component_not_exist =
    if not (p.component_name == "") then unknown_component else internal_error
refused_feed p e = internal_error

-- HandleRSS up to the items: the title and the events in their order
unfoldable pub handle_rss :
    (String → Bool) → Time → FeedParams → Db → Result FeedRefusal (String × List Incident)
unfolding validate_region feed_events prepare_feed_title sort_events
handle_rss well_formed now p db =
    if not (p.component_name == "") && p.region == ""
    then err wrong_params
    else if not (p.region == "") && not (validate_region p.region)
    then err invalid_region
    else if not (well_formed p.component_name)
    then err malformed_name
    else (elim (feed_events now p db) [
      | err e ↦ err (refused_feed p e)
      | ok incs ↦ ok (prepare_feed_title p.region p.component_name, sort_events incs)
    ])
