-- ===== src/Api/Query.antt =====
-- internal/api/v2/validation.go and v2.go: the query of the list of events. The query as `binding`
-- delivers it is a parameter; strconv.Atoi is one too (`none` is its error).
pub mod Bounds
use status_dashboard_backend.Common.{
  ℕ, zero, suc, eqb, ◌%◌, Bool, true, false, ◌&&◌, ◌||◌, not, if◌then◌else◌, ltb, leb, ◌==◌, nat_eq,
  text_eq, Option, none, some, List, [], ◌∷◌, length, Result, ok, err, ◌>>=◌, ◌>>◌, fail_if, Text,
  split, ◌+◌, ◌-◌, ◌*◌, ◌/◌, ℤ, pos, negsuc, ◌≡◌, arith, ◌≤◌, ◌<◌, All, Bool-cases, inl, inr,
  >>=-eq-ok, Option-cases, Result-cases, subst, sym,
}
use native.Mathlib.Nat.{div-add-mod, mod-lt, mul_comm, mul-suc, suc-mul}
use status_dashboard_backend.Event.{
  EventType, information, incident, maintenance, event_type_eq, Status, is_information_status,
  is_maintenance_status, is_incident_open_status, is_incident_closed_status,
}
use status_dashboard_backend.Model.{Time}
use status_dashboard_backend.Store.Events.{IncidentsParams}
use status_dashboard_backend.Api.Response.{ApiError, query_invalid_format}

-- A type in the query that is none of the three is `none`.
pub record IncidentsQuery : Type 0 where
  pub types : Option (List (Option EventType))
  pub is_active : Option Bool
  pub status : Option Status
  pub start_date : Option Time
  pub end_date : Option Time
  pub impact : Option ℤ
  pub system : Option Bool
  pub components : Option Text
  pub page : Option ℕ
  pub limit : Option ℕ

unfoldable pub is_valid_incident_filter_status : Status → Bool
is_valid_incident_filter_status s =
    if is_maintenance_status s
    then true
    else if is_information_status s
    then true
    else if is_incident_open_status s
    then true
    else is_incident_closed_status s

unfoldable pub checked_status : Option Status → Result ApiError (Option Status)
unfolding is_valid_incident_filter_status
checked_status none = ok none
checked_status (some s) =
    if is_valid_incident_filter_status s then ok (some s) else err query_invalid_format

-- allowedLimits
abbrev pub is_allowed_limit : ℕ → Bool
is_allowed_limit n = n == 10 || n == 20 || n == 50

unfoldable pub checked_limit : Option ℕ → Result ApiError (Option ℕ)
checked_limit none = ok none
checked_limit (some n) = if is_allowed_limit n then ok (some n) else err query_invalid_format

abbrev pub max_component_id : ℕ
max_component_id = 2048

-- `err != nil || uid <= 0 || uid > maxComponentID`, negated
abbrev pub component_id : Option ℤ → Option ℕ
component_id none = none
component_id (some (negsuc n)) = none
component_id (some (pos n)) = if ltb 0 n && leb n max_component_id then some n else none

-- the loop of parseAndSetComponents
unfoldable pub parse_components : (Text → Option ℤ) → List Text → Result ApiError (List ℕ)
parse_components atoi [] = ok []
parse_components atoi (s ∷ ss) = elim (component_id (atoi s)) [
  | none ↦ err query_invalid_format
  | some n ↦ parse_components atoi ss >>= λ ns. ok (n ∷ ns)
]

unfoldable pub checked_components : (Text → Option ℤ) → Option Text → Result ApiError (List ℕ)
unfolding parse_components
checked_components atoi none = ok []
checked_components atoi (some s) = parse_components atoi (split b',' s)

-- the loop of parseAndSetTypes
unfoldable pub parse_types : List (Option EventType) → Result ApiError (List EventType)
parse_types [] = ok []
parse_types (none ∷ ts) = err query_invalid_format
parse_types (some t ∷ ts) = parse_types ts >>= λ rest. ok (t ∷ rest)

unfoldable pub checked_types :
    Option (List (Option EventType)) → Result ApiError (Option (List EventType))
unfolding parse_types
checked_types none = ok none
checked_types (some ts) = parse_types ts >>= λ r. ok (some r)

-- `StartDate != nil && EndDate != nil && EndDate.Before(*StartDate)`
abbrev pub ends_before : Option Time → Option Time → Bool
ends_before (some s) (some e) = ltb e s
ends_before _ _ = false

-- bindIncidentsQuery after the binding, and parseFilterParams
unfoldable pub parse_filter_params :
    (Text → Option ℤ) → IncidentsQuery → Result ApiError IncidentsParams
unfolding checked_status checked_components checked_types
parse_filter_params atoi q =
    fail_if (ends_before q.start_date q.end_date) query_invalid_format >>= λ _.
    fail_if (elim q.is_active [ none ↦ false | some b ↦ not b ]) query_invalid_format >>= λ _.
    checked_status q.status >>= λ status. checked_components atoi q.components >>= λ component_ids.
    checked_types q.types >>= λ types. ok (record {
      types = types;
      status = status;
      start_date = q.start_date;
      end_date = q.end_date;
      impact = q.impact;
      is_system = q.system;
      component_ids = component_ids;
      last_count = 0;
      is_active = q.is_active;
      limit = none;
      page = none;
    })

abbrev pub default_incident_limit : ℕ
default_incident_limit = 50

-- the page: 1 where none is asked for
abbrev pub page_or_default : Option ℕ → ℕ
page_or_default none = 1
page_or_default (some p) = if ltb 0 p then p else 1

abbrev pub limit_or_default : Option ℕ → ℕ
limit_or_default none = default_incident_limit
limit_or_default (some n) = n

unfoldable pub parse_pagination_params :
    IncidentsQuery → IncidentsParams → Result ApiError IncidentsParams
unfolding checked_limit
parse_pagination_params q p =
    fail_if (ends_before q.start_date q.end_date) query_invalid_format >>= λ _.
    checked_limit q.limit >>= λ limit.
    ok (record p { page = some (page_or_default q.page); limit = some (limit_or_default limit) })

-- totalPages of GetEventsHandler
unfoldable pub total_pages : ℕ → ℕ → ℕ
total_pages limit total =
    if limit == 0 then 1 else if ltb 0 total then (total + limit - 1) / limit else 1
