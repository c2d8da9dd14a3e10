-- ===== src/Store/Events.antt =====
-- internal/db/db.go: the filters of the list of events, and which events the public may see. A
-- predicate of the query is a test on a row, and a condition on the nullable `status` may be NULL; NULL in
-- `end_date` fails every comparison. Rows
-- that start at the same time are listed in the order of their ids, which the query leaves open.
pub mod Paging
use status_dashboard_backend.Common.{
  ℕ, suc, zero, ◌-◌, ◌*◌, ℤ, Bool, true, false, ◌&&◌, ◌||◌, not, if◌then◌else◌, leb, ltb, ◌==◌,
  nat_eq, int_eq, Option, none, some, List, [], ◌∷◌, map, keep, any, take, length, Result, ok, err,
}
use status_dashboard_backend.Event.{
  EventType, maintenance, event_type_eq, Status, status_eq, resolved, completed, cancelled,
  pending_review, reviewed, planned, in_progress, modified,
}
use status_dashboard_backend.Model.{Time, IncidentStatus, Incident}
use status_dashboard_backend.Store.Tables.{IncidentRow, Db, DbError, filter_active_false}
use status_dashboard_backend.Store.Read.{with_statuses}
use status_dashboard_backend.Store.Sql.{holds, sql_not, sql_and, status_in}

pub record IncidentsParams : Type 0 where
  pub types : Option (List EventType)
  pub status : Option Status
  pub start_date : Option Time
  pub end_date : Option Time
  pub impact : Option ℤ
  pub is_system : Option Bool
  pub component_ids : List ℕ
  pub last_count : ℕ
  pub is_active : Option Bool
  pub limit : Option ℕ
  pub page : Option ℕ

-- a filter that is not given passes every row
abbrev pub given {ℓ} : {A : Type ℓ} → Option A → (A → Bool) → Bool
given none p = true
given (some a) p = p a

abbrev pub is_public_update : IncidentStatus → Bool
is_public_update s =
    s.status == planned || s.status == in_progress || s.status == modified || s.status == completed

unfoldable pub no_public_status : Db → IncidentRow → Bool
no_public_status db row =
    not (any (λ (s : IncidentStatus). s.incident_id == row.id && is_public_update s) db.statuses)

unfoldable pub public_event_predicates : Db → IncidentRow → Bool
unfolding no_public_status
public_event_predicates db row =
    holds (
      sql_not (
        sql_and (some (row.type == maintenance))
          (status_in (λ s. s == pending_review || s == reviewed) row)))
    && holds (
        sql_not (
          sql_and (some (row.type == maintenance))
            (sql_and (status_in (λ s. s == cancelled) row) (some (no_public_status db row)))))

abbrev pub bool_eq : Bool → Bool → Bool
bool_eq true b = b
bool_eq false b = not b

-- StatusNotIn; the information statuses are the same texts
abbrev pub is_finished : Status → Bool
is_finished s =
    s == resolved || s == completed || s == cancelled || s == pending_review || s == reviewed

unfoldable pub is_active_at : Time → IncidentRow → Bool
is_active_at now row = elim row.end_date [
  | none ↦ true
  | some end_date ↦
      leb row.start_date now && leb now end_date && holds (sql_not (status_in is_finished row))
]

-- `end_date <= t`
abbrev pub ends_by : Time → IncidentRow → Bool
ends_by t row = elim row.end_date [ none ↦ false | some end_date ↦ leb end_date t ]

-- the conjunction of the predicates
unfoldable pub matches : Time → IncidentsParams → Bool → Db → IncidentRow → Bool
unfolding is_active_at public_event_predicates
matches now p is_auth db row =
    given p.types (any (λ t. row.type == t))
    && given p.impact (λ i. row.impact == i)
    && given p.is_system (bool_eq row.system)
    && (length p.component_ids == 0
        || any (λ c. any (λ i. c == i) p.component_ids) row.component_ids)
    && given p.is_active (λ _. is_active_at now row)
    && given p.status (λ s. holds (status_in (λ t. t == s) row))
    && given p.start_date (λ t. leb t row.start_date)
    && given p.end_date (λ t. ends_by t row)
    && (is_auth || public_event_predicates db row)

unfoldable pub apply_events_filters :
    Time → IncidentsParams → Bool → Db → Result DbError (IncidentRow → Bool)
unfolding matches
apply_events_filters now p is_auth db = elim p.is_active [
  | none ↦ ok (matches now p is_auth db)
  | some is_active ↦ if is_active then ok (matches now p is_auth db) else err filter_active_false
]

-- ORDER BY start_date DESC
unfoldable pub insert_by_start : IncidentRow → List IncidentRow → List IncidentRow
insert_by_start row [] = row ∷ []
insert_by_start row (r ∷ rs) =
    let rest = insert_by_start row rs in
    if ltb row.start_date r.start_date then r ∷ rest else row ∷ r ∷ rs

unfoldable pub by_start_desc : List IncidentRow → List IncidentRow
unfolding insert_by_start
by_start_desc [] = []
by_start_desc (r ∷ rs) = insert_by_start r (by_start_desc rs)

-- OFFSET
abbrev pub drop {ℓ} : {A : Type ℓ} → ℕ → List A → List A
drop zero xs = xs
drop (suc n) [] = []
drop (suc n) (x ∷ xs) = drop n xs

-- Offset((page - 1) * limit)
unfoldable pub offset : Option ℕ → ℕ → List IncidentRow → List IncidentRow
offset none limit rows = rows
offset (some page) limit rows = if ltb 1 page then drop ((page - 1) * limit) rows else rows

-- the case LastCount
unfoldable pub last_rows : ℕ → List IncidentRow → List IncidentRow
last_rows n rows = if ltb 0 n then take n rows else rows

unfoldable pub limited : Option ℕ → Option ℕ → ℕ → List IncidentRow → List IncidentRow
unfolding offset last_rows
limited none page last_count rows = last_rows last_count rows
limited (some limit) page last_count rows =
    if ltb 0 limit then take limit (offset page limit rows) else last_rows last_count rows

-- LIMIT and OFFSET of the query
unfoldable pub page_of : IncidentsParams → List IncidentRow → List IncidentRow
unfolding limited
page_of p rows = limited p.limit p.page p.last_count rows

unfoldable pub get_events_with_count :
    Time → IncidentsParams → Bool → Db → Result DbError (List Incident × ℕ)
unfolding apply_events_filters by_start_desc page_of
get_events_with_count now p is_auth db = elim (apply_events_filters now p is_auth db) [
  | err e ↦ err e
  | ok pred ↦
      let found = keep pred db.incidents in
      ok (map (with_statuses db) (page_of p (by_start_desc found)), length found)
]
