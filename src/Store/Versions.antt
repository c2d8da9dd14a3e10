-- ===== src/Store/Versions.antt =====
-- Optimistic locking in `modify_incident` (internal/db/db.go): which writes conflict, and what a
-- write leaves alone.
use status_dashboard_backend.Common.{
  ℕ, ◌≡◌, ◌≢◌, ◌↔◌, refl, ℤ, suc_ℤ, suc_ℤ-ne, eqb_ℤ_iff, true, ◌==◌, Bool-cases, inl, inr, nat_eq,
  int_eq, some, List, [], ◌∷◌, find, ok, err, arith,
}
use status_dashboard_backend.Event.{maintenance, event_type_eq}
use status_dashboard_backend.Model.{Time, Incident}
use status_dashboard_backend.Store.Tables.{
  IncidentRow, Db, version_conflict, update_where, affected,
}
use status_dashboard_backend.Store.Read.{find_row}
use status_dashboard_backend.Store.Updates.{incidents-insert_new_incident_statuses}
use status_dashboard_backend.Store.Write.{selects, stamp, apply_incident_patch, modify_incident}

-- After a write at a version no row has the id and that version.
affected_after_stamp :
    (now : Time) (v : ℤ) (inc late : Incident) (rows : List IncidentRow)
    → inc.type ≡ maintenance
    → late.type ≡ maintenance
    → late.id ≡ inc.id
    → affected (selects late v) (update_where (selects inc v) (stamp now (suc_ℤ v) inc) rows) ≡ 0
unfolding selects stamp
affected_after_stamp now v inc late [] p q e = refl
affected_after_stamp now v inc late (r ∷ rows) p q e = ground (
  arith,
  affected_after_stamp now v inc late rows p q e,
  eqb_ℤ_iff r.version v,
  eqb_ℤ_iff (suc_ℤ v) v,
  suc_ℤ-ne v,
)

-- A failed write of a maintenance that carries a version can only be a conflict, and it happens
-- exactly when no row has the incident's id and the version that the caller read.
modify_incident_conflict :
    (now : Time) (v : ℤ) (inc : Incident) (db : Db)
    → inc.type ≡ maintenance
    → inc.version ≡ some v
    → (modify_incident now inc db ≡ err version_conflict)
      ↔ (affected (selects inc v) db.incidents ≡ 0)
unfolding modify_incident
modify_incident_conflict now v inc db p q = ground arith

-- What a successful write does to the table of incidents, and to the version in the caller's hands.
pub modify_incident_ok :
    (now : Time) (v : ℤ) (inc : Incident) (db : Db) {inc' : Incident} {db' : Db}
    → inc.version ≡ some v
    → modify_incident now inc db ≡ ok (inc', db')
    → (db'.incidents ≡ update_where (selects inc v) (stamp now (suc_ℤ v) inc) db.incidents)
      × (inc'.version ≡ some (suc_ℤ v))
unfolding modify_incident
modify_incident_ok now v inc db q h = ground (
  arith,
  incidents-insert_new_incident_statuses now inc.id inc.statuses (record db {
    incidents = update_where (selects inc v) (stamp now (suc_ℤ v) inc) db.incidents;
  }),
)

-- Two writers read the same version of a maintenance; whatever the first one wrote, the second
-- write is refused as a conflict.
pub no_lost_update :
    (now later : Time) (v : ℤ) (inc late : Incident) (db : Db) {inc' : Incident} {db' : Db}
    → inc.type ≡ maintenance
    → late.type ≡ maintenance
    → late.id ≡ inc.id
    → inc.version ≡ some v
    → late.version ≡ some v
    → modify_incident now inc db ≡ ok (inc', db')
    → modify_incident later late db' ≡ err version_conflict
no_lost_update now later v inc late db {inc'} {db'} p q e vi vl h =
    (modify_incident_conflict later v late db' q vl).1 (
      rw ((modify_incident_ok now v inc db vi h).0)
        (affected_after_stamp now v inc late db.incidents p q e))

find_update_ne :
    (now : Time) (v : ℤ) (inc : Incident) (j : ℕ) (rows : List IncidentRow)
    → j ≢ inc.id
    → find (λ r. r.id == j) (update_where (selects inc v) (stamp now (suc_ℤ v) inc) rows)
      ≡ find (λ r. r.id == j) rows
unfolding selects stamp
find_update_ne now v inc j [] n = refl
find_update_ne now v inc j (r ∷ rows) n = ground (arith, find_update_ne now v inc j rows n)

-- A successful write leaves every other event's row as it was.
find_row-modify_incident_ne :
    (now : Time) (v : ℤ) (inc : Incident) (db : Db) (j : ℕ) {inc' : Incident} {db' : Db}
    → inc.version ≡ some v
    → modify_incident now inc db ≡ ok (inc', db')
    → j ≢ inc.id
    → find_row db' j ≡ find_row db j
unfolding find_row
find_row-modify_incident_ne now v inc db j q h n =
    rw ((modify_incident_ok now v inc db q h).0) (find_update_ne now v inc j db.incidents n)

find_update_self :
    (now : Time) (v : ℤ) (inc : Incident) (rows : List IncidentRow) {row : IncidentRow}
    → find (λ r. r.id == inc.id) rows ≡ some row
    → selects inc v row ≡ true
    → find (λ r. r.id == inc.id) (update_where (selects inc v) (stamp now (suc_ℤ v) inc) rows)
      ≡ some (stamp now (suc_ℤ v) inc row)
unfolding selects stamp
find_update_self now v inc [] h s = cc
find_update_self now v inc (r ∷ rows) {row} h s = elim (Bool-cases (r.id == inc.id)) [
  | inl e ↦ ground arith
  | inr e ↦ ground (arith, find_update_self now v inc rows {row = row})
]

-- A successful write of an event whose row the clause selects stores the incident's fields, one
-- version later; a nil pointer, an unset status and a false `system` keep what was stored.
pub find_row-modify_incident :
    (now : Time) (v : ℤ) (inc : Incident) (db : Db) {row : IncidentRow} {inc' : Incident} {db' : Db}
    → inc.version ≡ some v
    → find_row db inc.id ≡ some row
    → selects inc v row ≡ true
    → modify_incident now inc db ≡ ok (inc', db')
    → find_row db' inc.id
      ≡ some (record (apply_incident_patch inc row) { version = suc_ℤ v; modified_at = some now })
unfolding find_row stamp
find_row-modify_incident now v inc db q f s h =
    rw ((modify_incident_ok now v inc db q h).0) (find_update_self now v inc db.incidents f s)
