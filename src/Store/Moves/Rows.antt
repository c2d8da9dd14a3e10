-- ===== src/Store/Moves/Rows.antt =====
-- What a write by id does to the rows that are found by id (internal/db/write.go, internal/db/db.go).
use status_dashboard_backend.Common.{
  ℕ, ◌≡◌, ◌≢◌, refl, ◌∙◌, ap, arith, false, ◌==◌, nat_eq, string_eq, eqb_iff, some, List, [], ◌∷◌,
  find, Bool-cases, inl, inr, Result, ok,
}
use status_dashboard_backend.Model.{Time, Incident}
use status_dashboard_backend.Store.Tables.{IncidentRow, Db, DbError, update_where, affected}
use status_dashboard_backend.Store.Read.{find_row}
use status_dashboard_backend.Store.Tx.{Driver, with_tx}
use status_dashboard_backend.Store.Updates.{incidents-insert_new_incident_statuses}
use status_dashboard_backend.Store.Moves.{
  row_has_id, full_row, stamped, save_incident_full, remove_incident_component, without_component,
}

-- A transaction that returns a value is one whose body returned it.
pub with_tx-ok :
    {A : Type 0} (d : Driver) (body : Db → Result DbError (A × Db)) (db : Db) {a : A} {db' : Db}
    → with_tx d body db ≡ (ok a, db')
    → body db ≡ ok (a, db')
unfolding with_tx
with_tx-ok d body db h = ground arith

module _ (f : IncidentRow → IncidentRow) (same_id : (r : IncidentRow) → (f r).id ≡ r.id) where
  pub find-update_ne :
      (i j : ℕ) (rows : List IncidentRow)
      → j ≢ i
      → find (row_has_id j) (update_where (row_has_id i) f rows) ≡ find (row_has_id j) rows
  find-update_ne i j [] n = refl
  find-update_ne i j (r ∷ rows) n = elim (Bool-cases (r.id == i)) [
    | inl e ↦
        rw e (ground (arith, same_id r, eqb_iff r.id i, eqb_iff r.id j, find-update_ne i j rows n))
    | inr e ↦ rw e (ground (arith, find-update_ne i j rows n))
  ]

  pub find-update_self :
      (i : ℕ) (rows : List IncidentRow) {row : IncidentRow}
      → find (row_has_id i) rows ≡ some row
      → find (row_has_id i) (update_where (row_has_id i) f rows) ≡ some (f row)
  find-update_self i [] h = cc
  find-update_self i (r ∷ rows) {row} h = elim (Bool-cases (r.id == i)) [
    | inl e ↦ rw e (ground (arith, same_id r, eqb_iff r.id i, e))
    | inr e ↦ rw e (ground (arith, find-update_self i rows {row = row}))
  ]

pub find-affected :
    (i : ℕ) (rows : List IncidentRow)
    → (affected (row_has_id i) rows == 0) ≡ false
    → (row : IncidentRow) × (find (row_has_id i) rows ≡ some row)
find-affected i [] h = cc
find-affected i (r ∷ rows) h = elim (Bool-cases (r.id == i)) [
  | inl e ↦ (r, rw e)
  | inr e ↦ let (row, f) = find-affected i rows (ground arith) in (row, rw e f)
]

save_full_incidents :
    (now : Time) (inc : Incident) (db : Db) {inc' : Incident} {db' : Db}
    → save_incident_full now inc db ≡ ok (inc', db')
    → ((affected (row_has_id inc.id) db.incidents == 0) ≡ false)
      × (db'.incidents ≡ update_where (row_has_id inc.id) (full_row (stamped now inc)) db.incidents)
unfolding save_incident_full
save_full_incidents now inc db h = ground (
  arith,
  incidents-insert_new_incident_statuses now inc.id inc.statuses (record db {
    incidents = update_where (row_has_id inc.id) (full_row (stamped now inc)) db.incidents;
  }),
)

full_row-id : (inc : Incident) (r : IncidentRow) → (full_row inc r).id ≡ r.id
unfolding full_row
full_row-id inc r = refl

-- A full write replaces the row of its incident, which must be there, and no other.
pub find_row-save_full :
    (now : Time) (inc : Incident) (db : Db) {inc' : Incident} {db' : Db}
    → save_incident_full now inc db ≡ ok (inc', db')
    → (row : IncidentRow) × (find_row db inc.id ≡ some row)
      × (find_row db' inc.id ≡ some (full_row (stamped now inc) row))
unfolding find_row
find_row-save_full now inc db {inc'} {db'} h =
    let (n, e) = save_full_incidents now inc db h in
    let (row, f) = find-affected inc.id db.incidents n in
    (
      row,
      f,
      ap (find (row_has_id inc.id)) e
          ∙ find-update_self (full_row (stamped now inc)) (full_row-id (stamped now inc)) inc.id
              db.incidents f,
    )

pub find_row-save_full_ne :
    (now : Time) (inc : Incident) (db : Db) (j : ℕ) {inc' : Incident} {db' : Db}
    → save_incident_full now inc db ≡ ok (inc', db')
    → j ≢ inc.id
    → find_row db' j ≡ find_row db j
unfolding find_row
find_row-save_full_ne now inc db j h n =
    ap (find (row_has_id j)) (save_full_incidents now inc db h).1
    ∙ find-update_ne (full_row (stamped now inc)) (full_row-id (stamped now inc)) inc.id j
        db.incidents n

remove_incidents :
    (i c : ℕ) (db : Db) {db' : Db}
    → remove_incident_component i c db ≡ ok db'
    → db'.incidents ≡ update_where (row_has_id i) (without_component c) db.incidents
unfolding remove_incident_component
remove_incidents i c db h = ground arith

pub find_row-remove_ne :
    (i c : ℕ) (db : Db) (j : ℕ) {db' : Db}
    → remove_incident_component i c db ≡ ok db'
    → j ≢ i
    → find_row db' j ≡ find_row db j
unfolding find_row without_component
find_row-remove_ne i c db j h n =
    ap (find (row_has_id j)) (remove_incidents i c db h)
    ∙ find-update_ne (without_component c) (λ r. refl) i j db.incidents n
