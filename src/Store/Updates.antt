-- ===== src/Store/Updates.antt =====
-- The loop that stores new updates (internal/db/write.go): it appends, and never stores twice.
use status_dashboard_backend.Common.{
  ℕ, ◌≡◌, ◌<◌, refl, ◌==◌, nat_eq, List, [], ◌∷◌, arith, Bool-cases, inl, inr, All, ◌≢◌,
}
use status_dashboard_backend.Model.{Time, IncidentStatus}
use status_dashboard_backend.Store.Tables.{Db}
use status_dashboard_backend.Store.Write.{insert_incident_status, insert_new_incident_statuses}

pub incidents-insert_new_incident_statuses :
    (now : Time) (i : ℕ) (ss : List IncidentStatus) (db : Db)
    → (insert_new_incident_statuses now i ss db).1.incidents ≡ db.incidents
unfolding insert_new_incident_statuses
incidents-insert_new_incident_statuses now i [] db = refl
incidents-insert_new_incident_statuses now i (s ∷ ss) db = elim (Bool-cases (s.id == 0)) [
  | inl e ↦
      rw e (incidents-insert_new_incident_statuses now i ss (insert_incident_status now s i db).2)
  | inr e ↦ rw e (incidents-insert_new_incident_statuses now i ss db)
]

-- Every update has the id of a stored row.
abbrev pub AllStored : List IncidentStatus → Type 0
AllStored ss = All (λ s. s.id ≢ 0) ss

insert_stores_all :
    (now : Time) (i : ℕ) (ss : List IncidentStatus) (db : Db)
    → 0 < db.next_status
    → AllStored (insert_new_incident_statuses now i ss db).0
unfolding insert_new_incident_statuses
insert_stores_all now i [] db h = tt
insert_stores_all now i (s ∷ ss) db h = elim (Bool-cases (s.id == 0)) [
  | inl e ↦
      rw e (
        omega arith,
        insert_stores_all now i ss (insert_incident_status now s i db).2 (omega arith),
      )
  | inr e ↦ rw e (ground arith, insert_stores_all now i ss db h)
]

insert_of_AllStored :
    (now : Time) (i : ℕ) (ss : List IncidentStatus) (db : Db)
    → AllStored ss
    → insert_new_incident_statuses now i ss db ≡ (ss, db)
unfolding insert_new_incident_statuses
insert_of_AllStored now i [] db h = refl
insert_of_AllStored now i (s ∷ ss) db h = ground (arith, insert_of_AllStored now i ss db h.1)

-- A second save of the same incident, at any later time and on any later tables, stores no update
-- again.
insert_new_incident_statuses_idem :
    (now later : Time) (i : ℕ) (ss : List IncidentStatus) (db db'' : Db)
    → 0 < db.next_status
    → let ss' = (insert_new_incident_statuses now i ss db).0 in
      insert_new_incident_statuses later i ss' db'' ≡ (ss', db'')
insert_new_incident_statuses_idem now later i ss db db'' h =
    insert_of_AllStored later i (insert_new_incident_statuses now i ss db).0 db''
      (insert_stores_all now i ss db h)
