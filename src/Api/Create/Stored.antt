-- ===== src/Api/Create/Stored.antt =====
-- What the creation of an event leaves in the tables (createEvent).
use status_dashboard_backend.Common.{
  ℕ, suc, ◌≡◌, refl, subst, pos, String, true, ◌==◌, nat_eq, Option, none, some, List, [], ◌∷◌,
  ◌++◌, find, Result, ok, arith, >>=-eq-ok,
}
use status_dashboard_backend.Event.{Status, event_type_eq, unset}
use status_dashboard_backend.Model.{Time, Incident}
use status_dashboard_backend.Store.Tables.{IncidentRow, Db, DbError}
use status_dashboard_backend.Store.Read.{find_row}
use status_dashboard_backend.Store.Write.{
  save_incident, new_row, modify_incident, selects, apply_incident_patch,
}
use status_dashboard_backend.Store.Versions.{find_row-modify_incident}
use status_dashboard_backend.Store.Updates.{incidents-insert_new_incident_statuses}
use status_dashboard_backend.Notification.Publish.{Publisher, publish_tx}
use status_dashboard_backend.Api.Patch.Handler.{publish_maintenance_change}
use status_dashboard_backend.Api.Create.{with_initial_status, initial_status, create_tx}

find-append :
    (i : ℕ) (rows : List IncidentRow) (row : IncidentRow)
    → find (λ r. r.id == i) rows ≡ none
    → row.id ≡ i
    → find (λ r. r.id == i) (rows ++ row ∷ []) ≡ some row
find-append i [] row h e = ground arith
find-append i (r ∷ rows) row h e = ground (arith, find-append i rows row)

save_incident-found :
    (now : Time) (inc : Incident) (db : Db) {saved : Incident} {db' : Db}
    → find_row db db.next_incident ≡ none
    → save_incident now inc db ≡ ok (saved, db')
    → (saved.id ≡ db.next_incident)
      × (find_row db' db.next_incident ≡ some (new_row now db.next_incident inc))
      × (saved.version ≡ some (new_row now db.next_incident inc).version)
      × (saved.type ≡ inc.type)
      × (saved.status ≡ inc.status)
unfolding save_incident find_row new_row
save_incident-found now inc db f h =
    let row = new_row now db.next_incident inc in
    ground (
      arith,
      find-append db.next_incident db.incidents row f refl,
      incidents-insert_new_incident_statuses now db.next_incident inc.statuses (record db {
        incidents = db.incidents ++ row ∷ [];
        next_incident = suc db.next_incident;
      }),
    )

incidents-publish :
    (publisher : Option Publisher) (now : Time) (change_id : ℕ) (inc : Incident) (old : Status)
    (user_id : Option String) (db : Db) {u : Unit {0}} {db' : Db}
    → publish_maintenance_change publisher now change_id inc old user_id db ≡ ok (u, db')
    → db'.incidents ≡ db.incidents
unfolding publish_maintenance_change publish_tx
incidents-publish publisher now change_id inc old user_id db h = ground arith

selects_new :
    (now : Time) (user_id : Option String) (n : ℕ) (inc saved : Incident)
    → saved.id ≡ n
    → inc.version ≡ none
    → selects (with_initial_status now user_id saved) (pos 1) (new_row now n inc) ≡ true
unfolding selects with_initial_status new_row
selects_new now user_id n inc saved e v = ground arith

-- the row of the new event, after the two writes
unfoldable settled : Time → Option String → ℕ → Incident → Incident → IncidentRow
unfolding apply_incident_patch with_initial_status new_row
settled now user_id n inc saved =
    record (apply_incident_patch (with_initial_status now user_id saved) (new_row now n inc)) {
      version = pos 2;
      modified_at = some now;
    }

settled-status :
    (now : Time) (user_id : Option String) (n : ℕ) (inc saved : Incident)
    → saved.type ≡ inc.type
    → saved.status ≡ inc.status
    → ((settled now user_id n inc saved).status ≡ some (initial_status inc).0)
      × ((settled now user_id n inc saved).type ≡ inc.type)
unfolding settled with_initial_status initial_status
settled-status now user_id n inc saved t s = ground arith

row_settled :
    (publisher : Option Publisher) (now : Time) (change_id : ℕ) (inc saved written : Incident)
    (user_id : Option String) (n : ℕ) (db1 db2 db3 : Db) {u : Unit {0}}
    → inc.version ≡ none
    → saved.id ≡ n
    → find_row db1 n ≡ some (new_row now n inc)
    → saved.version ≡ some (new_row now n inc).version
    → modify_incident now (with_initial_status now user_id saved) db1 ≡ ok (written, db2)
    → publish_maintenance_change publisher now change_id written unset user_id db2 ≡ ok (u, db3)
    → find_row db3 n ≡ some (settled now user_id n inc saved)
unfolding settled with_initial_status find_row new_row
row_settled publisher now change_id inc saved written user_id n db1 db2 db3 v e f w m p =
    let q = incidents-publish publisher now change_id written unset user_id db2 p in
    let r =
      find_row-modify_incident now (pos 1) (with_initial_status now user_id saved) db1
        {row = new_row now n inc} {inc' = written} {db' = db2} in
    ground (arith, q, r, selects_new now user_id n inc saved e v, m)

same_tables :
    {inc inc' : Incident} {db db' : Db}
    → ◌≡◌ {A = Result DbError (Incident × Db)} (ok (inc, db)) (ok (inc', db'))
    → db ≡ db'
same_tables h = cc

-- A successful creation under an unused id stores the event under that id in the status that its type (and, for a
-- maintenance, the requested status) starts with, and at version 2, since the first update is a second write.
pub create_tx_lem :
    (publisher : Option Publisher) (now : Time) (change_id : ℕ) (inc : Incident)
    (user_id : Option String) (db : Db) {stored : Incident} {db' : Db}
    → find_row db db.next_incident ≡ none
    → inc.version ≡ none
    → create_tx publisher now change_id inc user_id db ≡ ok (stored, db')
    → (row : IncidentRow) × (find_row db' db.next_incident ≡ some row)
      × (row.status ≡ some (initial_status inc).0)
      × (row.version ≡ pos 2)
      × (row.type ≡ inc.type)
unfolding create_tx settled
create_tx_lem publisher now change_id inc user_id db f v h =
    let ((saved, db1), s, k) = >>=-eq-ok (save_incident now inc db) _ h in
    let ((written, db2), m, k2) =
      >>=-eq-ok (modify_incident now (with_initial_status now user_id saved) db1) _ k in
    let ((u, db3), p, k3) =
      >>=-eq-ok (publish_maintenance_change publisher now change_id written unset user_id db2) _
        k2 in
    let (e, r, w, t, st) = save_incident-found now inc db f s in
    let x = settled-status now user_id db.next_incident inc saved t st in
    (
      settled now user_id db.next_incident inc saved,
      subst
          (λ z. find_row z db.next_incident ≡ some (settled now user_id db.next_incident inc saved))
          (same_tables k3)
          (row_settled publisher now change_id inc saved written user_id db.next_incident db1 db2
            db3 v e r w m p),
      x.0,
      refl,
      x.1,
    )
