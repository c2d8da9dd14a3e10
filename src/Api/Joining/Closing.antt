-- ===== src/Api/Joining/Closing.antt =====
-- Which incident's components decide whether the source of a move is closed
-- (moveComponentFromToSystemIncidents in internal/api/v2/v2.go).
use status_dashboard_backend.Common.{
  suc, ◌+◌, ◌≡◌, ◌≢◌, arith, ◌==◌, nat_eq, some, List, find, length, Result, ok, err,
}
use status_dashboard_backend.Model.{Time, Component, Incident}
use status_dashboard_backend.Store.Tables.{IncidentRow, Db, DbError}
use status_dashboard_backend.Store.Read.{find_row}
use status_dashboard_backend.Store.Tx.{Driver}
use status_dashboard_backend.Store.Moves.{move_component_from_old_to_another_incident}
use status_dashboard_backend.Store.Moves.Moved.{Left, move_component_lem}
use status_dashboard_backend.Api.Create.{IncidentData}
use status_dashboard_backend.Api.Joining.{has_impact, new_of, move_or_raise}

new_of-ok :
    (r : Result DbError (Incident × Incident) × Db) {new : Incident} {db' : Db}
    → new_of r ≡ (ok new, db')
    → (p : Incident × Incident) × (r ≡ (ok p, db'))
new_of-ok (ok p, db) h = (p, ground arith)
new_of-ok (err e, db) h = cc

-- Where a system incident with the requested impact is active, a move to it that succeeds closes the source exactly when
-- the target, not the source, has one component before: a source with other components is ended
-- with them, and a source that loses its only component may stay open.
pub source_row_by_target :
    (d : Driver) (now : Time) (comp : Component) (req : IncidentData) (old target : Incident)
    (incs : List Incident) (db : Db) {new : Incident} {db' : Db}
    → comp.id ≢ 0
    → old.id ≢ target.id
    → find (has_impact req.impact) incs ≡ some target
    → move_or_raise d now comp req old incs db ≡ (ok new, db')
    → (row : IncidentRow) × (find_row db' old.id ≡ some row)
      × Left now comp.id old (length target.components == 1) row
unfolding move_or_raise
source_row_by_target d now comp req old target incs db {new} {db'} n apart f h =
    let (p, m) =
      new_of-ok
        (move_component_from_old_to_another_incident d now comp old target
          (length target.components == 1) db)
        (rw (f, move_or_raise) at h) in
    (move_component_lem d now comp old target (length target.components == 1)
      (suc (old.id + target.id)) db n apart (λ e. omega arith) (λ e. omega arith) m).source
