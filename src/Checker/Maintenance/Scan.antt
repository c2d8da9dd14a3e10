-- ===== src/Checker/Maintenance/Scan.antt =====
-- One maintenance of the scan (processMaintenance): what a failure leaves behind.
use status_dashboard_backend.Common.{
  ℕ, ◌≡◌, ◌⊎◌, refl, ◌==◌, Option, none, Result, ok, err, if_elim, Option-cases, inl, inr,
}
use status_dashboard_backend.Event.{Status, status_eq}
use status_dashboard_backend.Model.{Time, Incident}
use status_dashboard_backend.Store.Tables.{Db, DbError, driver}
use status_dashboard_backend.Store.Read.{get_incident}
use status_dashboard_backend.Store.Tx.{Driver, with_tx, finish}
use status_dashboard_backend.Notification.Publish.{Publisher}
use status_dashboard_backend.Checker.Maintenance.{evaluate_and_fix_mnt_status, needs_refetch}
use status_dashboard_backend.Checker.Maintenance.Process.{
  Fault, lift, transition, write_transition, process_fresh, process_maintenance,
}

-- no fault, or the tables as they were
abbrev IsAtomic : Db → Option Fault × Db → Type 0
IsAtomic db r = (r.0 ≡ none) ⊎ (r.1 ≡ db)

finish-IsAtomic :
    (d : Driver) (db : Db) (r : Result DbError (Unit {0} × Db)) → IsAtomic db (lift (finish d db r))
unfolding finish
finish-IsAtomic d db (err e) = inr refl
finish-IsAtomic d db (ok (u, db')) =
    if_elim (λ r. IsAtomic db (lift r)) d.commit_fails (err driver, db) (ok u, db') (λ _. inr refl)
      (λ _. inl refl)

with_tx-IsAtomic :
    (d : Driver) (f : Db → Result DbError (Unit {0} × Db)) (db : Db)
    → IsAtomic db (lift (with_tx d f db))
unfolding with_tx
with_tx-IsAtomic d f db =
    if_elim (λ r. IsAtomic db (lift r)) d.begin_fails (err driver, db) (finish d db (f db))
      (λ _. inr refl) (λ _. finish-IsAtomic d db (f db))

write_transition-IsAtomic :
    (d : Driver) (publisher : Option Publisher) (now : Time) (change_id : ℕ) (fresh : Incident)
    (r : Status × Incident) (db : Db)
    → IsAtomic db (write_transition d publisher now change_id fresh r db)
unfolding write_transition
write_transition-IsAtomic d publisher now change_id fresh (actual, fixed) db =
    let write =
      transition publisher now change_id fresh.status (record fixed { status = actual }) in
    if_elim (IsAtomic db) (fresh.status == actual) (none, db) (lift (with_tx d write db))
      (λ _. inl refl) (λ _. with_tx-IsAtomic d write db)

process_fresh-IsAtomic :
    (d : Driver) (publisher : Option Publisher) (now : Time) (change_id : ℕ) (fresh : Incident)
    (db : Db)
    → IsAtomic db (process_fresh d publisher now change_id fresh db)
unfolding process_fresh
process_fresh-IsAtomic d publisher now change_id fresh db =
    elim (Option-cases (evaluate_and_fix_mnt_status now fresh)) [
      | inl n ↦ rw (n, process_fresh) (inr refl)
      | inr (r, n) ↦
          rw (n, process_fresh) (write_transition-IsAtomic d publisher now change_id fresh r db)
    ]

-- One maintenance of the scan, whatever the driver answers: either no fault is reported, or the tables (the
-- incidents, the updates and the notification outbox) are exactly what they were before.
pub process_maintenance_atomic :
    (d : Driver) (publisher : Option Publisher) (now : Time) (change_id : ℕ) (mn : Incident)
    (db : Db)
    → ((process_maintenance d publisher now change_id mn db).0 ≡ none)
      ⊎ ((process_maintenance d publisher now change_id mn db).1 ≡ db)
unfolding process_maintenance
process_maintenance_atomic d publisher now change_id mn db =
    if_elim (IsAtomic db) (needs_refetch now mn) _ (none, db)
      (λ _. elim (Option-cases (get_incident db mn.id)) [
        | inl n ↦ rw (n, process_fresh) (inr refl)
        | inr (fresh, n) ↦ rw n (process_fresh-IsAtomic d publisher now change_id fresh db)
      ])
      (λ _. inl refl)
