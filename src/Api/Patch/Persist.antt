-- ===== src/Api/Patch/Persist.antt =====
-- The transaction of a patch (persistIncidentPatch) and what a refusal leaves behind.
use status_dashboard_backend.Common.{
  ℕ, String, ◌≡◌, ◌≢◌, ◌⊎◌, refl, ap, ◌&&◌, not, if_elim, if◌then◌else◌, ◌==◌, nat_eq, Option, List,
  [], ◌∷◌, Result, ok, err, arith, Result-cases, >>=-eq-ok, ◌∙◌, Option-cases, suc_ℤ, Bool-cases,
  inl, inr,
}
use status_dashboard_backend.Event.{maintenance, event_type_eq, Status, status_eq}
use status_dashboard_backend.Model.{Time, Incident, IncidentStatus}
use status_dashboard_backend.Store.Tables.{Db, DbError, update_where}
use status_dashboard_backend.Store.Write.{
  insert_incident_status, insert_new_incident_statuses, modify_incident, selects, stamp,
}
use status_dashboard_backend.Store.Tx.{Driver, with_tx, finish}
use status_dashboard_backend.Notification.Publish.{Publisher}
use status_dashboard_backend.Api.Response.{Refusal, internal, Caller}
use status_dashboard_backend.Api.View.{ApiEvent}
use status_dashboard_backend.Api.Patch.{PatchIncidentData, prepare_incident_patch, is_some}
use status_dashboard_backend.Api.Patch.Handler.{
  patch_tx, persist_incident_patch, answer_tx, patched, patch_incident_handler, after_patch,
  answer_patch, publish_maintenance_change,
}

-- Whatever the driver answers, a transaction that fails leaves the tables as they were.
pub with_tx_atomic :
    {A : Type 0} (d : Driver) (body : Db → Result DbError (A × Db)) (db : Db) {e : DbError}
    → (with_tx d body db).0 ≡ err e
    → (with_tx d body db).1 ≡ db
unfolding with_tx finish
with_tx_atomic d body db h = ground arith

-- Whatever the driver answers, a patch whose transaction fails leaves the incident, its updates and the outbox as
-- they were.
persist_atomic :
    (d : Driver) (publisher : Option Publisher) (now : Time) (change_id : ℕ) (inc : Incident)
    (old : Status) (user_id : Option String) (db : Db) (e : Refusal)
    → (persist_incident_patch d publisher now change_id inc old user_id db).0 ≡ err e
    → (persist_incident_patch d publisher now change_id inc old user_id db).1 ≡ db
unfolding persist_incident_patch
persist_atomic d publisher now change_id inc old user_id db e h =
    ground (arith, with_tx_atomic d (patch_tx publisher now change_id inc old user_id) db)

after_patch_refusal :
    (stored : Incident) (status : Status) (db : Db) {e : Refusal}
    → (after_patch stored status db).0 ≡ err e
    → e ≡ internal
unfolding after_patch
after_patch_refusal stored status db h = ground arith

-- the tables are as they were, unless the answer is an event or an internal error
abbrev IsClean : Db → Result Refusal ApiEvent × Db → Type 0
IsClean db r = (e : Refusal) → r.0 ≡ err e → e ≢ internal → r.1 ≡ db

answer_patch-IsClean :
    (stored : Incident) (status : Status) (db : Db) (r : Result Refusal (Unit {0}) × Db)
    → ((e : Refusal) → r.0 ≡ err e → r.1 ≡ db)
    → IsClean db (answer_patch stored status r)
unfolding answer_patch
answer_patch-IsClean stored status db (err e, db') k f h n = k e refl
answer_patch-IsClean stored status db (ok _, db') k f h n =
    absurd (n (after_patch_refusal stored status db' h))

-- A patch that is refused for any reason but an internal error (a failed check, a missing right, a version
-- conflict) leaves the tables exactly as they were.
pub patch_refused_unchanged :
    (d : Driver) (publisher : Option Publisher) (now : Time) (change_id : ℕ) (c : Caller)
    (stored : Incident) (p : PatchIncidentData) (db : Db) (e : Refusal)
    → (patch_incident_handler d publisher now change_id c stored p db).0 ≡ err e
    → e ≢ internal
    → (patch_incident_handler d publisher now change_id c stored p db).1 ≡ db
unfolding patch_incident_handler
patch_refused_unchanged d publisher now change_id c stored p db =
    let sent =
      persist_incident_patch d publisher now change_id (patched c p stored) stored.status c.user_id
        db in
    if_elim (IsClean db) (stored.type == maintenance && not (is_some p.version)) _ _
      (λ _ e h n. refl)
      (λ _. elim (Result-cases (prepare_incident_patch c stored p)) [
        | inl (u, q) ↦
            rw (patch_incident_handler, q)
              (answer_patch-IsClean stored p.status db sent (
                persist_atomic d publisher now change_id (patched c p stored) stored.status
                  c.user_id db))
        | inr (e, q) ↦ rw (patch_incident_handler, q) (λ e h n. refl)
      ])

-- Modifying an incident leaves the outbox alone.
outbox-insert :
    (now : Time) (i : ℕ) (ss : List IncidentStatus) (db : Db)
    → (insert_new_incident_statuses now i ss db).1.outbox ≡ db.outbox
unfolding insert_new_incident_statuses
outbox-insert now i [] db = refl
outbox-insert now i (s ∷ ss) db = elim (Bool-cases (s.id == 0)) [
  | inl e ↦ rw e (outbox-insert now i ss (insert_incident_status now s i db).2)
  | inr e ↦ rw e (outbox-insert now i ss db)
]

pub outbox-modify_incident :
    (now : Time) (inc : Incident) (db : Db) {inc' : Incident} {db' : Db}
    → modify_incident now inc db ≡ ok (inc', db')
    → db'.outbox ≡ db.outbox
unfolding modify_incident
outbox-modify_incident now inc db h = elim (Option-cases inc.version) [
  | inl n ↦ ground arith
  | inr (v, n) ↦ ground (
    arith,
    outbox-insert now inc.id inc.statuses (record db {
      incidents = update_where (selects inc v) (stamp now (suc_ℤ v) inc) db.incidents;
    }),
  )
]

pub type-modify_incident :
    (now : Time) (inc : Incident) (db : Db) {inc' : Incident} {db' : Db}
    → modify_incident now inc db ≡ ok (inc', db')
    → inc'.type ≡ inc.type
unfolding modify_incident
type-modify_incident now inc db h = ground arith

quiet_after :
    (publisher : Option Publisher) (now : Time) (change_id : ℕ) (inc inc' : Incident) (old : Status)
    (user_id : Option String) (db : Db) {u : Unit {0}} {db' : Db}
    → (inc.status ≡ old) ⊎ (inc.type ≢ maintenance)
    → inc'.type ≡ inc.type
    → (if inc.status == old
        then ok (tt, db)
        else publish_maintenance_change publisher now change_id inc' old user_id db)
      ≡ ok (u, db')
    → db'.outbox ≡ db.outbox
unfolding publish_maintenance_change
quiet_after publisher now change_id inc inc' old user_id db h t q =
    ground (arith, status_eq.beq_iff inc.status old, event_type_eq.beq_iff inc'.type maintenance)

quiet_tx :
    (publisher : Option Publisher) (now : Time) (change_id : ℕ) (inc : Incident) (old : Status)
    (user_id : Option String) (db : Db) {u : Unit {0}} {db' : Db}
    → (inc.status ≡ old) ⊎ (inc.type ≢ maintenance)
    → patch_tx publisher now change_id inc old user_id db ≡ ok (u, db')
    → db'.outbox ≡ db.outbox
unfolding patch_tx
quiet_tx publisher now change_id inc old user_id db h q =
    let ((inc', db1), m, k) = >>=-eq-ok (modify_incident now inc db) _ q in
    quiet_after publisher now change_id inc inc' old user_id db1 h
      (type-modify_incident now inc db m) k
    ∙ outbox-modify_incident now inc db m

with_tx_kept :
    {A : Type 0} (P : Db → Type 0) (d : Driver) (body : Db → Result DbError (A × Db)) (db : Db)
    → P db
    → ((a : A) (db' : Db) → body db ≡ ok (a, db') → P db')
    → P (with_tx d body db).1
unfolding with_tx finish
with_tx_kept {A = A} P d body db p k = elim (Result-cases (body db)) [
  | inl ((a, db'), q) ↦
      if_elim (λ (r : Result DbError A × Db). P r.1) d.begin_fails _ _ (λ _. p)
        (λ _. rw q (
          if_elim (λ (r : Result DbError A × Db). P r.1) d.commit_fails _ _ (λ _. p)
            (λ _. k a db' q)))
  | inr (e, q) ↦
      if_elim (λ (r : Result DbError A × Db). P r.1) d.begin_fails _ _ (λ _. p) (λ _. rw q p)
]

tables-answer_tx : (r : Result DbError (Unit {0}) × Db) → (answer_tx r).1 ≡ r.1
unfolding answer_tx
tables-answer_tx (ok _, db) = refl
tables-answer_tx (err e, db) = refl

-- A patch that leaves the status as it was, or that patches another event than a maintenance, writes no notification.
pub no_transition_no_notification :
    (d : Driver) (publisher : Option Publisher) (now : Time) (change_id : ℕ) (inc : Incident)
    (old : Status) (user_id : Option String) (db : Db)
    → (inc.status ≡ old) ⊎ (inc.type ≢ maintenance)
    → (persist_incident_patch d publisher now change_id inc old user_id db).1.outbox ≡ db.outbox
unfolding persist_incident_patch
no_transition_no_notification d publisher now change_id inc old user_id db h =
    ap (λ (db' : Db). db'.outbox)
      (tables-answer_tx (with_tx d (patch_tx publisher now change_id inc old user_id) db))
    ∙ with_tx_kept (λ db'. db'.outbox ≡ db.outbox) d
        (patch_tx publisher now change_id inc old user_id) db refl
        (λ u db' q. quiet_tx publisher now change_id inc old user_id db h q)
