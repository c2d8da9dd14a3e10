-- ===== src/Api/Patch/Lifecycle.antt =====
-- How a PATCH opens, closes and dates an incident in the tables: updateFields under checkPatchDataForIncident, the
-- write of persistIncidentPatch, and reopenIncident.
use status_dashboard_backend.Common.{
  ℕ, ◌≡◌, ◌↔◌, ◌≢◌, ◌⊎◌, refl, sym, subst, pos, int_eq, eqb_ℤ_iff, eqb_iff, true, ◌&&◌, not,
  if◌then◌else◌, ◌==◌, nat_eq, Option, none, some, String, Result, ok, err, >>=-eq-ok, arith, inl,
  inr, Result-cases, Bool-cases, Option-cases,
}
use status_dashboard_backend.Event.{
  incident, maintenance, event_type_eq, Status, status_eq, resolved, reopened, changed,
}
use status_dashboard_backend.Model.{Time, Incident}
use status_dashboard_backend.Store.Tables.{IncidentRow, Db, DbError}
use status_dashboard_backend.Store.Read.{find_row}
use status_dashboard_backend.Store.Write.{set_some, modify_incident, selects, apply_incident_patch}
use status_dashboard_backend.Store.Versions.{find_row-modify_incident}
use status_dashboard_backend.Store.Moves.{row_has_id}
use status_dashboard_backend.Store.Moves.Rows.{with_tx-ok, find-update_self}
use status_dashboard_backend.Store.Moves.Moved.{find-true}
use status_dashboard_backend.Store.Tx.{Driver, with_tx}
use status_dashboard_backend.Notification.Publish.{Publisher}
use status_dashboard_backend.Api.Response.{Caller}
use status_dashboard_backend.Api.View.{ApiEvent}
use status_dashboard_backend.Api.Patch.{
  PatchIncidentData, check_patch_data, update_fields, prepare_incident_patch, is_some,
}
use status_dashboard_backend.Api.Patch.Handler.{
  patch_tx, persist_incident_patch, answer_tx, patched, patch_incident_handler, after_patch,
  answer_patch, publish_maintenance_change, reopen_incident, re_open_incident,
}
use status_dashboard_backend.Api.Patch.Persist.{type-modify_incident}
use status_dashboard_backend.Api.Patch.Checks.{impact_fits, check_patch_data_iff}

-- The dates of an accepted patch, as the handler holds them.
dates_held :
    (p : PatchIncidentData) (stored : Incident)
    → stored.type ≡ incident
    → impact_fits stored.type stored.impact ≡ true
    → check_patch_data p stored ≡ ok tt
    → (p.status ≡ resolved → (update_fields p stored).end_date ≡ some p.update_date)
      × ((update_fields p stored).start_date ≢ stored.start_date
          → (p.status ≡ changed) × (stored.end_date ≢ none))
      × (((update_fields p stored).end_date ≡ none)
          ↔ ((p.status ≡ reopened) ⊎ ((stored.end_date ≡ none) × (p.status ≢ resolved))))
unfolding update_fields
dates_held p stored t i h = ground (
  arith,
  check_patch_data_iff p stored,
  eqb_ℤ_iff stored.impact (pos 0),
  status_eq.beq_iff p.status resolved,
  status_eq.beq_iff p.status reopened,
  status_eq.beq_iff p.status changed,
)

-- The dates of a row.
abbrev Dated : Db → ℕ → Time → Option Time → Type 0
Dated db i start end =
    (row : IncidentRow) × (find_row db i ≡ some row)
    × (row.start_date ≡ start)
    × (row.end_date ≡ end)

Dated-modify_incident :
    (now : Time) (inc : Incident) (db : Db) (row : IncidentRow) {inc' : Incident} {db' : Db}
    → inc.type ≡ incident
    → find_row db inc.id ≡ some row
    → modify_incident now inc db ≡ ok (inc', db')
    → Dated db' inc.id inc.start_date (set_some inc.end_date row.end_date)
unfolding modify_incident find_row selects apply_incident_patch
Dated-modify_incident now inc db row {inc'} {db'} t f h = elim (Option-cases inc.version) [
  | inl n ↦ cc (rw n at h)
  | inr (v, n) ↦ (
    _,
    find_row-modify_incident now v inc db {row = row} {inc' = inc'} {db' = db'} n f
        (ground (arith, find-true (row_has_id inc.id) db.incidents f)) h,
    refl,
    refl,
  )
]

Dated-patch_tx :
    (publisher : Option Publisher) (now : Time) (change_id : ℕ) (inc : Incident) (old : Status)
    (user_id : Option String) (db : Db) (row : IncidentRow) {u : Unit {0}} {db' : Db}
    → inc.type ≡ incident
    → find_row db inc.id ≡ some row
    → patch_tx publisher now change_id inc old user_id db ≡ ok (u, db')
    → Dated db' inc.id inc.start_date (set_some inc.end_date row.end_date)
unfolding patch_tx publish_maintenance_change
Dated-patch_tx publisher now change_id inc old user_id db row {db' = db'} t f q =
    let ((inc', db1), m, k) = >>=-eq-ok (modify_incident now inc db) _ q in
    let r = Dated-modify_incident now inc db row {inc' = inc'} {db' = db1} t f m in
    let same : db1 ≡ db' =
      ground
        (arith, event_type_eq.beq_iff inc'.type maintenance, type-modify_incident now inc db m) in
    subst (λ x. Dated x inc.id inc.start_date (set_some inc.end_date row.end_date)) same r

Dated-reopen_incident :
    (stored : Incident) (status : Status) (db : Db) {start : Time} {end : Option Time}
    → Dated db stored.id start end
    → Dated
        (reopen_incident stored status db)
        stored.id
        start
        (if status == reopened then none else end)
unfolding reopen_incident re_open_incident find_row
Dated-reopen_incident stored status db (row, f, s, e) = elim (Bool-cases (status == reopened)) [
  | inl r ↦ rw r (
    record row { end_date = none },
    find-update_self (λ (x : IncidentRow). record x { end_date = none }) (λ x. refl) stored.id
        db.incidents f,
    s,
    refl,
  )
  | inr r ↦ rw r (row, f, s, e)
]

after_tx :
    (stored : Incident) (status : Status) (r : Result DbError (Unit {0}) × Db) {answer : ApiEvent}
    {db' : Db}
    → answer_patch stored status (answer_tx r) ≡ (ok answer, db')
    → (r.0 ≡ ok tt) × (db' ≡ reopen_incident stored status r.1)
unfolding answer_patch answer_tx after_patch
after_tx stored status (ok u, db) h = ground arith
after_tx stored status (err e, db) h = cc

checks_passed :
    (c : Caller) (stored : Incident) (p : PatchIncidentData) {u : Unit {0}}
    → prepare_incident_patch c stored p ≡ ok u
    → check_patch_data p stored ≡ ok tt
unfolding prepare_incident_patch
checks_passed c stored p h = elim (Result-cases (check_patch_data p stored)) [
  | inl (u, e) ↦ e
  | inr (x, e) ↦ ground arith
]

-- An answered patch passed the checks, and its transaction was committed before the reopening.
answered_patch :
    (d : Driver) (publisher : Option Publisher) (now : Time) (change_id : ℕ) (c : Caller)
    (stored : Incident) (p : PatchIncidentData) (db : Db) {answer : ApiEvent} {db' : Db}
    → patch_incident_handler d publisher now change_id c stored p db ≡ (ok answer, db')
    → (check_patch_data p stored ≡ ok tt)
      × (db1 : Db) × (patch_tx publisher now change_id
            (patched c p stored)
            stored.status
            c.user_id
            db
          ≡ ok (tt, db1))
      × (db' ≡ reopen_incident stored p.status db1)
unfolding patch_incident_handler persist_incident_patch
answered_patch d publisher now change_id c stored p db {answer} {db'} h =
    elim (Bool-cases (stored.type == maintenance && not (is_some p.version))) [
      | inl b ↦ cc (rw (patch_incident_handler, b) at h)
      | inr b ↦ elim (Result-cases (prepare_incident_patch c stored p)) [
        | inr (e, q) ↦ cc (rw (patch_incident_handler, b, q) at h)
        | inl (u, q) ↦
            let body =
              patch_tx publisher now change_id (patched c p stored) stored.status c.user_id in
            let (r, s) =
              after_tx stored p.status (with_tx d body db) {answer = answer} {db' = db'}
                (rw (patch_incident_handler, b, q) at h) in
            (
              checks_passed c stored p q,
              (with_tx d body db).1,
              with_tx-ok d body db (ground arith),
              s,
            )
      ]
    ]

opened :
    (p : PatchIncidentData) (stored : Incident) (row : IncidentRow)
    → row.end_date ≡ stored.end_date
    → ((update_fields p stored).end_date ≡ none)
      ↔ ((p.status ≡ reopened) ⊎ ((stored.end_date ≡ none) × (p.status ≢ resolved)))
    → ((if p.status == reopened
          then none
          else set_some (update_fields p stored).end_date row.end_date)
        ≡ none)
      ↔ ((p.status ≡ reopened) ⊎ ((stored.end_date ≡ none) × (p.status ≢ resolved)))
opened p stored row e h = ground (arith, status_eq.beq_iff p.status reopened)

-- What an answered patch of an incident leaves in the tables, where nobody moved the incident's end since it was
-- read: the incident is open exactly when it was reopened, or was open and was not resolved; "resolved" ends it at the
-- patch's update date; and its start moved only by a "changed" patch on a closed incident.
pub incident_open_iff :
    (d : Driver) (publisher : Option Publisher) (now : Time) (change_id : ℕ) (c : Caller)
    (stored : Incident) (p : PatchIncidentData) (db : Db) (row : IncidentRow) {answer : ApiEvent}
    {db' : Db}
    → stored.type ≡ incident
    → impact_fits stored.type stored.impact ≡ true
    → find_row db stored.id ≡ some row
    → row.end_date ≡ stored.end_date
    → patch_incident_handler d publisher now change_id c stored p db ≡ (ok answer, db')
    → (after : IncidentRow) × (find_row db' stored.id ≡ some after)
      × ((after.end_date ≡ none)
          ↔ ((p.status ≡ reopened) ⊎ ((stored.end_date ≡ none) × (p.status ≢ resolved))))
      × ((p.status ≢ resolved) ⊎ (after.end_date ≡ some p.update_date))
      × ((after.start_date ≡ stored.start_date) ⊎ ((p.status ≡ changed) × (stored.end_date ≢ none)))
unfolding patched
incident_open_iff d publisher now change_id c stored p db row {answer} {db'} t i f e h =
    let (passed, db1, q, s) = answered_patch d publisher now change_id c stored p db h in
    let (ends, starts, opens) = dates_held p stored t i passed in
    let written =
      Dated-patch_tx publisher now change_id (patched c p stored) stored.status c.user_id db row t f
        q in
    let (after, g, a, b) = Dated-reopen_incident stored p.status db1 written in
    (
      after,
      rw s g,
      subst
          (λ z.
            (z ≡ none)
            ↔ ((p.status ≡ reopened) ⊎ ((stored.end_date ≡ none) × (p.status ≢ resolved))))
          (sym b) (opened p stored row e opens),
      ground (
        arith,
        b,
        ends,
        status_eq.beq_iff p.status resolved,
        status_eq.beq_iff p.status reopened,
      ),
      ground (arith, a, starts, eqb_iff after.start_date stored.start_date),
    )
