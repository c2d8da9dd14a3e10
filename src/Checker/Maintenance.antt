-- ===== src/Checker/Maintenance.antt =====
-- internal/checker/maintenance.go. `now` is the clock while one maintenance is processed. A nil
-- `EndDate` that is dereferenced is the fault `nil_dereference`.
pub mod Process
pub mod Clock
pub mod Backfill
pub mod Scan
use status_dashboard_backend.Common.{
  ℕ, Bool, true, false, ◌||◌, ◌&&◌, not, if◌then◌else◌, ltb, ◌==◌, Option, none, some, List, [],
  ◌∷◌, Result, ok, err, ◌>>=◌,
}
use status_dashboard_backend.Event.{
  Status, reviewed, planned, in_progress, completed, cancelled, pending_review, status_eq,
  maintenance_planned_text, maintenance_in_progress_text, maintenance_completed_text,
}
use status_dashboard_backend.Model.{Time, Email, IncidentStatus, Incident}
use status_dashboard_backend.Store.Tables.{Db, DbError, incident_not_found}
use status_dashboard_backend.Store.Read.{get_incident, get_maintenances}
use status_dashboard_backend.Store.Write.{modify_incident}
use status_dashboard_backend.Store.Tx.{Driver, with_tx}
use status_dashboard_backend.Notification.Publish.{Change, Publisher, publish_tx}
use status_dashboard_backend.Checker.Update.{append_update}

pub record MntStatusHistory : Type 0 where
  pub has_reviewed : Bool
  pub has_planned : Bool
  pub has_in_progress : Bool
  pub has_completed : Bool
  pub has_cancelled : Bool

abbrev pub no_history : MntStatusHistory
no_history = record {
  has_reviewed = false;
  has_planned = false;
  has_in_progress = false;
  has_completed = false;
  has_cancelled = false;
}

unfoldable pub has_status : MntStatusHistory → Status → Bool
has_status h reviewed = h.has_reviewed
has_status h planned = h.has_planned
has_status h in_progress = h.has_in_progress
has_status h completed = h.has_completed
has_status h cancelled = h.has_cancelled
has_status h _ = false

unfoldable pub set_status : MntStatusHistory → Status → MntStatusHistory
set_status h reviewed = record h { has_reviewed = true }
set_status h planned = record h { has_planned = true }
set_status h in_progress = record h { has_in_progress = true }
set_status h completed = record h { has_completed = true }
set_status h cancelled = record h { has_cancelled = true }
set_status h _ = h

-- one round of the loop of calculateMntStatusHistory
unfoldable pub note : MntStatusHistory → Status → MntStatusHistory
note h s = record {
  has_reviewed = if s == reviewed then true else h.has_reviewed;
  has_planned = if s == planned then true else h.has_planned;
  has_in_progress = if s == in_progress then true else h.has_in_progress;
  has_completed = if s == completed then true else h.has_completed;
  has_cancelled = if s == cancelled then true else h.has_cancelled;
}

unfoldable pub history_from : MntStatusHistory → List IncidentStatus → MntStatusHistory
unfolding note
history_from h [] = h
history_from h (st ∷ sts) = history_from (note h st.status) sts

unfoldable pub calculate_mnt_status_history : Incident → MntStatusHistory
unfolding history_from
calculate_mnt_status_history mn = history_from no_history mn.statuses

-- mn.EndDate == nil || mn.EndDate.After(now)
abbrev pub still_open : Time → Option Time → Bool
still_open now none = true
still_open now (some end_date) = ltb now end_date

unfoldable pub calculate_current_mnt_status : Time → MntStatusHistory → Incident → Status
calculate_current_mnt_status now h mn =
    if h.has_cancelled
    then cancelled
    else if mn.status == reviewed
    then planned
    else if ltb now mn.start_date
    then planned
    else if ltb mn.start_date now && still_open now mn.end_date
    then in_progress
    else completed

abbrev pub State : Type 0
State = MntStatusHistory × Incident

-- the end of fixMntMissedStatuses
unfoldable pub add_missed : Status → Incident → State → State
unfolding set_status
add_missed status mnt (h, _) = (set_status h status, mnt)

unfoldable pub fix_planned : State → State
unfolding append_update add_missed has_status
fix_planned (h, mnt) =
    if has_status h planned
    then (h, mnt)
    else add_missed planned (append_update planned maintenance_planned_text mnt.start_date mnt)
        (h, mnt)

unfoldable pub fix_in_progress : State → State
unfolding fix_planned
fix_in_progress s =
    let (h, mnt) = fix_planned s in
    if has_status h in_progress
    then (h, mnt)
    else add_missed in_progress
        (append_update in_progress maintenance_in_progress_text mnt.start_date mnt) (h, mnt)

-- `none` is the nil dereference of EndDate
unfoldable pub fix_completed : State → Option State
unfolding fix_in_progress
fix_completed s =
    let (h, mnt) = fix_in_progress s in
    if has_status h completed then some (h, mnt) else (elim mnt.end_date [
      | none ↦ none
      | some end_date ↦ some (
          add_missed completed (append_update completed maintenance_completed_text end_date mnt)
            (h, mnt))
    ])

unfoldable pub fix_cancelled : State → State
unfolding fix_planned
fix_cancelled (h, mnt) =
    if has_status h reviewed || has_status h planned then fix_planned (h, mnt) else (h, mnt)

unfoldable pub fix_mnt_missed_statuses : Status → State → Option State
unfolding fix_completed fix_cancelled
fix_mnt_missed_statuses planned s = some (fix_planned s)
fix_mnt_missed_statuses in_progress s = some (fix_in_progress s)
fix_mnt_missed_statuses completed s = fix_completed s
fix_mnt_missed_statuses cancelled s = some (fix_cancelled s)
fix_mnt_missed_statuses _ s = some s

unfoldable pub current_status : Time → Incident → Status
unfolding calculate_current_mnt_status calculate_mnt_status_history
current_status now mn = calculate_current_mnt_status now (calculate_mnt_status_history mn) mn

unfoldable pub needs_refetch : Time → Incident → Bool
unfolding current_status
needs_refetch now mn = not (mn.status == current_status now mn)

-- the status, and the maintenance with its missed updates
unfoldable pub evaluate_and_fix_mnt_status : Time → Incident → Option (Status × Incident)
unfolding current_status fix_mnt_missed_statuses
evaluate_and_fix_mnt_status now mn =
    let actual = current_status now mn in
    elim (fix_mnt_missed_statuses actual (calculate_mnt_status_history mn, mn)) [
      | none ↦ none
      | some (_, mnt) ↦ some (actual, mnt)
    ]
