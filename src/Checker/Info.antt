-- ===== src/Checker/Info.antt =====
-- internal/checker/info.go. `now` is the clock while one event is processed. A nil `EndDate` that is
-- dereferenced is the fault `nil_dereference`.
pub mod Backfill
use status_dashboard_backend.Common.{
  ℕ, Bool, true, false, ◌&&◌, if◌then◌else◌, ltb, ◌==◌, Option, none, some, List, [], ◌∷◌, Result,
  ok, err,
}
use status_dashboard_backend.Event.{
  Status, planned, active, completed, cancelled, status_eq, info_planned_text, info_active_text,
  info_completed_text,
}
use status_dashboard_backend.Model.{Time, IncidentStatus, Incident}
use status_dashboard_backend.Store.Tables.{Db, DbError}
use status_dashboard_backend.Store.Read.{get_info_events}
use status_dashboard_backend.Store.Tx.{Driver, with_tx}
use status_dashboard_backend.Store.Write.{modify_incident}
use status_dashboard_backend.Checker.Update.{append_update}
use status_dashboard_backend.Checker.Maintenance.{still_open}
use status_dashboard_backend.Checker.Maintenance.Process.{Fault, nil_dereference, lift}

pub record InfoStatusHistory : Type 0 where
  pub has_planned : Bool
  pub has_active : Bool
  pub has_completed : Bool
  pub has_cancelled : Bool

abbrev pub no_info_history : InfoStatusHistory
no_info_history = record {
  has_planned = false;
  has_active = false;
  has_completed = false;
  has_cancelled = false;
}

unfoldable pub has_info_status : InfoStatusHistory → Status → Bool
has_info_status h planned = h.has_planned
has_info_status h active = h.has_active
has_info_status h completed = h.has_completed
has_info_status h cancelled = h.has_cancelled
has_info_status h _ = false

unfoldable pub set_info_status : InfoStatusHistory → Status → InfoStatusHistory
set_info_status h planned = record h { has_planned = true }
set_info_status h active = record h { has_active = true }
set_info_status h completed = record h { has_completed = true }
set_info_status h cancelled = record h { has_cancelled = true }
set_info_status h _ = h

-- one round of the loop of calculateInfoStatusHistory
unfoldable pub note_info : InfoStatusHistory → Status → InfoStatusHistory
note_info h s = record {
  has_planned = if s == planned then true else h.has_planned;
  has_active = if s == active then true else h.has_active;
  has_completed = if s == completed then true else h.has_completed;
  has_cancelled = if s == cancelled then true else h.has_cancelled;
}

unfoldable pub info_history_from : InfoStatusHistory → List IncidentStatus → InfoStatusHistory
unfolding note_info
info_history_from h [] = h
info_history_from h (st ∷ sts) = info_history_from (note_info h st.status) sts

unfoldable pub calculate_info_status_history : Incident → InfoStatusHistory
unfolding info_history_from
calculate_info_status_history info = info_history_from no_info_history info.statuses

unfoldable pub calculate_current_info_status : Time → InfoStatusHistory → Incident → Status
calculate_current_info_status now h info =
    if h.has_cancelled
    then cancelled
    else if ltb now info.start_date
    then planned
    else if ltb info.start_date now && still_open now info.end_date
    then active
    else completed

abbrev pub InfoState : Type 0
InfoState = InfoStatusHistory × Incident

-- the end of fixInfoMissedStatuses
unfoldable pub add_info_missed : Status → Incident → InfoState → InfoState
unfolding set_info_status
add_info_missed status info (h, _) = (set_info_status h status, info)

unfoldable pub fix_info_planned : InfoState → InfoState
unfolding append_update add_info_missed has_info_status
fix_info_planned (h, info) =
    if has_info_status h planned
    then (h, info)
    else add_info_missed planned (append_update planned info_planned_text info.start_date info)
        (h, info)

unfoldable pub fix_info_active : InfoState → InfoState
unfolding fix_info_planned
fix_info_active s =
    let (h, info) = fix_info_planned s in
    if has_info_status h active
    then (h, info)
    else add_info_missed active (append_update active info_active_text info.start_date info)
        (h, info)

-- `none` is the nil dereference of EndDate
unfoldable pub fix_info_completed : InfoState → Option InfoState
unfolding fix_info_active
fix_info_completed s =
    let (h, info) = fix_info_active s in
    if has_info_status h completed then some (h, info) else (elim info.end_date [
      | none ↦ none
      | some end_date ↦ some (
          add_info_missed completed (append_update completed info_completed_text end_date info)
            (h, info))
    ])

unfoldable pub fix_info_missed_statuses : Status → InfoState → Option InfoState
unfolding fix_info_completed
fix_info_missed_statuses planned s = some (fix_info_planned s)
fix_info_missed_statuses active s = some (fix_info_active s)
fix_info_missed_statuses completed s = fix_info_completed s
fix_info_missed_statuses cancelled s = some (fix_info_planned s)
fix_info_missed_statuses _ s = some s

unfoldable pub current_info_status : Time → Incident → Status
unfolding calculate_current_info_status calculate_info_status_history
current_info_status now info =
    calculate_current_info_status now (calculate_info_status_history info) info

-- ModifyIncident: the write in a transaction of its own, without its result
unfoldable pub modify : Driver → Time → Incident → Db → Result DbError (Unit {0}) × Db
unfolding with_tx modify_incident
modify d now inc db =
    with_tx d
      (λ db'. elim (modify_incident now inc db') [ err e ↦ err e | ok (_, db'') ↦ ok (tt, db'') ])
      db

-- one round of the loop of CheckInfoEvents: the fault that ends it, and the tables
unfoldable pub process_info : Driver → Time → Incident → Db → Option Fault × Db
unfolding current_info_status fix_info_missed_statuses modify
process_info d now info db =
    let actual = current_info_status now info in
    elim (fix_info_missed_statuses actual (calculate_info_status_history info, info)) [
      | none ↦ (some nil_dereference, db)
      | some (_, fixed) ↦
          if info.status == actual
          then (none, db)
          else lift (modify d now (record fixed { status = actual }) db)
    ]

-- The loop ends at the first error.
unfoldable pub check_infos : Driver → Time → List Incident → Db → Option Fault × Db
unfolding process_info
check_infos d now [] db = (none, db)
check_infos d now (info ∷ infos) db =
    let (fault, db') = process_info d now info db in
    let rest = check_infos d now infos db' in elim fault [ none ↦ rest | some f ↦ (some f, db') ]

unfoldable pub check_info_events : Driver → Time → Db → Option Fault × Db
unfolding check_infos get_info_events
check_info_events d now db = check_infos d now (get_info_events db) db
