-- ===== src/Checker/Info/Backfill.antt =====
-- The missed updates that the checker appends to an information event (fixInfoMissedStatuses).
use status_dashboard_backend.Common.{
  ◌≡◌, ◌≢◌, refl, true, ◌||◌, Option, none, some, List, [], ◌∷◌, ◌++◌, arith, append-nil,
  append_assoc, Bool-cases, inl, inr, ap, Option-cases, ◌⊎◌,
}
use status_dashboard_backend.Event.{
  Status, planned, active, completed, cancelled, status_eq, info_planned_text, info_active_text,
  info_completed_text,
}
use status_dashboard_backend.Model.{Time, Incident, IncidentStatus}
use status_dashboard_backend.Store.Write.{value_or}
use status_dashboard_backend.Checker.Update.{new_update}
use status_dashboard_backend.Checker.Maintenance.Backfill.{recorded, unless, missing}
use status_dashboard_backend.Checker.Info.{
  InfoStatusHistory, InfoState, no_info_history, note_info, info_history_from,
  calculate_info_status_history, current_info_status, fix_info_missed_statuses, fix_info_planned,
  fix_info_active, fix_info_completed,
}

info_history_from-eq :
    (h : InfoStatusHistory) (sts : List IncidentStatus)
    → info_history_from h sts ≡ record {
      has_planned = h.has_planned || recorded planned sts;
      has_active = h.has_active || recorded active sts;
      has_completed = h.has_completed || recorded completed sts;
      has_cancelled = h.has_cancelled || recorded cancelled sts;
    }
unfolding info_history_from
info_history_from-eq h [] = ground arith
info_history_from-eq h (st ∷ sts) = ground (arith, info_history_from-eq (note_info h st.status) sts)

fix_info_planned-eq :
    (h : InfoStatusHistory) (info : Incident)
    → fix_info_planned (h, info) ≡ (
      record h { has_planned = true },
      record info {
        statuses =
            info.statuses
            ++ unless h.has_planned (new_update info.id planned info_planned_text info.start_date);
      },
    )
unfolding fix_info_planned
fix_info_planned-eq h info = elim (Bool-cases h.has_planned) [
  | inl e ↦ ground (arith, append-nil info.statuses)
  | inr e ↦ ground arith
]

fix_info_active-eq :
    (h : InfoStatusHistory) (info : Incident)
    → fix_info_active (h, info) ≡ (
      record h { has_planned = true; has_active = true },
      record info {
        statuses =
            info.statuses
            ++ (unless h.has_planned (new_update info.id planned info_planned_text info.start_date)
                ++ unless h.has_active
                    (new_update info.id active info_active_text info.start_date));
      },
    )
unfolding fix_info_active
fix_info_active-eq h info =
    let p = new_update info.id planned info_planned_text info.start_date in
    let i = new_update info.id active info_active_text info.start_date in
    ground (arith, append-nil info.statuses, append_assoc info.statuses (p ∷ []) (i ∷ []))

fix_info_completed-eq :
    (h : InfoStatusHistory) (info : Incident) (end_date : Time)
    → info.end_date ≡ some end_date
    → fix_info_completed (h, info)
      ≡ some (
        record h { has_planned = true; has_active = true; has_completed = true },
        record info {
          statuses =
              info.statuses
              ++ (unless h.has_planned
                    (new_update info.id planned info_planned_text info.start_date)
                  ++ unless h.has_active
                      (new_update info.id active info_active_text info.start_date)
                  ++ unless h.has_completed (
                      new_update info.id completed info_completed_text (value_or info.end_date 0)));
        },
      )
unfolding fix_info_completed
fix_info_completed-eq h info end_date e =
    let p = new_update info.id planned info_planned_text info.start_date in
    let i = new_update info.id active info_active_text info.start_date in
    let c = new_update info.id completed info_completed_text end_date in
    ground (
      arith,
      append-nil info.statuses,
      append_assoc info.statuses (p ∷ []) (i ∷ []),
      append_assoc info.statuses (p ∷ []) (c ∷ []),
      append_assoc info.statuses (i ∷ []) (c ∷ []),
      append_assoc (info.statuses ++ p ∷ []) (i ∷ []) (c ∷ []),
      append_assoc info.statuses (p ∷ []) (i ∷ c ∷ []),
    )

-- The updates that an information event in this status misses; a cancelled one always gets "planned".
abbrev pub info_backfill : Status → Incident → List IncidentStatus
info_backfill planned info = missing planned info_planned_text info.start_date info
info_backfill active info =
    missing planned info_planned_text info.start_date info
    ++ missing active info_active_text info.start_date info
info_backfill completed info =
    missing planned info_planned_text info.start_date info
    ++ missing active info_active_text info.start_date info
    ++ missing completed info_completed_text (value_or info.end_date 0) info
info_backfill cancelled info = missing planned info_planned_text info.start_date info
info_backfill _ info = []

abbrev pub info_backfilled : Status → Incident → Incident
info_backfilled s info = record info { statuses = info.statuses ++ info_backfill s info }

abbrev pub info_of : Option InfoState → Option Incident
info_of none = none
info_of (some (_, info)) = some info

fix_info_completed-missing :
    (info : Incident) (end_date : Time)
    → info.end_date ≡ some end_date
    → info_of (fix_info_completed (calculate_info_status_history info, info))
      ≡ some (info_backfilled completed info)
unfolding calculate_info_status_history
fix_info_completed-missing info t n =
    rw (info_history_from-eq no_info_history info.statuses)
      (ap info_of (fix_info_completed-eq _ info t n))

fix_info-eq :
    (s : Status) (info : Incident)
    → (s ≡ completed → info.end_date ≢ none)
    → info_of (fix_info_missed_statuses s (calculate_info_status_history info, info))
      ≡ some (info_backfilled s info)
unfolding fix_info_missed_statuses calculate_info_status_history
fix_info-eq planned info e =
    rw (info_history_from-eq no_info_history info.statuses)
      (ap info_of (ap some (fix_info_planned-eq _ info)))
fix_info-eq active info e =
    rw (info_history_from-eq no_info_history info.statuses)
      (ap info_of (ap some (fix_info_active-eq _ info)))
fix_info-eq completed info e = elim (Option-cases info.end_date) [
  | inl n ↦ absurd (e refl n)
  | inr (t, n) ↦ fix_info_completed-missing info t n
]
fix_info-eq cancelled info e =
    rw (info_history_from-eq no_info_history info.statuses)
      (ap info_of (ap some (fix_info_planned-eq _ info)))
fix_info-eq _ info e = ground (arith, append-nil info.statuses)

info_completed :
    (now : Time) (info : Incident)
    → (info.end_date ≢ none) ⊎ (now ≢ info.start_date)
    → current_info_status now info ≡ completed
    → info.end_date ≢ none
unfolding current_info_status
info_completed now info (inl h) c n = h n
info_completed now info (inr h) c n = ground (arith, h)

-- For an information event, unless it has no end and starts at this very instant, the repair for the status by the
-- clock never dereferences a nil end date, and appends exactly the missed updates of the statuses on its way.
pub fix_info_missed_statuses_lem :
    (now : Time) (info : Incident)
    → (info.end_date ≢ none) ⊎ (now ≢ info.start_date)
    → info_of (
        fix_info_missed_statuses
          (current_info_status now info)
          (calculate_info_status_history info, info))
      ≡ some (info_backfilled (current_info_status now info) info)
fix_info_missed_statuses_lem now info h =
    fix_info-eq (current_info_status now info) info (info_completed now info h)
