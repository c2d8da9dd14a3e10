-- ===== src/Checker/Maintenance/Backfill.antt =====
-- The missed updates that the checker appends (fixMntMissedStatuses).
use status_dashboard_backend.Common.{
  ◌≡◌, ◌≢◌, refl, Bool, true, false, ◌==◌, ◌||◌, Option, none, some, List, [], ◌∷◌, ◌++◌, arith,
  String, append-nil, append_assoc, Bool-cases, inl, inr, ap, Option-cases, if◌then◌else◌, ◌⊎◌,
}
use status_dashboard_backend.Event.{
  Status, reviewed, planned, in_progress, completed, cancelled, status_eq, maintenance_planned_text,
  maintenance_in_progress_text, maintenance_completed_text,
}
use status_dashboard_backend.Model.{Time, Incident, IncidentStatus}
use status_dashboard_backend.Store.Write.{value_or}
use status_dashboard_backend.Checker.Update.{new_update}
use status_dashboard_backend.Checker.Maintenance.{
  MntStatusHistory, no_history, note, history_from, calculate_mnt_status_history,
  evaluate_and_fix_mnt_status, current_status, State, fix_mnt_missed_statuses, fix_planned,
  fix_in_progress, fix_completed, fix_cancelled,
}

-- an update with this status is in the history
abbrev pub recorded : Status → List IncidentStatus → Bool
recorded s [] = false
recorded s (st ∷ sts) = st.status == s || recorded s sts

history_from-eq :
    (h : MntStatusHistory) (sts : List IncidentStatus)
    → history_from h sts ≡ record {
      has_reviewed = h.has_reviewed || recorded reviewed sts;
      has_planned = h.has_planned || recorded planned sts;
      has_in_progress = h.has_in_progress || recorded in_progress sts;
      has_completed = h.has_completed || recorded completed sts;
      has_cancelled = h.has_cancelled || recorded cancelled sts;
    }
unfolding history_from
history_from-eq h [] = ground arith
history_from-eq h (st ∷ sts) = ground (arith, history_from-eq (note h st.status) sts)

abbrev pub unless : Bool → IncidentStatus → List IncidentStatus
unless true u = []
unless false u = u ∷ []

-- The update for a missed status, unless one is recorded.
abbrev pub missing : Status → String → Time → Incident → List IncidentStatus
missing s text t mn = unless (recorded s mn.statuses) (new_update mn.id s text t)

fix_planned-eq :
    (h : MntStatusHistory) (mn : Incident)
    → fix_planned (h, mn) ≡ (
      record h { has_planned = true },
      record mn {
        statuses =
            mn.statuses
            ++ unless h.has_planned
                (new_update mn.id planned maintenance_planned_text mn.start_date);
      },
    )
unfolding fix_planned
fix_planned-eq h mn = elim (Bool-cases h.has_planned) [
  | inl e ↦ ground (arith, append-nil mn.statuses)
  | inr e ↦ ground arith
]

fix_in_progress-eq :
    (h : MntStatusHistory) (mn : Incident)
    → fix_in_progress (h, mn) ≡ (
      record h { has_planned = true; has_in_progress = true },
      record mn {
        statuses =
            mn.statuses
            ++ (unless h.has_planned
                  (new_update mn.id planned maintenance_planned_text mn.start_date)
                ++ unless h.has_in_progress
                    (new_update mn.id in_progress maintenance_in_progress_text mn.start_date));
      },
    )
unfolding fix_in_progress
fix_in_progress-eq h mn =
    let p = new_update mn.id planned maintenance_planned_text mn.start_date in
    let i = new_update mn.id in_progress maintenance_in_progress_text mn.start_date in
    ground (arith, append-nil mn.statuses, append_assoc mn.statuses (p ∷ []) (i ∷ []))

fix_completed-eq :
    (h : MntStatusHistory) (mn : Incident) (end_date : Time)
    → mn.end_date ≡ some end_date
    → fix_completed (h, mn)
      ≡ some (
        record h { has_planned = true; has_in_progress = true; has_completed = true },
        record mn {
          statuses =
              mn.statuses
              ++ (unless h.has_planned
                    (new_update mn.id planned maintenance_planned_text mn.start_date)
                  ++ unless h.has_in_progress
                      (new_update mn.id in_progress maintenance_in_progress_text mn.start_date)
                  ++ unless h.has_completed (
                      new_update mn.id completed maintenance_completed_text
                        (value_or mn.end_date 0)));
        },
      )
unfolding fix_completed
fix_completed-eq h mn end_date e =
    let p = new_update mn.id planned maintenance_planned_text mn.start_date in
    let i = new_update mn.id in_progress maintenance_in_progress_text mn.start_date in
    let c = new_update mn.id completed maintenance_completed_text end_date in
    ground (
      arith,
      append-nil mn.statuses,
      append_assoc mn.statuses (p ∷ []) (i ∷ []),
      append_assoc mn.statuses (p ∷ []) (c ∷ []),
      append_assoc mn.statuses (i ∷ []) (c ∷ []),
      append_assoc (mn.statuses ++ p ∷ []) (i ∷ []) (c ∷ []),
      append_assoc mn.statuses (p ∷ []) (i ∷ c ∷ []),
    )

-- The updates that a maintenance in this status misses: those of the statuses on its way, in their order;
-- for a cancelled one only "planned", and only if it was reviewed.
abbrev pub backfill : Status → Incident → List IncidentStatus
backfill planned mn = missing planned maintenance_planned_text mn.start_date mn
backfill in_progress mn =
    missing planned maintenance_planned_text mn.start_date mn
    ++ missing in_progress maintenance_in_progress_text mn.start_date mn
backfill completed mn =
    missing planned maintenance_planned_text mn.start_date mn
    ++ missing in_progress maintenance_in_progress_text mn.start_date mn
    ++ missing completed maintenance_completed_text (value_or mn.end_date 0) mn
backfill cancelled mn =
    if recorded reviewed mn.statuses
    then missing planned maintenance_planned_text mn.start_date mn
    else []
backfill _ mn = []

abbrev pub backfilled : Status → Incident → Incident
backfilled s mn = record mn { statuses = mn.statuses ++ backfill s mn }

abbrev event_of : Option State → Option Incident
event_of none = none
event_of (some (_, mn)) = some mn

fix_cancelled-eq :
    (h : MntStatusHistory) (mn : Incident)
    → event_of (some (fix_cancelled (h, mn)))
      ≡ some (record mn {
        statuses =
            mn.statuses
            ++ (if h.has_reviewed
                then unless h.has_planned
                    (new_update mn.id planned maintenance_planned_text mn.start_date)
                else []);
      })
unfolding fix_cancelled
fix_cancelled-eq h mn = ground (arith, append-nil mn.statuses)

fix_completed-missing :
    (mn : Incident) (end_date : Time)
    → mn.end_date ≡ some end_date
    → event_of (fix_completed (calculate_mnt_status_history mn, mn))
      ≡ some (backfilled completed mn)
unfolding calculate_mnt_status_history
fix_completed-missing mn t n =
    rw (history_from-eq no_history mn.statuses) (ap event_of (fix_completed-eq _ mn t n))

fix-eq :
    (s : Status) (mn : Incident)
    → (s ≡ completed → mn.end_date ≢ none)
    → event_of (fix_mnt_missed_statuses s (calculate_mnt_status_history mn, mn))
      ≡ some (backfilled s mn)
unfolding fix_mnt_missed_statuses calculate_mnt_status_history
fix-eq planned mn e =
    rw (history_from-eq no_history mn.statuses) (ap event_of (ap some (fix_planned-eq _ mn)))
fix-eq in_progress mn e =
    rw (history_from-eq no_history mn.statuses) (ap event_of (ap some (fix_in_progress-eq _ mn)))
fix-eq completed mn e = elim (Option-cases mn.end_date) [
  | inl n ↦ absurd (e refl n)
  | inr (t, n) ↦ fix_completed-missing mn t n
]
fix-eq cancelled mn e = rw (history_from-eq no_history mn.statuses) (fix_cancelled-eq _ mn)
fix-eq _ mn e = ground (arith, append-nil mn.statuses)

with_status :
    (s : Status) (o : Option State) {mn : Incident}
    → event_of o ≡ some mn
    → ◌≡◌ {A = Option (Status × Incident)}
        (elim o [ none ↦ none | some (_, mnt) ↦ some (s, mnt) ])
        (some (s, mn))
with_status s none h = cc
with_status s (some (h', mn')) h = ground arith

current_completed :
    (now : Time) (mn : Incident)
    → (mn.end_date ≢ none) ⊎ (now ≢ mn.start_date)
    → current_status now mn ≡ completed
    → mn.end_date ≢ none
unfolding current_status
current_completed now mn (inl h) c n = h n
current_completed now mn (inr h) c n = ground (arith, h)

-- The evaluation of a maintenance, unless it has no end and starts at this very instant: it returns the status by
-- the clock and the maintenance with exactly the missed updates of the statuses on its way appended, and
-- never dereferences a nil end date. For a cancelled maintenance that never left pending_review nothing is added.
pub evaluate_and_fix_mnt_status_lem :
    (now : Time) (mn : Incident)
    → (mn.end_date ≢ none) ⊎ (now ≢ mn.start_date)
    → evaluate_and_fix_mnt_status now mn
      ≡ some (current_status now mn, backfilled (current_status now mn) mn)
unfolding evaluate_and_fix_mnt_status
evaluate_and_fix_mnt_status_lem now mn h =
    with_status (current_status now mn)
      (fix_mnt_missed_statuses (current_status now mn) (calculate_mnt_status_history mn, mn))
      (fix-eq (current_status now mn) mn (current_completed now mn h))

recorded-append :
    (s : Status) (xs ys : List IncidentStatus)
    → recorded s (xs ++ ys) ≡ (recorded s xs || recorded s ys)
recorded-append s [] ys = refl
recorded-append s (x ∷ xs) ys = ground (arith, recorded-append s xs ys)
