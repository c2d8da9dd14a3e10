-- ===== src/Tests/Checks.antt =====
-- The theorems of Checker on the events of the tests.
use status_dashboard_backend.Common.{
  ◌≡◌, ◌⊎◌, ◌≤◌, refl, pos, true, false, some, none, arith, [], inl, inr,
}
use status_dashboard_backend.Event.{planned, information}
use status_dashboard_backend.Model.{Incident}
use status_dashboard_backend.Store.Tx.{Driver}
use status_dashboard_backend.Checker.Maintenance.{
  no_history, calculate_current_mnt_status, current_status, evaluate_and_fix_mnt_status,
}
use status_dashboard_backend.Checker.Maintenance.Process.{process_maintenance}
use status_dashboard_backend.Checker.Maintenance.Clock.{rank, current_mnt_status_monotone}
use status_dashboard_backend.Checker.Maintenance.Backfill.{
  backfilled, evaluate_and_fix_mnt_status_lem,
}
use status_dashboard_backend.Checker.Maintenance.Scan.{process_maintenance_atomic}
use status_dashboard_backend.Checker.Info.{
  fix_info_missed_statuses, current_info_status, calculate_info_status_history,
}
use status_dashboard_backend.Checker.Info.Backfill.{
  info_of, info_backfilled, fix_info_missed_statuses_lem,
}
use status_dashboard_backend.Tests.Data.{window, tables, publisher, event_with}

current_mnt_status_monotone_example :
    rank (calculate_current_mnt_status 50 no_history window)
    ≤ rank (calculate_current_mnt_status 150 no_history window)
current_mnt_status_monotone_example =
    current_mnt_status_monotone 50 150 no_history window (ground arith) (ground arith) refl
      (ground arith)

evaluate_and_fix_mnt_status_example :
    evaluate_and_fix_mnt_status 150 window
    ≡ some (current_status 150 window, backfilled (current_status 150 window) window)
evaluate_and_fix_mnt_status_example =
    evaluate_and_fix_mnt_status_lem 150 window (inl (ground arith))

abbrev broken : Driver
broken = record { begin_fails = false; commit_fails = true }

process_maintenance_atomic_example :
    ((process_maintenance broken (some publisher) 150 1 window tables).0 ≡ none)
    ⊎ ((process_maintenance broken (some publisher) 150 1 window tables).1 ≡ tables)
process_maintenance_atomic_example =
    process_maintenance_atomic broken (some publisher) 150 1 window tables

-- an information event without an end
abbrev notice : Incident
notice = event_with information planned (pos 0) none []

fix_info_missed_statuses_example :
    info_of (
      fix_info_missed_statuses
        (current_info_status 150 notice)
        (calculate_info_status_history notice, notice))
    ≡ some (info_backfilled (current_info_status 150 notice) notice)
fix_info_missed_statuses_example = fix_info_missed_statuses_lem 150 notice (inr (ground arith))
