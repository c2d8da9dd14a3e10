-- ===== src/Checker/Maintenance/Clock.antt =====
-- The status of a maintenance as the clock goes on (calculateCurrentMntStatus).
use status_dashboard_backend.Common.{ℕ, ◌≡◌, ◌≢◌, ◌≤◌, false, arith}
use status_dashboard_backend.Event.{Status, reviewed, planned, in_progress, completed, status_eq}
use status_dashboard_backend.Model.{Time, Incident}
use status_dashboard_backend.Checker.Maintenance.{MntStatusHistory, calculate_current_mnt_status}

-- How far a maintenance is.
abbrev pub rank : Status → ℕ
rank planned = 1
rank in_progress = 2
rank completed = 3
rank _ = 0

-- As time passes the status never goes back, for a maintenance that the checker moves by the clock (neither
-- cancelled nor reviewed), provided that the first look is not at the very instant of its start.
pub current_mnt_status_monotone :
    (now later : Time) (h : MntStatusHistory) (mn : Incident)
    → now ≤ later
    → now ≢ mn.start_date
    → h.has_cancelled ≡ false
    → mn.status ≢ reviewed
    → rank (calculate_current_mnt_status now h mn) ≤ rank (calculate_current_mnt_status later h mn)
unfolding calculate_current_mnt_status
current_mnt_status_monotone now later h mn le ne c r =
    ground (arith, status_eq.beq_iff mn.status reviewed)

-- At the very instant of its start a maintenance counts as completed, however far its end is; the end may even be
-- empty.
current_mnt_status_at_start :
    (h : MntStatusHistory) (mn : Incident)
    → h.has_cancelled ≡ false
    → mn.status ≢ reviewed
    → calculate_current_mnt_status mn.start_date h mn ≡ completed
unfolding calculate_current_mnt_status
current_mnt_status_at_start h mn c r = ground (arith, status_eq.beq_iff mn.status reviewed)
