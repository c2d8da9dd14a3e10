-- ===== src/Checker/Update.antt =====
-- The update that the checker appends for a missed status.
use status_dashboard_backend.Common.{ℕ, String, none, [], ◌∷◌, ◌++◌}
use status_dashboard_backend.Event.{Status}
use status_dashboard_backend.Model.{Time, IncidentStatus, Incident}

unfoldable pub new_update : ℕ → Status → String → Time → IncidentStatus
new_update i status text timestamp = record {
  id = 0;
  incident_id = i;
  status = status;
  text = text;
  timestamp = timestamp;
  created_at = none;
  modified_at = none;
  deleted_at = none;
  created_by = none;
  modified_by = none;
}

unfoldable pub append_update : Status → String → Time → Incident → Incident
unfolding new_update
append_update status text timestamp inc = record inc {
  statuses = inc.statuses ++ new_update inc.id status text timestamp ∷ [];
}
