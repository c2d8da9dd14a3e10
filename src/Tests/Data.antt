-- ===== src/Tests/Data.antt =====
-- The events, rows and tables that the tests run on.
use status_dashboard_backend.Common.{pos, true, false, none, some, [], ◌∷◌, Option, List, ℕ, ℤ}
use status_dashboard_backend.Event.{
  EventType, maintenance, incident, Status, planned, pending_review, detected, cancelled,
}
use status_dashboard_backend.Model.{Time, Incident, IncidentStatus}
use status_dashboard_backend.Store.Tables.{Db, IncidentRow}
use status_dashboard_backend.Outbox.{inserts}
use status_dashboard_backend.Notification.Publish.{Publisher}

abbrev pub update_at : ℕ → Status → Time → IncidentStatus
update_at i s t = record {
  id = i;
  incident_id = 7;
  status = s;
  text = "update";
  timestamp = t;
  created_at = none;
  modified_at = none;
  deleted_at = none;
  created_by = none;
  modified_by = none;
}

abbrev pub event_with : EventType → Status → ℤ → Option Time → List IncidentStatus → Incident
event_with t s impact end_date history = record {
  id = 7;
  text = "Event";
  description = none;
  start_date = 100;
  end_date = end_date;
  impact = impact;
  statuses = history;
  status = s;
  system = false;
  type = t;
  components = [];
  created_at = none;
  modified_at = none;
  deleted_at = none;
  created_by = some "anna";
  contact_email = none;
  version = some (pos 3);
}

-- a planned maintenance from 100 to 200
abbrev pub window : Incident
window = event_with maintenance planned (pos 0) (some 200) (update_at 1 planned 90 ∷ [])

-- an open incident
abbrev pub outage : Incident
outage = event_with incident detected (pos 2) none (update_at 1 detected 100 ∷ [])

-- a cancelled maintenance that never left the review
abbrev pub withdrawn : Incident
withdrawn = event_with maintenance cancelled (pos 0) (some 200) (update_at 1 pending_review 90 ∷ [])

abbrev pub row_of : Incident → IncidentRow
row_of inc = record {
  id = inc.id;
  text = inc.text;
  description = inc.description;
  start_date = inc.start_date;
  end_date = inc.end_date;
  impact = inc.impact;
  status = some inc.status;
  system = inc.system;
  type = inc.type;
  component_ids = [];
  created_at = none;
  modified_at = none;
  deleted_at = none;
  created_by = inc.created_by;
  contact_email = inc.contact_email;
  version = pos 3;
}

abbrev pub tables_with : Incident → Db
tables_with inc = record {
  incidents = row_of inc ∷ [];
  statuses = inc.statuses;
  components = [];
  outbox = [];
  next_incident = 8;
  next_status = 2;
  next_outbox = 1;
  next_component = 1;
}

abbrev pub tables : Db
tables = tables_with window

abbrev pub publisher : Publisher
publisher = record {
  enabled = true;
  resolver = record {
    smod = b'm' ∷ b'@' ∷ b'x' ∷ [];
    operators = (b'o' ∷ b'@' ∷ b'x' ∷ []) ∷ [];
    admins = [];
    excluded = [];
    allowed = [];
  };
  base_url = "https://status";
  answers = λ row. inserts;
}
