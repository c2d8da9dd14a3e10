-- ===== src/Model.antt =====
-- internal/db/models.go: the domain structs. A time is a number of nanoseconds from the zero time;
-- a pointer that may be nil is an `Option`. `Text`, `StartDate` and `Impact` of an incident are
-- pointers too, which every maker of an incident fills (incidentFromEnt, the creation handlers), so
-- they are plain fields here. `Component.Incidents` is left out: only the availability report reads it.
use status_dashboard_backend.Common.{ℕ, String, ℤ, Bool, Option, List}
use status_dashboard_backend.Event.{EventType, Status}

-- time.Time
abbrev pub Time : Type 0
Time = ℕ

-- The bytes of an address that is walked by character.
abbrev pub Email : Type 0
Email = List ℕ

pub record ComponentAttr : Type 0 where
  pub name : String
  pub value : String

pub record Component : Type 0 where
  pub id : ℕ
  pub name : String
  pub attrs : List ComponentAttr

pub record IncidentStatus : Type 0 where
  pub id : ℕ
  pub incident_id : ℕ
  pub status : Status
  pub text : String
  pub timestamp : Time
  pub created_at : Option Time
  pub modified_at : Option Time
  pub deleted_at : Option Time
  pub created_by : Option String
  pub modified_by : Option String

pub record Incident : Type 0 where
  pub id : ℕ
  pub text : String
  pub description : Option String
  pub start_date : Time
  pub end_date : Option Time
  pub impact : ℤ
  pub statuses : List IncidentStatus
  pub status : Status
  pub system : Bool
  pub type : EventType
  pub components : List Component
  pub created_at : Option Time
  pub modified_at : Option Time
  pub deleted_at : Option Time
  pub created_by : Option String
  pub contact_email : Option Email
  pub version : Option ℤ

-- The `kind` and `status` columns of the outbox hold these texts only (internal/db/notification.go).
pub data Kind : Type 0 where
  kind_pending_review kind_reviewed kind_status_changed : Kind

pub data Delivery : Type 0 where
  pending processing sent failed : Delivery

pub record Payload : Type 0 where
  pub incident_id : ℕ
  pub title : String
  pub old_status : Status
  pub new_status : Status
  pub actor : String
  pub changed_at : Time
  -- the web origin, and the id that follows "/incidents/"
  pub link : String × ℕ

-- DedupKey keeps its five parts apart instead of joining them to one text.
pub record DedupKey : Type 0 where
  pub incident_id : ℕ
  pub kind : Kind
  pub old_status : Status
  pub new_status : Status
  pub recipient : Email

pub record NotificationOutbox : Type 0 where
  pub id : ℕ
  pub kind : Kind
  pub incident_id : ℕ
  pub recipient : Email
  pub payload : Payload
  pub change_id : ℕ
  pub dedup_key : DedupKey
  pub status : Delivery
  pub attempts : ℕ
  pub next_attempt_at : Option Time
  pub locked_by : Option String
  pub locked_at : Option Time
  pub last_error : Option String
  pub created_at : Time
  pub updated_at : Time
