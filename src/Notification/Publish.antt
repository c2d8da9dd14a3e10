-- ===== src/Notification/Publish.antt =====
-- internal/notification/publisher.go and BuildRows of resolver.go: a change becomes one row per
-- recipient. The generated change id is a parameter.
pub mod Loop
pub mod Once
use status_dashboard_backend.Common.{
  ℕ, suc, String, Bool, true, false, if◌then◌else◌, ◌==◌, nat_eq, Option, none, some, List, [], ◌∷◌,
  map, Result, ok, err,
}
use status_dashboard_backend.Event.{Status}
use status_dashboard_backend.Model.{Time, Email, Payload, DedupKey, pending, NotificationOutbox}
use status_dashboard_backend.Store.Tables.{Db, DbError, notification_duplicate}
use status_dashboard_backend.Outbox.{Queue, Answer, enqueue}
use status_dashboard_backend.Notification.Recipients.{
  Resolver, kind_for_status, recipients, allowed_domain,
}

pub record Change : Type 0 where
  pub incident_id : ℕ
  pub title : String
  pub old_status : Status
  pub new_status : Status
  pub contact_email : Email
  pub actor : String
  -- the zero time stands for now
  pub changed_at : Time

pub record Publisher : Type 0 where
  pub enabled : Bool
  pub resolver : Resolver
  pub base_url : String
  -- the database behind `db`, by the row to insert
  pub answers : NotificationOutbox → Answer

-- a nil publisher is `none`
unfoldable pub is_enabled : Option Publisher → Bool
is_enabled none = false
is_enabled (some p) = p.enabled

unfoldable pub allows_domain : Option Publisher → Email → Bool
allows_domain none email = true
allows_domain (some p) email = if p.enabled then allowed_domain p.resolver.allowed email else true

unfoldable pub dedup_key : Change → Email → DedupKey
unfolding kind_for_status
dedup_key ch recipient = record {
  incident_id = ch.incident_id;
  kind = kind_for_status ch.new_status;
  old_status = ch.old_status;
  new_status = ch.new_status;
  recipient = recipient;
}

unfoldable pub build_payload : Change → Time → String → Payload
build_payload ch changed_at base_url = record {
  incident_id = ch.incident_id;
  title = ch.title;
  old_status = ch.old_status;
  new_status = ch.new_status;
  actor = ch.actor;
  changed_at = changed_at;
  link = (base_url, ch.incident_id);
}

-- the row for one recipient, as newOutboxCreate stores it: id 0 until the insert gives one
unfoldable pub build_row : Publisher → Time → ℕ → Change → Email → NotificationOutbox
unfolding dedup_key build_payload kind_for_status
build_row p now change_id ch recipient = record {
  id = 0;
  kind = kind_for_status ch.new_status;
  incident_id = ch.incident_id;
  recipient = recipient;
  payload = build_payload ch (if ch.changed_at == 0 then now else ch.changed_at) p.base_url;
  change_id = change_id;
  dedup_key = dedup_key ch recipient;
  status = pending;
  attempts = 0;
  next_attempt_at = none;
  locked_by = none;
  locked_at = none;
  last_error = none;
  created_at = now;
  updated_at = now;
}

unfoldable pub build_rows : Publisher → Time → ℕ → Change → List NotificationOutbox
unfolding build_row
build_rows p now change_id ch =
    map (build_row p now change_id ch) (recipients p.resolver ch.new_status ch.contact_email)

-- errors.Is(err, ErrNotificationDuplicate)
unfoldable pub is_duplicate : DbError → Bool
is_duplicate notification_duplicate = true
is_duplicate _ = false

-- the loop of PublishTx; the first part is the next value of the id sequence
unfoldable pub enqueue_all :
    (NotificationOutbox → Answer) → ℕ → List NotificationOutbox → Queue → Result DbError (ℕ × Queue)
unfolding enqueue is_duplicate
enqueue_all answers next [] q = ok (next, q)
enqueue_all answers next (row ∷ rows) q = elim (enqueue (answers row) next row q) [
  | err e ↦ let skip = enqueue_all answers next rows q in if is_duplicate e then skip else err e
  | ok q' ↦ enqueue_all answers (suc next) rows q'
]

unfoldable pub publish_tx :
    Option Publisher → Time → ℕ → Change → Db → Result DbError (Unit {0} × Db)
unfolding build_rows enqueue_all
publish_tx none now change_id ch db = ok (tt, db)
publish_tx (some p) now change_id ch db =
    if p.enabled
    then (elim (enqueue_all p.answers db.next_outbox (build_rows p now change_id ch) db.outbox) [
      | err e ↦ err e
      | ok (next, q) ↦ ok (tt, record db { outbox = q; next_outbox = next })
    ])
    else ok (tt, db)
