-- ===== src/Tests/Queues.antt =====
-- The theorems of Outbox and Notification on a small queue.
use status_dashboard_backend.Common.{
  ◌≡◌, refl, true, false, none, some, List, [], ◌∷◌, ◌++◌, ◌&&◌, ◌||◌, ◌==◌, text_eq, arith, any,
  All, trim_space, is_space, ok, err, Result,
}
use status_dashboard_backend.Event.{Status-discrete, planned, in_progress, pending_review}
use status_dashboard_backend.Model.{Time, NotificationOutbox, Email, pending}
use status_dashboard_backend.Store.Tables.{Db, DbError}
use status_dashboard_backend.Outbox.{
  Queue, Operation, enqueues, inserts, is_query_failure, claims, recovers, claim_pending, has_id,
  run,
}
use status_dashboard_backend.Outbox.Invariant.{AllSound, run-AllSound}
use status_dashboard_backend.Outbox.Claims.{claim_pending_exclusive}
use status_dashboard_backend.Notification.Recipients.{
  add, recipients, has, is_review_status, allowed_domain, normalize_email,
}
use status_dashboard_backend.Notification.Recipients.Rules.{has-recipients, has_raw, eligible}
use status_dashboard_backend.Notification.Publish.{Change, build_row, build_rows, publish_tx}
use status_dashboard_backend.Notification.Publish.Loop.{is_violation}
use status_dashboard_backend.Notification.Publish.Once.{
  publish_tx_idem, publish_tx_lem, IsPublished,
}
use status_dashboard_backend.Tests.Data.{tables, publisher}

abbrev address : Email
address = b'a' ∷ b'@' ∷ b'x' ∷ []

abbrev change : Change
change = record {
  incident_id = 7;
  title = "Event";
  old_status = planned;
  new_status = in_progress;
  contact_email = address;
  actor = "checker";
  changed_at = 0;
}

abbrev pub task : NotificationOutbox
task = build_row publisher 150 1 change address

abbrev pub queue : Queue
queue = record task { id = 1 } ∷ []

claimed : any (has_id 1) (claim_pending 160 5 "a" queue).0 ≡ true
unfolding claim_pending build_row
claimed = refl

claim_pending_exclusive_example :
    any (has_id 1) (claim_pending 170 5 "b" (claim_pending 160 5 "a" queue).1).0 ≡ false
claim_pending_exclusive_example = claim_pending_exclusive 160 170 5 5 "a" "b" queue 1 claimed

abbrev history : List (Time × Operation)
history = (150, enqueues inserts 1 task) ∷ (160, claims 5 "a") ∷ (400, recovers 60) ∷ []

task_fresh :
    (task.status ≡ pending)
    × (task.attempts ≡ 0)
    × (task.locked_by ≡ none)
    × (task.locked_at ≡ none)
unfolding build_row
task_fresh = (refl, refl, refl, refl)

run-AllSound_example : AllSound 3 (run 3 (λ n. n) history [])
run-AllSound_example =
    run-AllSound 3 (ground arith) (λ n. n) history [] (task_fresh, (tt, (tt, tt))) tt

abbrev published : Result DbError (Unit {0} × Db)
published = publish_tx (some publisher) 150 1 change tables

abbrev after_publication : Db
after_publication = elim published [ ok r ↦ r.1 | err e ↦ tables ]

publishes : publish_tx (some publisher) 150 1 change tables ≡ ok (tt, after_publication)
unfolding publish_tx recipients allowed_domain add trim_space is_space Status-discrete
publishes = refl

all_valid :
    (rows : List NotificationOutbox)
    → All (λ (r : NotificationOutbox). is_violation (publisher.answers r) ≡ false) rows
all_valid [] = tt
all_valid (r ∷ rows) = (refl, all_valid rows)

all_answered :
    (rows : List NotificationOutbox)
    → All (λ (r : NotificationOutbox). is_query_failure (publisher.answers r) ≡ false) rows
all_answered [] = tt
all_answered (r ∷ rows) = (refl, all_answered rows)

publish_tx_idem_example :
    publish_tx (some publisher) 190 2 (record change { actor = "anna" }) after_publication
    ≡ ok (tt, after_publication)
publish_tx_idem_example =
    publish_tx_idem publisher 150 190 1 2 change (record change { actor = "anna" }) tables refl refl
      refl refl (all_valid (build_rows publisher 150 1 change))
      (all_answered (build_rows publisher 190 2 (record change { actor = "anna" }))) publishes

publish_tx_example :
    IsPublished publisher 150 1 change (publish_tx (some publisher) 150 1 change tables)
publish_tx_example = publish_tx_lem publisher 150 1 change tables refl tt

has-recipients_example : has (recipients publisher.resolver pending_review address) address ≡ (
    eligible publisher.resolver address
    && (is_review_status pending_review
          && has_raw
              (publisher.resolver.smod ∷ publisher.resolver.operators ++ publisher.resolver.admins)
              address
        || allowed_domain publisher.resolver.allowed address && normalize_email address == address))
has-recipients_example = has-recipients publisher.resolver pending_review address address
