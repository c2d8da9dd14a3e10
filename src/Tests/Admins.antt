-- ===== src/Tests/Admins.antt =====
-- The theorems about the upkeep of the queue, on a queue of three rows.
use status_dashboard_backend.Common.{
  ℤ, pos, ◌≡◌, ◌≤◌, refl, arith, false, ◌==◌, nat_eq, none, some, Option, [], ◌∷◌, Text, Result, ok,
  err,
}
use status_dashboard_backend.Model.{sent, failed}
use status_dashboard_backend.Rbac.{admin}
use status_dashboard_backend.Outbox.{Queue}
use status_dashboard_backend.Outbox.Listing.Sorted.{IsListed}
use status_dashboard_backend.Outbox.Retention.{Surroundings, delete_sent_before}
use status_dashboard_backend.Outbox.Retention.Pruned.{IsPruning, delete_sent_before-IsPruning}
use status_dashboard_backend.Api.Response.{Caller}
use status_dashboard_backend.Api.Notifications.{
  max_failed_list_limit, NotificationList, get_failed_notifications_handler, empty_body,
  redrive_notifications_handler,
}
use status_dashboard_backend.Api.Notifications.Admins.{
  handler-IsListed, IsAnswered, redrive-IsAnswered,
}
use status_dashboard_backend.Tests.Queues.{task}

-- two rows that were sent, and one that failed
abbrev queue : Queue
queue =
    record task { id = 1; status = sent; updated_at = 10 }
    ∷ record task { id = 2; status = failed; updated_at = 15 }
    ∷ record task { id = 3; status = sent; updated_at = 20 }
    ∷ []

-- the context is cancelled before the third round
abbrev surroundings : Surroundings
surroundings = record { cancelled = λ n. n == 2; fails = λ _. false }

delete_sent_before-IsPruning_example :
    IsPruning 1000 0 queue (delete_sent_before surroundings 1000 1 8 queue)
delete_sent_before-IsPruning_example =
    delete_sent_before-IsPruning surroundings 1000 1 (omega arith) 8 queue (omega arith)

abbrev root : Caller
root = record { role = some admin; user_id = some "root"; user_email = none }

redrive-IsAnswered_example :
    IsAnswered 300 root empty_body queue (redrive_notifications_handler 300 root empty_body queue)
redrive-IsAnswered_example = redrive-IsAnswered 300 root empty_body queue

abbrev ten : Text → Option ℤ
ten raw = some (pos 10)

abbrev no_list : NotificationList
no_list = record { rows = []; status = failed; limit = 0 }

abbrev list_or : {E A : Type 0} → A → Result E A → A
list_or a (ok b) = b
list_or a (err e) = a

abbrev shown : NotificationList
shown = list_or no_list (get_failed_notifications_handler ten root (some "sent") (b'9' ∷ []) queue)

shows : get_failed_notifications_handler ten root (some "sent") (b'9' ∷ []) queue ≡ ok shown
unfolding get_failed_notifications_handler
shows = refl

handler-IsListed_example :
    (root.role ≡ some admin)
    × (1 ≤ shown.limit)
    × (shown.limit ≤ max_failed_list_limit)
    × IsListed shown.status shown.limit queue shown.rows
handler-IsListed_example = handler-IsListed ten root (some "sent") (b'9' ∷ []) queue shows
