-- ===== src/Outbox/Listing.antt =====
-- internal/db/notification_ops.go: the rows of one status, the most recently updated first.
pub mod Sorted
use status_dashboard_backend.Common.{ℕ, ℤ, pos, negsuc, ◌==◌, List, keep, take, sort_desc}
use status_dashboard_backend.Model.{Delivery, NotificationOutbox}
use status_dashboard_backend.Outbox.{Queue, delivery_eq}

abbrev pub limit_to : ℤ → List NotificationOutbox → List NotificationOutbox
limit_to (pos n) rows = take n rows
limit_to (negsuc n) rows = rows

abbrev pub updated : NotificationOutbox → ℕ
updated r = r.updated_at

-- A limit of 0 selects nothing, and a negative one is no limit.
unfoldable pub list_notifications_by_status : Delivery → ℤ → Queue → List NotificationOutbox
unfolding sort_desc
list_notifications_by_status status limit q =
    limit_to limit (sort_desc updated (keep (λ (r : NotificationOutbox). r.status == status) q))
