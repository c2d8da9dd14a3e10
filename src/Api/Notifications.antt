-- ===== src/Api/Notifications.antt =====
-- internal/api/v2/notifications.go: the admins' view of the queue and its re-drive. strconv.Atoi is a parameter
-- (`none` is its error), and the reads of the queue do not fail.
pub mod Admins
use status_dashboard_backend.Common.{
  ℕ, ℤ, pos, negsuc, String, string_eq, Text, Bool, true, false, ◌&&◌, not, if◌then◌else◌, ltb, leb,
  ◌==◌, nat_eq, Option, none, some, List, [], ◌∷◌, length, Result, ok, err, ◌>>=◌, fail_if,
}
use status_dashboard_backend.Model.{
  Time, Delivery, pending, processing, sent, failed, NotificationOutbox,
}
use status_dashboard_backend.Rbac.{admin}
use status_dashboard_backend.Outbox.{Queue, redrive_failed}
use status_dashboard_backend.Outbox.Listing.{list_notifications_by_status}
use status_dashboard_backend.Api.Response.{
  ApiError, auth_forbidden, notification_status_invalid, notification_limit_invalid,
  notification_redrive_limit_invalid, invalid_body, Refusal, bad_request, forbidden, Caller,
  or_bad_request,
}

abbrev pub default_failed_list_limit : ℕ
default_failed_list_limit = 100

abbrev pub max_failed_list_limit : ℕ
max_failed_list_limit = 1000

abbrev pub max_redrive_ids : ℕ
max_redrive_ids = 1000

unfoldable pub require_admin : Caller → Result Refusal (Unit {0})
require_admin c = elim c.role [
  | none ↦ err (forbidden auth_forbidden)
  | some role ↦ fail_if (not (role == admin)) (forbidden auth_forbidden)
]

-- listableStatuses, and the default of ?status=
unfoldable pub listed_status : Option String → Result ApiError Delivery
listed_status none = ok failed
listed_status (some s) =
    if s == "pending"
    then ok pending
    else if s == "processing"
    then ok processing
    else if s == "sent"
    then ok sent
    else if s == "failed"
    then ok failed
    else err notification_status_invalid

-- `err != nil || limit < 1 || limit > maxFailedListLimit`, negated
unfoldable pub checked_list_limit : Option ℤ → Result ApiError ℕ
checked_list_limit none = err notification_limit_invalid
checked_list_limit (some (negsuc n)) = err notification_limit_invalid
checked_list_limit (some (pos n)) =
    if leb 1 n && leb n max_failed_list_limit then ok n else err notification_limit_invalid

unfoldable pub parse_list_limit : (Text → Option ℤ) → Text → Result ApiError ℕ
unfolding checked_list_limit
parse_list_limit atoi [] = ok default_failed_list_limit
parse_list_limit atoi (c ∷ raw) = checked_list_limit (atoi (c ∷ raw))

pub record NotificationList : Type 0 where
  pub rows : List NotificationOutbox
  pub status : Delivery
  pub limit : ℕ

unfoldable pub get_failed_notifications_handler :
    (Text → Option ℤ) → Caller → Option String → Text → Queue → Result Refusal NotificationList
unfolding require_admin listed_status parse_list_limit list_notifications_by_status
get_failed_notifications_handler atoi c status limit q = require_admin c >>= λ _.
    or_bad_request (listed_status status) >>= λ s.
    or_bad_request (parse_list_limit atoi limit) >>= λ n.
    ok (record { rows = list_notifications_by_status s (pos n) q; status = s; limit = n })

-- The body of the re-drive: an empty one asks for all failed rows.
pub data RedriveBody : Type 0 where
  empty_body malformed_body : RedriveBody
  ids_body : List ℕ → RedriveBody

unfoldable pub redrive_ids : RedriveBody → Result ApiError (List ℕ)
redrive_ids empty_body = ok []
redrive_ids malformed_body = err invalid_body
redrive_ids (ids_body ids) =
    if ltb max_redrive_ids (length ids) then err notification_redrive_limit_invalid else ok ids

-- the number of re-driven rows, and whether the worker is woken
unfoldable pub answer_redrive : ℕ × Queue → Result Refusal (ℕ × Bool) × Queue
answer_redrive (count, q) = (ok (count, ltb 0 count), q)

unfoldable pub redrive_notifications_handler :
    Time → Caller → RedriveBody → Queue → Result Refusal (ℕ × Bool) × Queue
unfolding require_admin redrive_ids redrive_failed answer_redrive
redrive_notifications_handler now c body q =
    elim (require_admin c >>= λ _. or_bad_request (redrive_ids body)) [
      | err refusal ↦ (err refusal, q)
      | ok ids ↦ answer_redrive (redrive_failed now ids q)
    ]
