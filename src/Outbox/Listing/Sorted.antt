-- ===== src/Outbox/Listing/Sorted.antt =====
-- What a list of the queue's rows gives (ListNotificationsByStatus in internal/db/notification_ops.go).
use status_dashboard_backend.Common.{
  ℕ, ◌≡◌, ◌∙◌, ap, pos, ◌==◌, min, arith, zero, suc, List, [], ◌∷◌, All, All-take, keep, take,
  length, Bool-cases, inl, inr, sort_desc, IsDescending, All-sort_desc, length-sort_desc,
  sort-IsDescending, take-IsDescending, left_out, take-left_out, left_out-le-take, sort_desc-perm,
  subst, sym, ◌≤◌, ◌++◌,
}
use mathlib.Core.List.{Perm}
use status_dashboard_backend.Model.{Delivery, NotificationOutbox}
use status_dashboard_backend.Outbox.{Queue, delivery_eq, eqb_delivery_iff}
use status_dashboard_backend.Outbox.Listing.{updated, list_notifications_by_status}

length-taken : (n : ℕ) (rows : List NotificationOutbox) → length (take n rows) ≡ min n (length rows)
length-taken zero rows = omega arith
length-taken (suc n) [] = omega arith
length-taken (suc n) (r ∷ rows) = omega (arith, length-taken n rows)

abbrev HasStatus : Delivery → NotificationOutbox → Type 0
HasStatus status r = r.status ≡ status

all_kept :
    (status : Delivery) (q : Queue)
    → All (HasStatus status) (keep (λ (r : NotificationOutbox). r.status == status) q)
all_kept status [] = tt
all_kept status (r ∷ q) = elim (Bool-cases (r.status == status)) [
  | inl e ↦ rw e ((eqb_delivery_iff r.status status).0 e, all_kept status q)
  | inr e ↦ rw e (all_kept status q)
]

-- The list under a limit: rows of that status only, the latest first, as many as the limit and the queue allow. With
-- the rows that it leaves out it is the rows of the queue that have the status, in some order, and no row
-- left out was updated later than a listed one.
pub record IsListed (status : Delivery) (n : ℕ) (q : Queue) (rows : List NotificationOutbox)
    : Type 0 where
  pub of_status : All (λ (r : NotificationOutbox). r.status ≡ status) rows
  pub latest_first : IsDescending updated rows
  pub counted :
      length rows ≡ min n (length (keep (λ (r : NotificationOutbox). r.status == status) q))
  pub others : List NotificationOutbox
  pub of_queue : Perm (rows ++ others) (keep (λ (r : NotificationOutbox). r.status == status) q)
  pub latest :
      All
        (λ (r : NotificationOutbox).
          All (λ (s : NotificationOutbox). s.updated_at ≤ r.updated_at) others)
        rows

pub list-IsListed :
    (status : Delivery) (n : ℕ) (q : Queue)
    → IsListed status n q (list_notifications_by_status status (pos n) q)
unfolding list_notifications_by_status
list-IsListed status n q =
    let found = keep (λ (r : NotificationOutbox). r.status == status) q in
    let rows = sort_desc updated found in
    record {
      of_status =
          All-take (HasStatus status) n rows
            (All-sort_desc updated (HasStatus status) found (all_kept status q));
      latest_first = take-IsDescending updated n rows (sort-IsDescending updated found);
      counted = length-taken n rows ∙ ap (min n) (length-sort_desc updated found);
      others = left_out updated n rows;
      of_queue =
          subst (λ l. Perm l found) (sym (take-left_out updated n rows))
            (sort_desc-perm updated found);
      latest = left_out-le-take updated n rows (sort-IsDescending updated found);
    }
