-- ===== src/Outbox/Keys.antt =====
-- One row per notification: the keys of the queue stay distinct, and a repeated publication adds
-- nothing (Enqueue in internal/db/notification.go, PublishTx in internal/notification/publisher.go).
use status_dashboard_backend.Common.{◌≡◌, ◌↔◌, true, nat_eq, is_yes_iff, [], ◌∷◌, ◌++◌, arith}
use status_dashboard_backend.Event.{status_eq}
use status_dashboard_backend.Model.{DedupKey, NotificationOutbox}
use status_dashboard_backend.Outbox.{Queue, same_key, DedupKey-discrete, row_exists}

pub same_key_iff : (a b : DedupKey) → (same_key a b ≡ true) ↔ (a ≡ b)
same_key_iff a b = is_yes_iff (DedupKey-discrete a b)

pub row_exists_self :
    (a : DedupKey) (q : Queue) (r : NotificationOutbox)
    → r.dedup_key ≡ a
    → row_exists a (q ++ r ∷ []) ≡ true
unfolding row_exists
row_exists_self a [] r e = ground (arith, same_key_iff r.dedup_key a)
row_exists_self a (s ∷ q) r e = ground (arith, row_exists_self a q r e)
