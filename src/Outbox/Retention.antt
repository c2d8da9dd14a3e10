-- ===== src/Outbox/Retention.antt =====
-- internal/db/notification_ops.go and internal/notification/worker.go: the deletion of rows that were sent long ago.
pub mod Pruned
use status_dashboard_backend.Common.{
  ℕ, zero, suc, ◌+◌, ◌-◌, ◌*◌, Bool, true, false, ◌&&◌, if◌then◌else◌, ltb, ◌==◌, List, [], ◌∷◌,
  length,
}
use status_dashboard_backend.Model.{Time, sent, NotificationOutbox}
use status_dashboard_backend.Outbox.{Queue, delivery_eq}

-- 30 days and 500 rows
abbrev pub retention_age : ℕ
retention_age = 30 * 24 * 3600 * 1000000000

abbrev pub retention_batch : ℕ
retention_batch = 500

unfoldable pub expired : Time → NotificationOutbox → Bool
expired before r = r.status == sent && ltb r.updated_at before

-- One DELETE: it removes the first `n` expired rows. The id is the primary key, and the rows stand in
-- its order.
unfoldable pub delete_batch : Time → ℕ → Queue → Queue
unfolding expired
delete_batch before zero q = q
delete_batch before (suc n) [] = []
delete_batch before (suc n) (r ∷ q) = elim (expired before r) [
  | true ↦ delete_batch before n q
  | false ↦ r ∷ delete_batch before (suc n) q
]

-- How the deletion ends, with the number of removed rows: the last batch was not full, or the context was
-- cancelled or the database failed.
pub data Pruning : Type 0 where
  pruned interrupted : ℕ → Queue → Pruning
  out_of_fuel : Pruning

-- The context and the database at the n-th round of the loop.
pub record Surroundings : Type 0 where
  pub cancelled : ℕ → Bool
  pub fails : ℕ → Bool

module _ (s : Surroundings) (before : Time) (batch_size : ℕ) where
  unfoldable pub delete_rounds : ℕ → ℕ → ℕ → Queue → Pruning
  unfolding delete_batch
  delete_rounds zero n total q = out_of_fuel
  delete_rounds (suc fuel) n total q =
      let q' = delete_batch before batch_size q in
      let removed = length q - length q' in
      let later = delete_rounds fuel (suc n) (total + removed) q' in
      if s.cancelled n
      then interrupted total q
      else if s.fails n
      then interrupted total q
      else if ltb removed batch_size
      then pruned (total + removed) q'
      else later

  unfoldable pub delete_sent_before : ℕ → Queue → Pruning
  unfolding delete_rounds
  delete_sent_before fuel q = delete_rounds fuel 0 0 q

-- RunRetention
unfoldable pub run_retention : Surroundings → Time → ℕ → Queue → Pruning
unfolding delete_sent_before
run_retention s now fuel q = delete_sent_before s (now - retention_age) retention_batch fuel q
