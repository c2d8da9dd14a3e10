-- ===== src/Notification/Worker.antt =====
-- internal/notification/worker.go: the delivery of the queue by one worker, while nobody else writes the
-- queue. What the surroundings do is a parameter: the clock at each access, the cancellation of the
-- context, failures of the database, and the outcome of rendering and sending a mail. Logs and
-- metrics are left out.
pub mod Measure
pub mod Delivery
pub mod Ends
use status_dashboard_backend.Common.{
  ◌<>◌, ℕ, suc, zero, String, Bool, true, false, if◌then◌else◌, Option, none, some, List, [], ◌∷◌,
  err,
}
use status_dashboard_backend.Model.{Time, NotificationOutbox}
use status_dashboard_backend.Store.Tables.{driver}
use status_dashboard_backend.Outbox.{
  Queue, claim_pending, mark_sent, mark_failed, mark_failed_terminal, recover_stale_processing,
  after,
}

abbrev pub claim_batch_size : ℕ
claim_batch_size = 1

-- What becomes of one mail: an error of the renderer, an error of the server, which may be
-- permanent, or a panic on the way.
pub data Sending : Type 0 where
  accepted : Sending
  unrendered unsent refused panicked : String → Sending

pub record SendError : Type 0 where
  pub permanent : Bool
  pub text : String

unfoldable pub send_guarded : Sending → Option SendError
send_guarded accepted = none
send_guarded (unrendered e) = some (record { permanent = false; text = "render: " <> e })
send_guarded (unsent e) = some (record { permanent = false; text = e })
send_guarded (refused e) = some (record { permanent = true; text = e })
send_guarded (panicked e) =
    some (record { permanent = false; text = "panic sending notification: " <> e })

-- The worker's settings, and its surroundings at the n-th round of the loop.
pub record Worker : Type 0 where
  pub lease_owner : String
  pub lease_timeout : Time
  pub max_attempts : ℕ
  pub backoff : Time → ℕ → Time
  pub started : Time
  pub recover_fails : Bool
  pub clock : ℕ → Time
  pub cancelled : ℕ → Bool
  pub cancelled_row : ℕ → Bool
  pub claim_fails : ℕ → Bool
  pub update_fails : ℕ → Bool
  pub sending : ℕ → NotificationOutbox → Sending

module _ (w : Worker) where
  -- the queue after the write of an outcome, which is only logged where it fails
  unfoldable pub mark_failure : ℕ → ℕ → SendError → Queue → Queue
  mark_failure n i e q =
      if w.update_fails n
      then q
      else if e.permanent
      then after q (mark_failed_terminal (w.clock n) i e.text q)
      else after q (mark_failed (w.clock n) i e.text w.max_attempts (w.backoff (w.clock n)) q)

  unfoldable pub record_outcome : ℕ → ℕ → Option SendError → Queue → Queue
  unfolding mark_failure
  record_outcome n i (some e) q = mark_failure n i e q
  record_outcome n i none q = if w.update_fails n then q else after q (mark_sent (w.clock n) i q)

  unfoldable pub deliver : ℕ → NotificationOutbox → Queue → Queue
  unfolding record_outcome send_guarded
  deliver n row q = record_outcome n row.id (send_guarded (w.sending n row)) q

  -- the loop over the claimed rows; true where the context was cancelled in it
  unfoldable pub deliver_all : ℕ → List NotificationOutbox → Queue → Bool × Queue
  unfolding deliver
  deliver_all n [] q = (false, q)
  deliver_all n (row ∷ rows) q =
      let rest = deliver_all n rows (deliver n row q) in
      if w.cancelled_row n then (true, q) else rest

-- How a drain ends: nothing is due any more, the context was cancelled, or the database failed.
pub data Reason : Type 0 where
  nothing_due was_cancelled database_failed : Reason

-- a drain that ended, with the round that returned (0 where none was begun) and the queue that it left
pub data Drained : Type 0 where
  ended : Reason → ℕ → Queue → Drained
  out_of_fuel : Drained

-- what follows the loop over the claimed rows: `next` is the next round
unfoldable pub go_on : ℕ → (Queue → Drained) → Bool × Queue → Drained
go_on n next (true, q) = ended was_cancelled n q
go_on n next (false, q) = next q

module _ (w : Worker) where
  unfoldable pub after_claim : ℕ → (Queue → Drained) → List NotificationOutbox × Queue → Drained
  unfolding deliver_all go_on
  after_claim n next ([], q) = ended nothing_due n q
  after_claim n next (row ∷ rows, q) = go_on n next (deliver_all w n (row ∷ rows) q)

  -- the loop of Drain from its n-th round on
  unfoldable pub drain_rounds : ℕ → ℕ → Queue → Drained
  unfolding after_claim claim_pending
  drain_rounds zero n q = out_of_fuel
  drain_rounds (suc fuel) n q =
      let claimed =
        after_claim n (drain_rounds fuel (suc n))
          (claim_pending (w.clock n) claim_batch_size w.lease_owner q) in
      if w.cancelled n
      then ended was_cancelled n q
      else if w.claim_fails n
      then ended database_failed n q
      else claimed

  unfoldable pub drain : ℕ → Queue → Drained
  unfolding drain_rounds recover_stale_processing
  drain fuel q =
      if w.recover_fails
      then ended database_failed 0 q
      else drain_rounds fuel 0 (recover_stale_processing w.started w.lease_timeout w.max_attempts q)
