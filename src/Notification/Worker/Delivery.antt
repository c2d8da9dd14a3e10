-- ===== src/Notification/Worker/Delivery.antt =====
-- One delivery of internal/notification/worker.go: recording its outcome keeps the queue ready for the
-- next round.
use status_dashboard_backend.Common.{
  ℕ, ◌≤◌, ◌<◌, String, ◌≡◌, refl, ◌==◌, nat_eq, eqb_iff, if_elim, Option, none, some, All, arith,
}
use status_dashboard_backend.Model.{processing, NotificationOutbox}
use status_dashboard_backend.Store.Tables.{update_where, affected}
use status_dashboard_backend.Outbox.{
  Queue, has_id, mark_sent_row, mark_failed_row, mark_failed_terminal_row, Operation, sends, fails,
  fails_for_good, apply,
}
use status_dashboard_backend.Outbox.Claims.{Taken}
use status_dashboard_backend.Outbox.Invariant.{AllSound, after_if, IsFresh, apply-AllSound}
use status_dashboard_backend.Notification.Worker.{
  Worker, SendError, send_guarded, mark_failure, record_outcome, deliver,
}
use status_dashboard_backend.Notification.Worker.Measure.{
  weight, work, DistinctIds, DistinctIds-update_where, work-update_where,
}

-- What holds of the queue between two rounds.
abbrev pub IsReady : ℕ → Queue → Type 0
IsReady max_attempts q = AllSound max_attempts q × DistinctIds q

-- The three outcomes that are recorded, and the statement that records one for the row `i`.
data Outcome : Type 0 where
  success : Outcome
  failure rejection : String → Outcome

abbrev recorded : ℕ → Outcome → Operation
recorded i success = sends i
recorded i (failure text) = fails i text
recorded i (rejection text) = fails_for_good i text

module _ (w : Worker) (positive : 0 < w.max_attempts) where
  abbrev applied : ℕ → Operation → Queue → Queue
  applied n = apply w.max_attempts (w.backoff (w.clock n)) (w.clock n)

  record_outcome_elim :
      (P : Queue → Type 0) (n i : ℕ) (o : Option SendError) (q : Queue)
      → P q
      → ((out : Outcome) → P (applied n (recorded i out) q))
      → P (record_outcome w n i o q)
  unfolding record_outcome mark_failure apply
  record_outcome_elim P n i none q h k = if_elim P (w.update_fails n) q _ (λ _. h) (λ _. k success)
  record_outcome_elim P n i (some e) q h k =
      if_elim P (w.update_fails n) q _ (λ _. h)
        λ _. if_elim P e.permanent _ _ (λ _. k (rejection e.text)) (λ _. k (failure e.text))

  -- A write under a guard on the affected rows, where the guard's refusal keeps the queue.
  settled_row :
      (i : ℕ) (f : NotificationOutbox → NotificationOutbox) (q : Queue)
      → ((r : NotificationOutbox) → (f r).id ≡ r.id)
      → ((r : NotificationOutbox)
          → r.status ≡ processing
          → weight w.max_attempts (f r) ≤ weight w.max_attempts r)
      → All (Taken i) q
      → DistinctIds q
      → DistinctIds (update_where (has_id i) f q)
        × (work w.max_attempts (update_where (has_id i) f q) ≤ work w.max_attempts q)
  settled_row i f q same lighter t d = (
    DistinctIds-update_where (has_id i) f same q d,
    work-update_where (has_id i) f w.max_attempts (Taken i)
        (λ r e taken. lighter r (taken ((eqb_iff r.id i).0 e))) q t,
  )

  abbrev NoHeavier : Queue → Queue → Type 0
  NoHeavier q q' = DistinctIds q' × (work w.max_attempts q' ≤ work w.max_attempts q)

  recorded-NoHeavier :
      (n i : ℕ) (out : Outcome) (q : Queue)
      → All (Taken i) q
      → DistinctIds q
      → NoHeavier q (applied n (recorded i out) q)
  unfolding apply
  recorded-NoHeavier n i success q t d =
      after_if (NoHeavier q) (affected (has_id i) q == 0) _ q _ (d, omega arith)
        (settled_row i (mark_sent_row (w.clock n)) q (λ r. refl) (λ r p. ground arith) t d)
  recorded-NoHeavier n i (failure text) q t d =
      after_if (NoHeavier q) (affected (has_id i) q == 0) _ q _ (d, omega arith)
        (settled_row i (mark_failed_row (w.clock n) text w.max_attempts (w.backoff (w.clock n))) q
          (λ r. ground arith) (λ r p. ground arith) t d)
  recorded-NoHeavier n i (rejection text) q t d =
      after_if (NoHeavier q) (affected (has_id i) q == 0) _ q _ (d, omega arith)
        (settled_row i (mark_failed_terminal_row (w.clock n) text) q (λ r. refl)
          (λ r p. ground arith) t d)

  recorded-IsFresh : (i : ℕ) (out : Outcome) → IsFresh w.max_attempts positive (recorded i out)
  recorded-IsFresh i success = tt
  recorded-IsFresh i (failure text) = tt
  recorded-IsFresh i (rejection text) = tt

  -- Recording the outcome of a claimed row keeps the queue ready and makes it no heavier.
  pub deliver_claimed :
      (n : ℕ) (row : NotificationOutbox) (q : Queue)
      → All (Taken row.id) q
      → IsReady w.max_attempts q
      → IsReady w.max_attempts (deliver w n row q)
        × (work w.max_attempts (deliver w n row q) ≤ work w.max_attempts q)
  unfolding deliver
  deliver_claimed n row q t r =
      record_outcome_elim
        (λ q'. IsReady w.max_attempts q' × (work w.max_attempts q' ≤ work w.max_attempts q)) n
        row.id (send_guarded (w.sending n row)) q (r, omega arith)
        λ out.
          let k = recorded-NoHeavier n row.id out q t r.1 in
          (
            (
              apply-AllSound w.max_attempts positive (w.backoff (w.clock n)) (w.clock n)
                  (recorded row.id out) q (recorded-IsFresh row.id out) r.0,
              k.0,
            ),
            k.1,
          )
