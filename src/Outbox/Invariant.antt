-- ===== src/Outbox/Invariant.antt =====
-- What holds of the queue between two operations: attempts stay within the limit, and exactly the
-- rows in processing carry a lease.
use status_dashboard_backend.Common.{
  ℕ, ◌-◌, ◌≤◌, ◌<◌, String, ◌≡◌, Bool, true, false, none, List, [], ◌∷◌, ◌++◌, map, keep, take, All,
  All-append, All-keep, All-map, All-take, ok, err, arith, if◌then◌else◌, ◌==◌, nat_eq, ◌≢◌,
}
use status_dashboard_backend.Model.{Time, pending, processing, NotificationOutbox}
use status_dashboard_backend.Store.Tables.{DbError, update_where, affected, All-update_where}
use status_dashboard_backend.Outbox.{
  Queue, claim_pending, claim_row, write_claim, write_claim_row, write_claims, due, mark_sent_row,
  mark_failed_row, mark_failed_terminal_row, stale, recover_row, redriven, redrive_row, has_id,
  Operation, enqueues, claims, sends, fails, fails_for_good, recovers, redrives, after, apply, run,
  Answer, query_fails, violates_constraint, insert_fails, inserts, enqueue,
}

pub record IsSound (max_attempts : ℕ) (r : NotificationOutbox) : Type 0 where
  pub pending_below : r.status ≡ pending → r.attempts < max_attempts
  pub processing_within : r.status ≡ processing → r.attempts ≤ max_attempts
  pub leased : r.status ≡ processing → (r.locked_by ≢ none) × (r.locked_at ≢ none)
  pub unleased : r.status ≢ processing → (r.locked_by ≡ none) × (r.locked_at ≡ none)

abbrev pub AllSound : ℕ → Queue → Type 0
AllSound max_attempts q = All (IsSound max_attempts) q

pub after_if :
    (P : Queue → Type 0) (b : Bool) (e : DbError) (q q' : Queue)
    → P q
    → P q'
    → P (after q (if b then err e else ok q'))
after_if P true e q q' h h' = h
after_if P false e q q' h h' = h'

module _ (max_attempts : ℕ) (positive : 0 < max_attempts) where
  AllSound-update :
      (p : NotificationOutbox → Bool) (f : NotificationOutbox → NotificationOutbox) (q : Queue)
      → ((r : NotificationOutbox)
          → p r ≡ true
          → IsSound max_attempts r
          → IsSound max_attempts (f r))
      → AllSound max_attempts q
      → AllSound max_attempts (update_where p f q)
  AllSound-update p f q = All-update_where (IsSound max_attempts) p f q

  -- A new row is as BuildRows makes it: pending, never tried, without a lease.
  abbrev pub IsFresh : Operation → Type 0
  IsFresh (enqueues answer next row) =
      (row.status ≡ pending) × (row.attempts ≡ 0) × (row.locked_by ≡ none) × (row.locked_at ≡ none)
  IsFresh _ = Unit

  -- A row as the claim writes it: it may stand in any row's place.
  record IsClaimed (c : NotificationOutbox) : Type 0 where
    status : c.status ≡ processing
    within : c.attempts ≤ max_attempts
    locked_by : c.locked_by ≢ none
    locked_at : c.locked_at ≢ none

  enqueued_IsSound :
      (next : ℕ) (row : NotificationOutbox)
      → row.status ≡ pending
      → row.attempts ≡ 0
      → row.locked_by ≡ none
      → row.locked_at ≡ none
      → IsSound max_attempts (record row { id = next })
  enqueued_IsSound next row a b c d = ground arith

  enqueue-AllSound :
      (answer : Answer) (next : ℕ) (row : NotificationOutbox) (q : Queue)
      → AllSound max_attempts q
      → AllSound max_attempts (q ++ record row { id = next } ∷ [])
      → AllSound max_attempts (after q (enqueue answer next row q))
  unfolding enqueue
  enqueue-AllSound query_fails next row q h k = h
  enqueue-AllSound violates_constraint next row q h k = ground (arith, h)
  enqueue-AllSound insert_fails next row q h k = ground (arith, h)
  enqueue-AllSound inserts next row q h k = ground (arith, h, k)

  due_row-IsClaimed :
      (now : Time) (owner : String) (r : NotificationOutbox)
      → due now r ≡ true
      → IsSound max_attempts r
      → IsClaimed (claim_row now owner r)
  unfolding due claim_row
  due_row-IsClaimed now owner r d s = ground arith

  due-IsClaimed :
      (now : Time) (owner : String) (n : ℕ) (q : Queue)
      → AllSound max_attempts q
      → All IsClaimed (map (claim_row now owner) (take n (keep (due now) q)))
  due-IsClaimed now owner n q h =
      All-map (λ r. (due now r ≡ true) × IsSound max_attempts r) IsClaimed (claim_row now owner)
        (take n (keep (due now) q)) (λ r s. due_row-IsClaimed now owner r s.0 s.1)
        (All-take _ n (keep (due now) q) (All-keep (IsSound max_attempts) (due now) q h))

  write_claims-AllSound :
      (now : Time) (cs : List NotificationOutbox) (q : Queue)
      → All IsClaimed cs
      → AllSound max_attempts q
      → AllSound max_attempts (write_claims now cs q)
  unfolding write_claims
  write_claims-AllSound now [] q hc h = h
  write_claims-AllSound now (c ∷ cs) q hc h =
      write_claims-AllSound now cs (write_claim now c q) hc.1
        (AllSound-update (has_id c.id) (write_claim_row now c) q (λ r e s. ground (arith, hc.0)) h)

  -- Claiming keeps the queue sound: no row is claimed past the attempt limit.
  pub claim_pending-AllSound :
      (now : Time) (limit : ℕ) (owner : String) (q : Queue)
      → AllSound max_attempts q
      → AllSound max_attempts (claim_pending now limit owner q).1
  unfolding claim_pending
  claim_pending-AllSound now limit owner q h =
      write_claims-AllSound now (map (claim_row now owner) (take limit (keep (due now) q))) q
        (due-IsClaimed now owner limit q h) h

  -- Every operation of the queue, failed ones included, keeps it sound.
  pub apply-AllSound :
      (backoff : ℕ → Time) (now : Time) (op : Operation) (q : Queue)
      → IsFresh op
      → AllSound max_attempts q
      → AllSound max_attempts (apply max_attempts backoff now op q)
  unfolding apply
  apply-AllSound backoff now (enqueues answer next row) q f h =
      enqueue-AllSound answer next row q h (
        All-append (IsSound max_attempts) q (record row { id = next } ∷ []) h
          (enqueued_IsSound next row f.0 f.1 f.2 f.3, tt))
  apply-AllSound backoff now (claims limit owner) q f h = claim_pending-AllSound now limit owner q h
  apply-AllSound backoff now (sends i) q f h =
      after_if (AllSound max_attempts) (affected (has_id i) q == 0) _ q
        (update_where (has_id i) (mark_sent_row now) q) h
        (AllSound-update (has_id i) (mark_sent_row now) q (λ r e s. ground arith) h)
  apply-AllSound backoff now (fails i text) q f h =
      after_if (AllSound max_attempts) (affected (has_id i) q == 0) _ q
        (update_where (has_id i) (mark_failed_row now text max_attempts backoff) q) h
        (AllSound-update (has_id i) (mark_failed_row now text max_attempts backoff) q
          (λ r e s. ground arith) h)
  apply-AllSound backoff now (fails_for_good i text) q f h =
      after_if (AllSound max_attempts) (affected (has_id i) q == 0) _ q
        (update_where (has_id i) (mark_failed_terminal_row now text) q) h
        (AllSound-update (has_id i) (mark_failed_terminal_row now text) q (λ r e s. ground arith) h)
  apply-AllSound backoff now (recovers lease) q f h =
      AllSound-update (stale (now - lease)) (recover_row now max_attempts) q (λ r e s. ground arith)
        h
  apply-AllSound backoff now (redrives ids) q f h =
      AllSound-update (redriven ids) (redrive_row now) q (λ r e s. ground arith) h

  -- Whatever operations run, at whatever times: attempts stay within the limit, rows that wait have an
  -- attempt left, and exactly the rows in processing carry a lease.
  pub run-AllSound :
      (backoff : ℕ → Time) (ops : List (Time × Operation)) (q : Queue)
      → All (λ (o : Time × Operation). IsFresh o.1) ops
      → AllSound max_attempts q
      → AllSound max_attempts (run max_attempts backoff ops q)
  unfolding run
  run-AllSound backoff [] q f h = h
  run-AllSound backoff ((now, op) ∷ ops) q f h =
      run-AllSound backoff ops (apply max_attempts backoff now op q) f.1
        (apply-AllSound backoff now op q f.0 h)
