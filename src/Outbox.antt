-- ===== src/Outbox.antt =====
-- internal/db/notification.go and internal/db/notification_ops.go: the queue of e-mail tasks. The
-- operations are functions of the table `notification_outbox` and of the clock. Statements that lock
-- rows run as if alone: another transaction's locked rows are simply rows that SKIP LOCKED leaves out.
pub mod Invariant
pub mod Claims
pub mod Keys
pub mod Retention
pub mod Listing
use status_dashboard_backend.Common.{
  ℕ, suc, ◌+◌, ◌-◌, String, Bool, true, false, ◌&&◌, ◌||◌, not, if◌then◌else◌, ltb, leb, ◌==◌,
  nat_eq, eqb_text, Eq, ◌≡◌, ◌↔◌, arith, eqb_text_iff, is_yes, is_yes_iff, Option, none, some, List,
  [], ◌∷◌, ◌++◌, map, any, keep, take, Result, ok, err,
}
use native.Mathlib.Decide.{ℕ_discrete}
use status_dashboard_backend.Event.{Status-discrete}
use status_dashboard_backend.Model.{
  Time, Kind, Delivery, pending, processing, sent, failed, DedupKey, NotificationOutbox,
}
use status_dashboard_backend.Store.Tables.{
  DbError, driver, notification_duplicate, notification_not_found, update_where, affected,
}

abbrev pub Queue : Type 0
Queue = List NotificationOutbox

pub Kind-discrete : Discrete Kind
Kind-discrete = hlevel

abbrev pub eqb_delivery : Delivery → Delivery → Bool
eqb_delivery pending pending = true
eqb_delivery processing processing = true
eqb_delivery sent sent = true
eqb_delivery failed failed = true
eqb_delivery _ _ = false

pub eqb_delivery_iff : (a b : Delivery) → (eqb_delivery a b ≡ true) ↔ (a ≡ b)
eqb_delivery_iff a b = ground arith

instance abbrev pub delivery_eq : Eq Delivery
delivery_eq = record { beq = eqb_delivery; beq_iff = eqb_delivery_iff }

pub DedupKey-discrete : Discrete DedupKey
DedupKey-discrete = hlevel (ℕ_discrete, Status-discrete, Kind-discrete)

-- equality of the texts that DedupKey builds
abbrev pub same_key : DedupKey → DedupKey → Bool
same_key a b = is_yes (DedupKey-discrete a b)

unfoldable pub row_exists : DedupKey → Queue → Bool
row_exists key q = any (λ r. same_key r.dedup_key key) q

-- What the database answers to the statements of Enqueue: the query of rowExists fails, the insert violates a
-- constraint of the table (the foreign key to `incident`, a length, the unique key), it fails for
-- another reason, or both succeed.
pub data Answer : Type 0 where
  query_fails violates_constraint insert_fails inserts : Answer

-- ent.IsConstraintError takes every violated constraint for the duplicate
unfoldable pub save_row : Answer → ℕ → NotificationOutbox → Queue → Result DbError Queue
save_row query_fails next row q = err driver
save_row violates_constraint next row q = err notification_duplicate
save_row insert_fails next row q = err driver
save_row inserts next row q = ok (q ++ record row { id = next } ∷ [])

abbrev pub is_query_failure : Answer → Bool
is_query_failure query_fails = true
is_query_failure _ = false

-- Enqueue; the key is never the empty text here, so its check cannot fail
unfoldable pub enqueue : Answer → ℕ → NotificationOutbox → Queue → Result DbError Queue
unfolding row_exists save_row
enqueue answer next row q =
    if is_query_failure answer
    then err driver
    else if row_exists row.dedup_key q
    then err notification_duplicate
    else save_row answer next row q

-- next_attempt_at IS NULL OR next_attempt_at <= now
abbrev pub due_at : Time → Option Time → Bool
due_at now none = true
due_at now (some t) = leb t now

unfoldable pub due : Time → NotificationOutbox → Bool
due now r = r.status == pending && due_at now r.next_attempt_at

unfoldable pub claim_row : Time → String → NotificationOutbox → NotificationOutbox
claim_row now owner r = record r {
  status = processing;
  attempts = r.attempts + 1;
  locked_by = some owner;
  locked_at = some now;
}

abbrev pub has_id : ℕ → NotificationOutbox → Bool
has_id i r = r.id == i

-- the UPDATE of one claimed row, by its id
unfoldable pub write_claim_row : Time → NotificationOutbox → NotificationOutbox → NotificationOutbox
write_claim_row now c r = record r {
  status = c.status;
  attempts = c.attempts;
  locked_by = c.locked_by;
  locked_at = c.locked_at;
  updated_at = now;
}

unfoldable pub write_claim : Time → NotificationOutbox → Queue → Queue
unfolding write_claim_row
write_claim now c q = update_where (has_id c.id) (write_claim_row now c) q

unfoldable pub write_claims : Time → List NotificationOutbox → Queue → Queue
unfolding write_claim
write_claims now [] q = q
write_claims now (c ∷ cs) q = write_claims now cs (write_claim now c q)

unfoldable pub claim_pending : Time → ℕ → String → Queue → List NotificationOutbox × Queue
unfolding due claim_row write_claims
claim_pending now limit owner q =
    let claimed = map (claim_row now owner) (take limit (keep (due now) q)) in
    (claimed, write_claims now claimed q)

unfoldable pub mark_sent_row : Time → NotificationOutbox → NotificationOutbox
mark_sent_row now r = record r {
  status = sent;
  locked_by = none;
  locked_at = none;
  last_error = none;
  updated_at = now;
}

unfoldable pub mark_sent : Time → ℕ → Queue → Result DbError Queue
unfolding mark_sent_row
mark_sent now i q =
    if affected (has_id i) q == 0
    then err notification_not_found
    else ok (update_where (has_id i) (mark_sent_row now) q)

-- The row after a failed delivery. The id is the primary key, so the row that getRowByID reads is the
-- row that the UPDATE of the same transaction selects.
unfoldable pub mark_failed_row :
    Time → String → ℕ → (ℕ → Time) → NotificationOutbox → NotificationOutbox
mark_failed_row now text max_attempts backoff r =
    let r' = record r {
      last_error = some text;
      locked_by = none;
      locked_at = none;
      updated_at = now;
    } in
    if leb max_attempts r.attempts
    then record r' { status = failed; next_attempt_at = none }
    else record r' { status = pending; next_attempt_at = some (backoff r.attempts) }

unfoldable pub mark_failed : Time → ℕ → String → ℕ → (ℕ → Time) → Queue → Result DbError Queue
unfolding mark_failed_row
mark_failed now i text max_attempts backoff q =
    if affected (has_id i) q == 0
    then err notification_not_found
    else ok (update_where (has_id i) (mark_failed_row now text max_attempts backoff) q)

unfoldable pub mark_failed_terminal_row : Time → String → NotificationOutbox → NotificationOutbox
mark_failed_terminal_row now text r = record r {
  status = failed;
  last_error = some text;
  next_attempt_at = none;
  locked_by = none;
  locked_at = none;
  updated_at = now;
}

unfoldable pub mark_failed_terminal : Time → ℕ → String → Queue → Result DbError Queue
unfolding mark_failed_terminal_row
mark_failed_terminal now i text q =
    if affected (has_id i) q == 0
    then err notification_not_found
    else ok (update_where (has_id i) (mark_failed_terminal_row now text) q)

-- locked_at < cutoff, which a NULL does not satisfy
abbrev pub locked_before : Time → Option Time → Bool
locked_before cutoff none = false
locked_before cutoff (some t) = ltb t cutoff

unfoldable pub stale : Time → NotificationOutbox → Bool
stale cutoff r = r.status == processing && locked_before cutoff r.locked_at

-- the loop of RecoverStaleProcessing writes each selected row back
unfoldable pub recover_row : Time → ℕ → NotificationOutbox → NotificationOutbox
recover_row now max_attempts r =
    let r' = record r { locked_by = none; locked_at = none; updated_at = now } in
    if leb max_attempts r.attempts
    then record r' { status = failed; next_attempt_at = none }
    else record r' { status = pending; next_attempt_at = some now }

unfoldable pub recover_stale_processing : Time → Time → ℕ → Queue → Queue
unfolding stale recover_row
recover_stale_processing now lease_timeout max_attempts q =
    update_where (stale (now - lease_timeout)) (recover_row now max_attempts) q

-- with no ids every failed row is re-driven
unfoldable pub redriven : List ℕ → NotificationOutbox → Bool
redriven [] r = r.status == failed
redriven (i ∷ ids) r = r.status == failed && any (λ j. j == r.id) (i ∷ ids)

unfoldable pub redrive_row : Time → NotificationOutbox → NotificationOutbox
redrive_row now r = record r {
  status = pending;
  attempts = 0;
  next_attempt_at = some now;
  last_error = none;
  locked_by = none;
  locked_at = none;
  updated_at = now;
}

unfoldable pub redrive_failed : Time → List ℕ → Queue → ℕ × Queue
unfolding redriven redrive_row
redrive_failed now ids q =
    (affected (redriven ids) q, update_where (redriven ids) (redrive_row now) q)

-- One statement against the queue, and the queue after it: a statement that fails changes nothing.
pub data Operation : Type 0 where
  enqueues : Answer → ℕ → NotificationOutbox → Operation
  claims : ℕ → String → Operation
  sends : ℕ → Operation
  fails fails_for_good : ℕ → String → Operation
  recovers : Time → Operation
  redrives : List ℕ → Operation

abbrev pub after : Queue → Result DbError Queue → Queue
after q (ok q') = q'
after q (err e) = q

unfoldable pub apply : ℕ → (ℕ → Time) → Time → Operation → Queue → Queue
unfolding enqueue claim_pending mark_sent mark_failed mark_failed_terminal recover_stale_processing
    redrive_failed
apply max_attempts backoff now (enqueues answer next row) q = after q (enqueue answer next row q)
apply max_attempts backoff now (claims limit owner) q = (claim_pending now limit owner q).1
apply max_attempts backoff now (sends i) q = after q (mark_sent now i q)
apply max_attempts backoff now (fails i text) q =
    after q (mark_failed now i text max_attempts backoff q)
apply max_attempts backoff now (fails_for_good i text) q =
    after q (mark_failed_terminal now i text q)
apply max_attempts backoff now (recovers lease) q =
    recover_stale_processing now lease max_attempts q
apply max_attempts backoff now (redrives ids) q = (redrive_failed now ids q).1

-- a history: operations with the times at which they run
unfoldable pub run : ℕ → (ℕ → Time) → List (Time × Operation) → Queue → Queue
run max_attempts backoff [] q = q
run max_attempts backoff ((now, op) ∷ ops) q =
    run max_attempts backoff ops (apply max_attempts backoff now op q)
