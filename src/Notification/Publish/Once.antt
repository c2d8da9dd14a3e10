-- ===== src/Notification/Publish/Once.antt =====
-- One row per transition and recipient, however often the transition is published.
use status_dashboard_backend.Common.{
  ℕ, ◌≡◌, refl, true, false, List, [], ◌∷◌, map, Result, ok, err, any, All, arith, some,
  Result-cases, inl, inr, ◌||◌, Bool-cases,
}
use status_dashboard_backend.Model.{Time, Email, NotificationOutbox}
use status_dashboard_backend.Store.Tables.{Db, DbError, driver}
use status_dashboard_backend.Outbox.{Queue, row_exists, is_query_failure}
use status_dashboard_backend.Notification.Recipients.{recipients}
use status_dashboard_backend.Notification.Publish.{
  Change, Publisher, dedup_key, build_row, build_rows, enqueue_all, publish_tx,
}
use status_dashboard_backend.Notification.Publish.Loop.{
  DistinctKeys, Answers, is_violation, is_failure, add_rows, IsAdded, enqueue_all-IsAdded, AllIn,
  all_there, DistinctKeys-add_rows, nothing_new,
}

-- Rows of one transition have the same keys, whatever else differs.
same_keys :
    (p : Publisher) (now later : Time) (i j : ℕ) (ch ch' : Change) (es : List Email) (q : Queue)
    → ((e : Email) → dedup_key ch' e ≡ dedup_key ch e)
    → All
        (λ (r : NotificationOutbox). row_exists r.dedup_key q ≡ true)
        (map (build_row p now i ch) es)
    → All
        (λ (r : NotificationOutbox). row_exists r.dedup_key q ≡ true)
        (map (build_row p later j ch') es)
unfolding build_row
same_keys p now later i j ch ch' [] q k h = tt
same_keys p now later i j ch ch' (e ∷ es) q k h =
    (rw (k e) (h.0), same_keys p now later i j ch ch' es q k h.1)

dedup_key-eq :
    (ch ch' : Change) (e : Email)
    → ch'.incident_id ≡ ch.incident_id
    → ch'.old_status ≡ ch.old_status
    → ch'.new_status ≡ ch.new_status
    → dedup_key ch' e ≡ dedup_key ch e
unfolding dedup_key
dedup_key-eq ch ch' e a b c = ground arith

-- A row for every recipient, but for those whose row violates a constraint.
row_keys :
    (p : Publisher) (now : Time) (i : ℕ) (ch : Change) (es : List Email) (q : Queue)
    → AllIn p.answers (map (build_row p now i ch) es) q
    → All
        (λ (e : Email).
          (row_exists (dedup_key ch e) q || is_violation (p.answers (build_row p now i ch e)))
          ≡ true)
        es
unfolding build_row
row_keys p now i ch [] q h = tt
row_keys p now i ch (e ∷ es) q h = (h.0, row_keys p now i ch es q h.1)

stored_keys :
    (answers : Answers) (rows : List NotificationOutbox) (q : Queue)
    → AllIn answers rows q
    → All (λ (r : NotificationOutbox). is_violation (answers r) ≡ false) rows
    → All (λ (r : NotificationOutbox). row_exists r.dedup_key q ≡ true) rows
stored_keys answers [] q h k = tt
stored_keys answers (r ∷ rows) q h k =
    (ground (arith, h.0, k.0), stored_keys answers rows q h.1 k.1)

-- The rows of the second publication have the keys of the first one's.
again :
    (p : Publisher) (now later : Time) (i j : ℕ) (ch ch' : Change) (q : Queue)
    → ch'.incident_id ≡ ch.incident_id
    → ch'.old_status ≡ ch.old_status
    → ch'.new_status ≡ ch.new_status
    → ch'.contact_email ≡ ch.contact_email
    → All (λ (r : NotificationOutbox). row_exists r.dedup_key q ≡ true) (build_rows p now i ch)
    → All (λ (r : NotificationOutbox). row_exists r.dedup_key q ≡ true) (build_rows p later j ch')
unfolding build_rows
again p now later i j ch ch' q a b c d h =
    simp (c, d)
      (same_keys p now later i j ch ch' (recipients p.resolver ch.new_status ch.contact_email) q
        (λ e. dedup_key-eq ch ch' e a b c) h)

unchanged :
    (p : Publisher) (now : Time) (i : ℕ) (ch : Change) (db : Db)
    → All
        (λ (r : NotificationOutbox). row_exists r.dedup_key db.outbox ≡ true)
        (build_rows p now i ch)
    → All
        (λ (r : NotificationOutbox). is_query_failure (p.answers r) ≡ false)
        (build_rows p now i ch)
    → publish_tx (some p) now i ch db ≡ ok (tt, db)
unfolding publish_tx
unchanged p now i ch db h k =
    ground (arith, nothing_new p.answers db.next_outbox (build_rows p now i ch) db.outbox h k)

quiet :
    (p : Publisher) (now : Time) (i : ℕ) (ch : Change) (db : Db)
    → p.enabled ≡ false
    → publish_tx (some p) now i ch db ≡ ok (tt, db)
unfolding publish_tx
quiet p now i ch db off = rw off refl

-- An enabled publication by the answer of its loop.
published :
    (p : Publisher) (now : Time) (i : ℕ) (ch : Change) (db : Db) {db' : Db}
    → p.enabled ≡ true
    → publish_tx (some p) now i ch db ≡ ok (tt, db')
    → let w = add_rows p.answers db.next_outbox (build_rows p now i ch) db.outbox in
      db' ≡ record db { outbox = w.1; next_outbox = w.0 }
unfolding publish_tx
published p now i ch db on h =
    let rows = build_rows p now i ch in
    let added = enqueue_all-IsAdded p.answers db.next_outbox rows db.outbox in
    elim (Result-cases (enqueue_all p.answers db.next_outbox rows db.outbox)) [
      | inl (w, e) ↦
          let f : IsAdded p.answers db.next_outbox rows db.outbox (ok w) = rw e at added in
          ground (arith, f)
      | inr (x, e) ↦ ground arith
    ]

-- Publishing a transition again, at another time, with another change id, title, actor and time of
-- change, succeeds and leaves the tables as the first publication left them, where no row of the first
-- one violated a constraint and the database answers the lookups of the second one.
pub publish_tx_idem :
    (p : Publisher) (now later : Time) (i j : ℕ) (ch ch' : Change) (db : Db) {db' : Db}
    → ch'.incident_id ≡ ch.incident_id
    → ch'.old_status ≡ ch.old_status
    → ch'.new_status ≡ ch.new_status
    → ch'.contact_email ≡ ch.contact_email
    → All (λ (r : NotificationOutbox). is_violation (p.answers r) ≡ false) (build_rows p now i ch)
    → All
        (λ (r : NotificationOutbox). is_query_failure (p.answers r) ≡ false)
        (build_rows p later j ch')
    → publish_tx (some p) now i ch db ≡ ok (tt, db')
    → publish_tx (some p) later j ch' db' ≡ ok (tt, db')
publish_tx_idem p now later i j ch ch' db {db'} a b c d valid looked h =
    elim (Bool-cases p.enabled) [
      | inl on ↦
          let rows = build_rows p now i ch in
          let w = add_rows p.answers db.next_outbox rows db.outbox in
          let e : w.1 ≡ db'.outbox = ground (arith, published p now i ch db on h) in
          let there =
            stored_keys p.answers rows w.1 (all_there p.answers db.next_outbox rows db.outbox)
              valid in
          unchanged p later j ch' db'
            (again p now later i j ch ch' db'.outbox a b c d (rw (← e) there)) looked
      | inr off ↦ quiet p later j ch' db' off
    ]

-- What a publication answers: where it succeeds, the keys of the queue are distinct, and every recipient has a row
-- for the transition, unless the insert of the row violated a constraint; where it fails, the database failed at a row.
abbrev pub IsPublished : Publisher → Time → ℕ → Change → Result DbError (Unit {0} × Db) → Type 0
IsPublished p now i ch (ok (u, db')) =
    DistinctKeys db'.outbox
    × All
        (λ (e : Email).
          (row_exists (dedup_key ch e) db'.outbox
            || is_violation (p.answers (build_row p now i ch e)))
          ≡ true)
        (recipients p.resolver ch.new_status ch.contact_email)
IsPublished p now i ch (err e) =
    (e ≡ driver)
    × (any (λ (r : NotificationOutbox). is_failure (p.answers r)) (build_rows p now i ch) ≡ true)

-- An enabled publication against a queue with distinct keys succeeds unless the database fails at one of its rows. It keeps
-- the keys distinct and leaves a row for every recipient, except for one whose insert violates a constraint of the
-- table, which is skipped like a duplicate.
pub publish_tx_lem :
    (p : Publisher) (now : Time) (i : ℕ) (ch : Change) (db : Db)
    → p.enabled ≡ true
    → DistinctKeys db.outbox
    → IsPublished p now i ch (publish_tx (some p) now i ch db)
unfolding publish_tx build_rows
publish_tx_lem p now i ch db on h =
    let es = recipients p.resolver ch.new_status ch.contact_email in
    let rows = map (build_row p now i ch) es in
    let added = enqueue_all-IsAdded p.answers db.next_outbox rows db.outbox in
    elim (Result-cases (enqueue_all p.answers db.next_outbox rows db.outbox)) [
      | inl (w, e) ↦
          let f : IsAdded p.answers db.next_outbox rows db.outbox (ok w) = rw e at added in
          rw (on, e, f)
            (
              DistinctKeys-add_rows p.answers db.next_outbox rows db.outbox h,
              row_keys p now i ch es (add_rows p.answers db.next_outbox rows db.outbox).1
                  (all_there p.answers db.next_outbox rows db.outbox),
            )
      | inr (x, e) ↦
          let f : IsAdded p.answers db.next_outbox rows db.outbox (err x) = rw e at added in
          rw (on, e) f
    ]
