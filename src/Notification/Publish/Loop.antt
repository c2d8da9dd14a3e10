-- ===== src/Notification/Publish/Loop.antt =====
-- The loop of PublishTx (internal/notification/publisher.go) over the rows of one change, and the keys that it leaves.
use status_dashboard_backend.Common.{
  ℕ, suc, ◌≡◌, ◌⊎◌, refl, Bool, true, false, if◌then◌else◌, List, [], ◌∷◌, ◌++◌, any, any-append,
  Result, ok, err, All, arith, ◌∙◌, sym, subst, Bool-cases, inl, inr, ◌||◌,
}
use status_dashboard_backend.Model.{DedupKey, NotificationOutbox}
use status_dashboard_backend.Store.Tables.{DbError, driver, notification_duplicate}
use status_dashboard_backend.Outbox.{
  Queue, same_key, row_exists, Answer, query_fails, violates_constraint, insert_fails, inserts,
  enqueue, save_row, is_query_failure,
}
use status_dashboard_backend.Outbox.Keys.{row_exists_self, same_key_iff}
use status_dashboard_backend.Notification.Publish.{enqueue_all, is_duplicate}

-- The keys of the queue are distinct.
abbrev pub DistinctKeys : Queue → Type 0
DistinctKeys [] = Unit
DistinctKeys (r ∷ q) = (row_exists r.dedup_key q ≡ false) × DistinctKeys q

row_exists-append :
    (k : DedupKey) (q q' : Queue) → row_exists k (q ++ q') ≡ (row_exists k q || row_exists k q')
unfolding row_exists
row_exists-append k q q' = any-append (λ (r : NotificationOutbox). same_key r.dedup_key k) q q'

DistinctKeys-snoc :
    (q : Queue) (r : NotificationOutbox)
    → DistinctKeys q
    → row_exists r.dedup_key q ≡ false
    → DistinctKeys (q ++ r ∷ [])
unfolding row_exists
DistinctKeys-snoc [] r h new = (refl, tt)
DistinctKeys-snoc (s ∷ q) r h new = (
  ground (
    arith,
    row_exists-append s.dedup_key q (r ∷ []),
    same_key_iff r.dedup_key s.dedup_key,
    same_key_iff s.dedup_key r.dedup_key,
    h.0,
  ),
  DistinctKeys-snoc q r h.1 (ground arith),
)

abbrev pub is_violation : Answer → Bool
is_violation violates_constraint = true
is_violation _ = false

abbrev pub is_failure : Answer → Bool
is_failure query_fails = true
is_failure insert_fails = true
is_failure _ = false

abbrev pub Answers : Type 0
Answers = NotificationOutbox → Answer

-- The loop without its error path: a row whose key is there, or that violates a constraint, is skipped.
unfoldable pub add_rows : Answers → ℕ → List NotificationOutbox → Queue → ℕ × Queue
add_rows answers next [] q = (next, q)
add_rows answers next (row ∷ rows) q =
    let skip = add_rows answers next rows q in
    let put = add_rows answers (suc next) rows (q ++ record row { id = next } ∷ []) in
    if row_exists row.dedup_key q || is_violation (answers row) then skip else put

-- What one round of the loop does, by the database's answer.
enqueued :
    (answer : Answer) (next : ℕ) (row : NotificationOutbox) (q : Queue)
    → ((enqueue answer next row q ≡ err driver) × (is_failure answer ≡ true))
      ⊎ ((enqueue answer next row q ≡ err notification_duplicate)
          × ((row_exists row.dedup_key q || is_violation answer) ≡ true))
      ⊎ ((enqueue answer next row q ≡ ok (q ++ record row { id = next } ∷ []))
          × ((row_exists row.dedup_key q || is_violation answer) ≡ false))
unfolding enqueue save_row
enqueued query_fails next row q = inl (refl, refl)
enqueued violates_constraint next row q = inr (inl (ground arith, ground arith))
enqueued insert_fails next row q = elim (Bool-cases (row_exists row.dedup_key q)) [
  | inl e ↦ inr (inl (ground (arith, e), ground (arith, e)))
  | inr e ↦ inl (ground (arith, e), refl)
]
enqueued inserts next row q = elim (Bool-cases (row_exists row.dedup_key q)) [
  | inl e ↦ inr (inl (ground (arith, e), ground (arith, e)))
  | inr e ↦ inr (inr (ground (arith, e), ground (arith, e)))
]

-- The answer of the loop: where it succeeds, it added the rows; where it fails, the database failed at a row.
abbrev pub IsAdded :
    Answers → ℕ → List NotificationOutbox → Queue → Result DbError (ℕ × Queue) → Type 0
IsAdded answers next rows q (ok w) = w ≡ add_rows answers next rows q
IsAdded answers next rows q (err e) =
    (e ≡ driver) × (any (λ (r : NotificationOutbox). is_failure (answers r)) rows ≡ true)

skipped :
    (answers : Answers) (next : ℕ) (row : NotificationOutbox) (rows : List NotificationOutbox)
    (q : Queue) (r : Result DbError (ℕ × Queue))
    → (row_exists row.dedup_key q || is_violation (answers row)) ≡ true
    → IsAdded answers next rows q r
    → IsAdded answers next (row ∷ rows) q r
unfolding add_rows
skipped answers next row rows q (ok w) e h = rw e h
skipped answers next row rows q (err x) e h = (h.0, ground (arith, h.1))

put :
    (answers : Answers) (next : ℕ) (row : NotificationOutbox) (rows : List NotificationOutbox)
    (q : Queue) (r : Result DbError (ℕ × Queue))
    → (row_exists row.dedup_key q || is_violation (answers row)) ≡ false
    → IsAdded answers (suc next) rows (q ++ record row { id = next } ∷ []) r
    → IsAdded answers next (row ∷ rows) q r
unfolding add_rows
put answers next row rows q (ok w) e h = rw e h
put answers next row rows q (err x) e h = (h.0, ground (arith, h.1))

failed_step :
    (answers : Answers) (next : ℕ) (row : NotificationOutbox) (rows : List NotificationOutbox)
    (q : Queue)
    → enqueue (answers row) next row q ≡ err driver
    → enqueue_all answers next (row ∷ rows) q ≡ err driver
unfolding enqueue_all is_duplicate
failed_step answers next row rows q e = ground arith

skipped_step :
    (answers : Answers) (next : ℕ) (row : NotificationOutbox) (rows : List NotificationOutbox)
    (q : Queue)
    → enqueue (answers row) next row q ≡ err notification_duplicate
    → enqueue_all answers next (row ∷ rows) q ≡ enqueue_all answers next rows q
unfolding enqueue_all is_duplicate
skipped_step answers next row rows q e = ground arith

added_step :
    (answers : Answers) (next : ℕ) (row : NotificationOutbox) (rows : List NotificationOutbox)
    (q q' : Queue)
    → enqueue (answers row) next row q ≡ ok q'
    → enqueue_all answers next (row ∷ rows) q ≡ enqueue_all answers (suc next) rows q'
unfolding enqueue_all
added_step answers next row rows q q' e = ground arith

pub enqueue_all-IsAdded :
    (answers : Answers) (next : ℕ) (rows : List NotificationOutbox) (q : Queue)
    → IsAdded answers next rows q (enqueue_all answers next rows q)
unfolding enqueue_all add_rows
enqueue_all-IsAdded answers next [] q = refl
enqueue_all-IsAdded answers next (row ∷ rows) q = elim (enqueued (answers row) next row q) [
  | inl (e, f) ↦ rw (failed_step answers next row rows q e) (refl, ground (arith, f))
  | inr (inl (e, f)) ↦ rw (skipped_step answers next row rows q e) (
      skipped answers next row rows q (enqueue_all answers next rows q) f
        (enqueue_all-IsAdded answers next rows q))
  | inr (inr (e, f)) ↦
      let q' = q ++ record row { id = next } ∷ [] in
      rw (added_step answers next row rows q q' e) (
        put answers next row rows q (enqueue_all answers (suc next) rows q') f
          (enqueue_all-IsAdded answers (suc next) rows q'))
]

module _ (answers : Answers) where
  add_rows_skip :
      (next : ℕ) (row : NotificationOutbox) (rows : List NotificationOutbox) (q : Queue)
      → (row_exists row.dedup_key q || is_violation (answers row)) ≡ true
      → add_rows answers next (row ∷ rows) q ≡ add_rows answers next rows q
  unfolding add_rows
  add_rows_skip next row rows q e = rw e refl

  add_rows_put :
      (next : ℕ) (row : NotificationOutbox) (rows : List NotificationOutbox) (q : Queue)
      → (row_exists row.dedup_key q || is_violation (answers row)) ≡ false
      → add_rows answers next (row ∷ rows) q
        ≡ add_rows answers (suc next) rows (q ++ record row { id = next } ∷ [])
  unfolding add_rows
  add_rows_put next row rows q e = rw e refl

  kept :
      (k : DedupKey) (next : ℕ) (rows : List NotificationOutbox) (q : Queue)
      → row_exists k q ≡ true
      → row_exists k (add_rows answers next rows q).1 ≡ true
  unfolding add_rows
  kept k next [] q h = h
  kept k next (row ∷ rows) q h =
      elim (Bool-cases (row_exists row.dedup_key q || is_violation (answers row))) [
        | inl e ↦ rw e (kept k next rows q h)
        | inr e ↦ rw e (
            kept k (suc next) rows (q ++ record row { id = next } ∷ [])
              (ground (arith, row_exists-append k q (record row { id = next } ∷ []))))
      ]

  -- Every row has its key in the queue, or violates a constraint.
  abbrev pub AllIn : List NotificationOutbox → Queue → Type 0
  AllIn rows q =
      All
        (λ (r : NotificationOutbox). (row_exists r.dedup_key q || is_violation (answers r)) ≡ true)
        rows

  pub all_there :
      (next : ℕ) (rows : List NotificationOutbox) (q : Queue)
      → AllIn rows (add_rows answers next rows q).1
  all_there next [] q = tt
  all_there next (row ∷ rows) q =
      elim (Bool-cases (row_exists row.dedup_key q || is_violation (answers row))) [
        | inl e ↦
            subst (λ w. AllIn (row ∷ rows) w.1) (sym (add_rows_skip next row rows q e))
              (ground (arith, e, kept row.dedup_key next rows q), all_there next rows q)
        | inr e ↦
            let new = record row { id = next } in
            subst (λ w. AllIn (row ∷ rows) w.1) (sym (add_rows_put next row rows q e))
              (
                ground (
                  arith,
                  kept row.dedup_key (suc next) rows (q ++ new ∷ [])
                      (row_exists_self row.dedup_key q new refl),
                ),
                all_there (suc next) rows (q ++ new ∷ []),
              )
      ]

  pub DistinctKeys-add_rows :
      (next : ℕ) (rows : List NotificationOutbox) (q : Queue)
      → DistinctKeys q
      → DistinctKeys (add_rows answers next rows q).1
  unfolding add_rows
  DistinctKeys-add_rows next [] q h = h
  DistinctKeys-add_rows next (row ∷ rows) q h =
      elim (Bool-cases (row_exists row.dedup_key q || is_violation (answers row))) [
        | inl e ↦ rw e (DistinctKeys-add_rows next rows q h)
        | inr e ↦ rw e (
            DistinctKeys-add_rows (suc next) rows (q ++ record row { id = next } ∷ [])
              (DistinctKeys-snoc q (record row { id = next }) h (ground (arith, e))))
      ]

-- Rows whose keys are there already are all skipped, where the lookups are answered.
pub nothing_new :
    (answers : Answers) (next : ℕ) (rows : List NotificationOutbox) (q : Queue)
    → All (λ (r : NotificationOutbox). row_exists r.dedup_key q ≡ true) rows
    → All (λ (r : NotificationOutbox). is_query_failure (answers r) ≡ false) rows
    → enqueue_all answers next rows q ≡ ok (next, q)
unfolding enqueue enqueue_all
nothing_new answers next [] q h k = refl
nothing_new answers next (row ∷ rows) q h k =
    skipped_step answers next row rows q (ground (arith, h.0, k.0))
    ∙ nothing_new answers next rows q h.1 k.1
