-- ===== src/Notification/Worker/Measure.antt =====
-- The measure of the worker's loop (internal/notification/worker.go): what the queue can still ask of it.
-- A pending row weighs two for each attempt left, and a claimed row one more than the same row pending.
use status_dashboard_backend.Common.{
  ℕ, suc, ◌+◌, ◌-◌, ◌*◌, ◌≤◌, ◌<◌, String, ◌≡◌, ◌≢◌, refl, sym, ◌∙◌, subst, ap, Bool, true, false,
  nat_eq, eqb_iff, if◌then◌else◌, [], ◌∷◌, keep, take, All, All-keep, All-take, arith, Bool-cases,
  inl, inr, length,
}
use status_dashboard_backend.Model.{
  Time, Delivery, pending, processing, sent, failed, NotificationOutbox,
}
use status_dashboard_backend.Store.Tables.{update_where}
use status_dashboard_backend.Outbox.{
  Queue, delivery_eq, due, claim_row, write_claim_row, write_claim, has_id,
}
use status_dashboard_backend.Outbox.Invariant.{AllSound, IsSound}

module _ (max_attempts : ℕ) where
  abbrev weight_at : Delivery → ℕ → ℕ
  weight_at pending attempts = 2 * (max_attempts - attempts)
  weight_at processing attempts = 2 * (max_attempts - attempts) + 1
  weight_at sent attempts = 0
  weight_at failed attempts = 0

  abbrev pub weight : NotificationOutbox → ℕ
  weight r = weight_at r.status r.attempts

  abbrev pub work : Queue → ℕ
  work [] = 0
  work (r ∷ q) = weight r + work q

  weight_at-le : (s : Delivery) (a : ℕ) → weight_at s a ≤ 2 * max_attempts + 1
  weight_at-le pending a = omega arith
  weight_at-le processing a = omega arith
  weight_at-le sent a = omega arith
  weight_at-le failed a = omega arith

  pub work-le : (q : Queue) → work q ≤ (2 * max_attempts + 1) * length q
  work-le [] = omega arith
  work-le (r ∷ q) = grind (arith, work-le q, weight_at-le r.status r.attempts)

-- The ids of the rows are distinct, as those of a primary key.
abbrev pub DistinctIds : Queue → Type 0
DistinctIds [] = Unit
DistinctIds (r ∷ q) = All (λ (s : NotificationOutbox). s.id ≢ r.id) q × DistinctIds q

module _ (p : NotificationOutbox → Bool) (f : NotificationOutbox → NotificationOutbox) where
  pub length-update_where : (q : Queue) → length (update_where p f q) ≡ length q
  length-update_where [] = refl
  length-update_where (r ∷ q) = ap suc (length-update_where q)

  module _ (same_id : (r : NotificationOutbox) → (f r).id ≡ r.id) where
    id-update : (r : NotificationOutbox) → (if p r then f r else r).id ≡ r.id
    id-update r = ground (arith, same_id r)

    ids-update_where :
        (i : ℕ) (q : Queue)
        → All (λ (s : NotificationOutbox). s.id ≢ i) q
        → All (λ (s : NotificationOutbox). s.id ≢ i) (update_where p f q)
    ids-update_where i [] h = tt
    ids-update_where i (r ∷ q) h = (λ e. h.0 (sym (id-update r) ∙ e), ids-update_where i q h.1)

    pub DistinctIds-update_where : (q : Queue) → DistinctIds q → DistinctIds (update_where p f q)
    DistinctIds-update_where [] h = tt
    DistinctIds-update_where (r ∷ q) h = (
      subst (λ i. All (λ (s : NotificationOutbox). s.id ≢ i) (update_where p f q))
          (sym (id-update r)) (ids-update_where r.id q h.0),
      DistinctIds-update_where q h.1,
    )

  update_where_none :
      (q : Queue) → All (λ (r : NotificationOutbox). p r ≡ false) q → update_where p f q ≡ q
  update_where_none [] h = refl
  update_where_none (r ∷ q) h = ground (arith, h.0, update_where_none q h.1)

  -- A write that makes no selected row heavier makes the queue no heavier.
  pub work-update_where :
      (max_attempts : ℕ) (P : NotificationOutbox → Type 0)
      → ((r : NotificationOutbox)
          → p r ≡ true
          → P r
          → weight max_attempts (f r) ≤ weight max_attempts r)
      → (q : Queue) → All P q
      → work max_attempts (update_where p f q) ≤ work max_attempts q
  work-update_where max_attempts P k [] h = omega arith
  work-update_where max_attempts P k (r ∷ q) h = elim (Bool-cases (p r)) [
    | inl e ↦ rw e (omega (arith, k r e h.0, work-update_where max_attempts P k q h.1))
    | inr e ↦ rw e (omega (arith, work-update_where max_attempts P k q h.1))
  ]

-- the row that a claim of one takes
abbrev pub Takes : Time → Queue → NotificationOutbox → Type 0
Takes now q r = take 1 (keep (due now) q) ≡ r ∷ []

module _ (max_attempts : ℕ) (now : Time) (owner : String) where
  claimed_weight :
      (r : NotificationOutbox)
      → due now r ≡ true
      → IsSound max_attempts r
      → weight max_attempts (write_claim_row now (claim_row now owner r) r) < weight max_attempts r
  unfolding due claim_row write_claim_row
  claimed_weight r d s = ground arith

  others_unselected :
      (i : ℕ) (q : Queue)
      → All (λ (s : NotificationOutbox). s.id ≢ i) q
      → All (λ (s : NotificationOutbox). has_id i s ≡ false) q
  others_unselected i [] h = tt
  others_unselected i (s ∷ q) h = (ground (arith, eqb_iff s.id i, h.0), others_unselected i q h.1)

  taken_All :
      (P : NotificationOutbox → Type 0) (q : Queue) (r : NotificationOutbox)
      → Takes now q r
      → All P q
      → (due now r ≡ true) × P r
  taken_All P q r t h =
      (subst (All (λ (s : NotificationOutbox). (due now s ≡ true) × P s)) t
        (All-take _ 1 (keep (due now) q) (All-keep P (due now) q h))).0

  work-write_claim_first :
      (r : NotificationOutbox) (q : Queue)
      → due now r ≡ true
      → IsSound max_attempts r
      → All (λ (s : NotificationOutbox). s.id ≢ r.id) q
      → work max_attempts (write_claim now (claim_row now owner r) (r ∷ q))
        < work max_attempts (r ∷ q)
  unfolding write_claim claim_row
  work-write_claim_first r q d s h = ground (
    arith,
    eqb_iff r.id r.id,
    claimed_weight r d s,
    update_where_none (has_id r.id) (write_claim_row now (claim_row now owner r)) q
        (others_unselected r.id q h),
  )

  work-write_claim_later :
      (x r : NotificationOutbox) (q : Queue)
      → r.id ≢ x.id
      → work max_attempts (write_claim now (claim_row now owner r) q) < work max_attempts q
      → work max_attempts (write_claim now (claim_row now owner r) (x ∷ q))
        < work max_attempts (x ∷ q)
  unfolding write_claim claim_row
  work-write_claim_later x r q h k = ground (arith, eqb_iff x.id r.id)

  -- A claim makes the queue strictly lighter, since the row it takes has an attempt left.
  pub work-write_claim :
      (q : Queue) (r : NotificationOutbox)
      → AllSound max_attempts q
      → DistinctIds q
      → Takes now q r
      → work max_attempts (write_claim now (claim_row now owner r) q) < work max_attempts q
  work-write_claim [] r h d t =
      absurd (let e : length {A = NotificationOutbox} [] ≡ 1 = ap length t in omega arith)
  work-write_claim (x ∷ q) r h d t = elim (Bool-cases (due now x)) [
    | inl e ↦
        let same : x ∷ [] ≡ r ∷ [] = rw e at t in
        subst
          (λ y.
            work max_attempts (write_claim now (claim_row now owner y) (x ∷ q))
            < work max_attempts (x ∷ q))
          (let same_row : x ≡ r = cc in same_row) (work-write_claim_first x q e h.0 d.0)
    | inr e ↦
        let later : Takes now q r = rw e at t in
        work-write_claim_later x r q
          (taken_All (λ (s : NotificationOutbox). s.id ≢ x.id) q r later d.0).1
          (work-write_claim q r h.1 d.1 later)
  ]
