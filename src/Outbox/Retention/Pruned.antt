-- ===== src/Outbox/Retention/Pruned.antt =====
-- What the deletion of old rows leaves (DeleteSentBefore in internal/db/notification_ops.go).
use status_dashboard_backend.Common.{
  ℕ, zero, suc, ◌+◌, ◌-◌, ◌<◌, ◌≡◌, refl, sym, ◌∙◌, arith, not, if_elim, ltb, [], ◌∷◌, keep, length,
  Bool-cases, inl, inr,
}
use status_dashboard_backend.Model.{Time, NotificationOutbox}
use status_dashboard_backend.Outbox.{Queue}
use status_dashboard_backend.Outbox.Retention.{
  expired, delete_batch, Pruning, pruned, interrupted, out_of_fuel, Surroundings, delete_rounds,
  delete_sent_before,
}

module _ (before : Time) where
  -- the rows that stay
  abbrev pub fresh : Queue → Queue
  fresh = keep (λ (r : NotificationOutbox). not (expired before r))

  abbrev pub expired_count : Queue → ℕ
  expired_count q = length (keep (expired before) q)

  fresh-delete_batch : (n : ℕ) (q : Queue) → fresh (delete_batch before n q) ≡ fresh q
  unfolding delete_batch
  fresh-delete_batch zero q = refl
  fresh-delete_batch (suc n) [] = refl
  fresh-delete_batch (suc n) (r ∷ q) =
      ground (arith, fresh-delete_batch n q, fresh-delete_batch (suc n) q)

  expired_count-delete_batch :
      (n : ℕ) (q : Queue) → expired_count (delete_batch before n q) ≡ expired_count q - n
  unfolding delete_batch
  expired_count-delete_batch zero q = omega arith
  expired_count-delete_batch (suc n) [] = omega arith
  expired_count-delete_batch (suc n) (r ∷ q) =
      ground (arith, expired_count-delete_batch n q, expired_count-delete_batch (suc n) q)

  length-delete_batch :
      (n : ℕ) (q : Queue)
      → length (delete_batch before n q) + expired_count q
        ≡ length q + expired_count (delete_batch before n q)
  unfolding delete_batch
  length-delete_batch zero q = refl
  length-delete_batch (suc n) [] = refl
  length-delete_batch (suc n) (r ∷ q) =
      ground (arith, length-delete_batch n q, length-delete_batch (suc n) q)

  fresh_idem : (q : Queue) → expired_count q ≡ 0 → fresh q ≡ q
  fresh_idem [] h = refl
  fresh_idem (r ∷ q) h = ground (arith, fresh_idem q)

  -- The deletion removed `total` rows before it came to the queue `q`.
  abbrev pub IsPruning : ℕ → Queue → Pruning → Type 0
  IsPruning total q (pruned n q') = (q' ≡ fresh q) × (n ≡ total + expired_count q)
  IsPruning total q (interrupted n q') =
      (fresh q' ≡ fresh q) × (n + expired_count q' ≡ total + expired_count q)
  IsPruning total q out_of_fuel = ⊥

module _ (s : Surroundings) (before : Time) (batch_size : ℕ) (positive : 0 < batch_size) where
  abbrev batch : Queue → Queue
  batch = delete_batch before batch_size

  abbrev removed : Queue → ℕ
  removed q = length q - length (batch q)

  -- The bounds of one batch.
  removed_lem :
      (q : Queue)
      → (length (batch q) + removed q ≡ length q)
        × (expired_count before (batch q) + removed q ≡ expired_count before q)
        × (removed q < batch_size → expired_count before (batch q) ≡ 0)
  removed_lem q =
      let l = length-delete_batch before batch_size q in
      let c = expired_count-delete_batch before batch_size q in
      (omega (arith, l, c), omega (arith, l, c), λ h. omega (arith, l, c, h))

  later-IsPruning :
      (total : ℕ) (q : Queue) (p : Pruning)
      → IsPruning before (total + removed q) (batch q) p
      → IsPruning before total q p
  later-IsPruning total q (pruned n q1) (e, c) =
      (e ∙ fresh-delete_batch before batch_size q, omega (arith, c, (removed_lem q).1))
  later-IsPruning total q (interrupted n q1) (e, c) =
      (e ∙ fresh-delete_batch before batch_size q, omega (arith, c, (removed_lem q).1))
  later-IsPruning total q out_of_fuel h = h

  last-IsPruning :
      (total : ℕ) (q : Queue)
      → removed q < batch_size
      → IsPruning before total q (pruned (total + removed q) (batch q))
  last-IsPruning total q h =
      let (l, c, z) = removed_lem q in
      (
        sym (fresh_idem before (batch q) (z h)) ∙ fresh-delete_batch before batch_size q,
        omega (arith, c, z h),
      )

  delete_rounds-IsPruning :
      (fuel n total : ℕ) (q : Queue)
      → length q < fuel
      → IsPruning before total q (delete_rounds s before batch_size fuel n total q)
  unfolding delete_rounds
  delete_rounds-IsPruning zero n total q h = omega (arith, h)
  delete_rounds-IsPruning (suc fuel) n total q h =
      if_elim (IsPruning before total q) (s.cancelled n) _ _ (λ _. (refl, refl))
        λ _.
          if_elim (IsPruning before total q) (s.fails n) _ _ (λ _. (refl, refl))
            λ _. elim (Bool-cases (ltb (removed q) batch_size)) [
              | inl e ↦ rw e (last-IsPruning total q (ground (arith, e)))
              | inr e ↦ rw e (
                  later-IsPruning total q _ (
                    delete_rounds-IsPruning fuel (suc n) (total + removed q) (batch q)
                      (ground (arith, e, (removed_lem q).0))))
            ]

  -- With more fuel than the queue has rows, and a positive batch size, the deletion comes to an end, whatever the
  -- context and the database do. It then has removed exactly the expired rows, and reports their number;
  -- where it was interrupted, it has removed expired rows only, as many as it reports.
  pub delete_sent_before-IsPruning :
      (fuel : ℕ) (q : Queue)
      → length q < fuel
      → IsPruning before 0 q (delete_sent_before s before batch_size fuel q)
  unfolding delete_sent_before
  delete_sent_before-IsPruning fuel q h = delete_rounds-IsPruning fuel 0 0 q h
