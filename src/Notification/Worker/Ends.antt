-- ===== src/Notification/Worker/Ends.antt =====
-- The drain of internal/notification/worker.go comes to an end, and how it ends.
use status_dashboard_backend.Common.{
  ℕ, zero, suc, ◌+◌, ◌*◌, ◌-◌, ◌≤◌, ◌<◌, ◌≡◌, refl, sym, ◌∙◌, true, false, nat_eq, if_elim, List,
  [], ◌∷◌, keep, take, any, All, arith, Bool-cases, ◌⊎◌, inl, inr, length,
}
use status_dashboard_backend.Model.{Time, NotificationOutbox}
use status_dashboard_backend.Outbox.{
  Queue, due, claim_row, write_claim_row, write_claim, claim_pending, has_id, stale, recover_row,
  recover_stale_processing, recovers, apply,
}
use status_dashboard_backend.Outbox.Claims.{Taken, write_claim-Taken_self}
use status_dashboard_backend.Outbox.Invariant.{AllSound, apply-AllSound, claim_pending-AllSound}
use status_dashboard_backend.Notification.Worker.{
  Worker, claim_batch_size, deliver, deliver_all, nothing_due, was_cancelled, database_failed,
  Drained, ended, out_of_fuel, go_on, after_claim, drain_rounds, drain,
}
use status_dashboard_backend.Notification.Worker.Measure.{
  work, work-le, DistinctIds, length-update_where, DistinctIds-update_where, Takes,
  work-write_claim,
}
use status_dashboard_backend.Notification.Worker.Delivery.{IsReady, deliver_claimed}

module _ (w : Worker) (positive : 0 < w.max_attempts) where
  -- What is known when a drain has ended, by its reason.
  abbrev pub Ends : Drained → Type 0
  Ends (ended nothing_due n q) = IsReady w.max_attempts q × (any (due (w.clock n)) q ≡ false)
  Ends (ended was_cancelled n q) =
      IsReady w.max_attempts q × ((w.cancelled n ≡ true) ⊎ (w.cancelled_row n ≡ true))
  Ends (ended database_failed n q) =
      IsReady w.max_attempts q × ((w.recover_fails ≡ true) ⊎ (w.claim_fails n ≡ true))
  Ends out_of_fuel = ⊥

  take_one :
      (xs : List NotificationOutbox) → (xs ≡ []) ⊎ ((x : NotificationOutbox) × (take 1 xs ≡ x ∷ []))
  take_one [] = inl refl
  take_one (x ∷ xs) = inr (x, refl)

  not_due : (now : Time) (q : Queue) → keep (due now) q ≡ [] → any (due now) q ≡ false
  not_due now [] e = refl
  not_due now (r ∷ q) e = elim (Bool-cases (due now r)) [
    | inl d ↦ cc (let f : r ∷ keep (due now) q ≡ [] = rw d at e in f)
    | inr d ↦ rw d (not_due now q (let f : keep (due now) q ≡ [] = rw d at e in f))
  ]

  claim_pending_none :
      (now : Time) (q : Queue)
      → keep (due now) q ≡ []
      → claim_pending now claim_batch_size w.lease_owner q ≡ ([], q)
  unfolding claim_pending
  claim_pending_none now q e = rw e

  claim_pending_one :
      (now : Time) (q : Queue) (r : NotificationOutbox)
      → Takes now q r
      → claim_pending now claim_batch_size w.lease_owner q
        ≡ (claim_row now w.lease_owner r ∷ [], write_claim now (claim_row now w.lease_owner r) q)
  unfolding claim_pending
  claim_pending_one now q r e = rw e

  -- A claim of one row keeps the queue ready, takes the row, and makes the queue lighter.
  claimed_one :
      (now : Time) (q : Queue) (r : NotificationOutbox)
      → Takes now q r
      → IsReady w.max_attempts q
      → let c = claim_row now w.lease_owner r in
        let q' = write_claim now c q in
        IsReady w.max_attempts q'
        × All (Taken c.id) q'
        × (work w.max_attempts q' < work w.max_attempts q)
  unfolding claim_row write_claim
  claimed_one now q r e h =
      let c = claim_row now w.lease_owner r in
      (
        (
          rw (claim_pending_one now q r e) at (
              claim_pending-AllSound w.max_attempts positive now claim_batch_size w.lease_owner q
                h.0),
          DistinctIds-update_where (has_id c.id) (write_claim_row now c) (λ s. refl) q h.1,
        ),
        write_claim-Taken_self now c q refl,
        work-write_claim w.max_attempts now w.lease_owner q r h.0 h.1 e,
      )

  go_on-Ends :
      (n : ℕ) (next : Queue → Drained) (c : NotificationOutbox) (q : Queue)
      → IsReady w.max_attempts q
      → Ends (next (deliver w n c q))
      → Ends (go_on n next (deliver_all w n (c ∷ []) q))
  unfolding deliver_all go_on
  go_on-Ends n next c q h k = elim (Bool-cases (w.cancelled_row n)) [
    | inl e ↦ rw e (h, inr e)
    | inr e ↦ rw e k
  ]

  -- One round after its tests: it ends the drain, or the next round meets a lighter queue.
  round-Ends :
      (n : ℕ) (next : Queue → Drained) (q : Queue)
      → IsReady w.max_attempts q
      → ((q' : Queue)
          → IsReady w.max_attempts q'
          → work w.max_attempts q' < work w.max_attempts q
          → Ends (next q'))
      → Ends (after_claim w n next (claim_pending (w.clock n) claim_batch_size w.lease_owner q))
  unfolding after_claim
  round-Ends n next q h k = elim (take_one (keep (due (w.clock n)) q)) [
    | inl e ↦ rw (claim_pending_none (w.clock n) q e) (h, not_due (w.clock n) q e)
    | inr (r, e) ↦
        let c = claim_row (w.clock n) w.lease_owner r in
        let q' = write_claim (w.clock n) c q in
        let (ready, taken, lighter) = claimed_one (w.clock n) q r e h in
        let (kept, no_heavier) = deliver_claimed w positive n c q' taken ready in
        rw (claim_pending_one (w.clock n) q r e)
          (go_on-Ends n next c q' ready (k (deliver w n c q') kept (omega arith)))
  ]

  drain_rounds-Ends :
      (fuel n : ℕ) (q : Queue)
      → IsReady w.max_attempts q
      → work w.max_attempts q < fuel
      → Ends (drain_rounds w fuel n q)
  unfolding drain_rounds
  drain_rounds-Ends zero n q h b = absurd (omega arith)
  drain_rounds-Ends (suc fuel) n q h b =
      if_elim Ends (w.cancelled n) _ _ (λ e. (h, inl e))
        λ _.
          if_elim Ends (w.claim_fails n) _ _ (λ e. (h, inr e))
            λ _.
              round-Ends n (drain_rounds w fuel (suc n)) q h
                λ q' h' b'. drain_rounds-Ends fuel (suc n) q' h' (omega arith)

  recovered_IsReady :
      (q : Queue)
      → IsReady w.max_attempts q
      → IsReady w.max_attempts (recover_stale_processing w.started w.lease_timeout w.max_attempts q)
  unfolding recover_stale_processing recover_row apply
  recovered_IsReady q h = (
    apply-AllSound w.max_attempts positive (w.backoff w.started) w.started
        (recovers w.lease_timeout) q tt h.0,
    DistinctIds-update_where (stale (w.started - w.lease_timeout))
        (recover_row w.started w.max_attempts) (λ r. ground arith) q h.1,
  )

  recovered_work :
      (q : Queue)
      → work w.max_attempts (recover_stale_processing w.started w.lease_timeout w.max_attempts q)
        ≤ (2 * w.max_attempts + 1) * length q
  unfolding recover_stale_processing
  recovered_work q =
      rw
        (← (
          length-update_where (stale (w.started - w.lease_timeout))
            (recover_row w.started w.max_attempts) q))
        (work-le w.max_attempts
          (recover_stale_processing w.started w.lease_timeout w.max_attempts q))

  -- A drain with more fuel than (2 * max_attempts + 1) rounds for each row comes to an end, whatever the
  -- mail server, the database, the clock and the context do, where the limit of attempts is positive
  -- and the queue is sound and has distinct ids. It keeps the queue so, and each reason to end is a
  -- true one: at the time of the round that returned no row of the queue was due, or that round met the
  -- cancelled context, or its claim failed (or the recovery before the rounds did).
  pub drain-Ends :
      (fuel : ℕ) (q : Queue)
      → AllSound w.max_attempts q
      → DistinctIds q
      → (2 * w.max_attempts + 1) * length q < fuel
      → Ends (drain w fuel q)
  unfolding drain
  drain-Ends fuel q h d b =
      if_elim Ends w.recover_fails _ _ (λ e. ((h, d), inl e))
        λ _.
          drain_rounds-Ends fuel 0
            (recover_stale_processing w.started w.lease_timeout w.max_attempts q)
            (recovered_IsReady q (h, d)) (omega (arith, recovered_work q))

-- No statement fails and the context is not cancelled.
pub record IsUndisturbed (w : Worker) : Type 0 where
  pub recovers : w.recover_fails ≡ false
  pub claims : (n : ℕ) → w.claim_fails n ≡ false
  pub goes_on : (n : ℕ) → w.cancelled n ≡ false
  pub goes_on_row : (n : ℕ) → w.cancelled_row n ≡ false

module _ (w : Worker) (positive : 0 < w.max_attempts) where
  undisturbed_end :
      (d : Drained)
      → IsUndisturbed w
      → Ends w positive d
      → (q : Queue) × (n : ℕ) × (d ≡ ended nothing_due n q) × (any (due (w.clock n)) q ≡ false)
  undisturbed_end (ended nothing_due n q) u (h, e) = (q, n, refl, e)
  undisturbed_end (ended was_cancelled n q) u (h, inl e) = cc (let f = u.goes_on n in sym f ∙ e)
  undisturbed_end (ended was_cancelled n q) u (h, inr e) = cc (let f = u.goes_on_row n in sym f ∙ e)
  undisturbed_end (ended database_failed n q) u (h, inl e) = cc (sym u.recovers ∙ e)
  undisturbed_end (ended database_failed n q) u (h, inr e) = cc (sym (u.claims n) ∙ e)
  undisturbed_end out_of_fuel u h = elim h [ ]

  -- Where the context is not cancelled and no recovery or claim fails, a drain of a sound queue with distinct ids and
  -- with that fuel delivers until nothing is due: the queue it leaves has no row that was due at
  -- the last round, even if every mail fails and every write of an outcome is lost.
  drain_nothing_due :
      (fuel : ℕ) (q : Queue)
      → IsUndisturbed w
      → AllSound w.max_attempts q
      → DistinctIds q
      → (2 * w.max_attempts + 1) * length q < fuel
      → (q' : Queue) × (n : ℕ) × (drain w fuel q ≡ ended nothing_due n q')
        × (any (due (w.clock n)) q' ≡ false)
  drain_nothing_due fuel q u h d b =
      undisturbed_end (drain w fuel q) u (drain-Ends w positive fuel q h d b)
