-- ===== src/Outbox/Claims.antt =====
-- Leases exclude one another: what one claim took, the next claim does not take (ClaimPending in
-- internal/db/notification.go).
use status_dashboard_backend.Common.{
  ℕ, String, ◌≡◌, ◌≢◌, refl, true, false, ◌==◌, nat_eq, eqb_iff, List, [], ◌∷◌, map, any, keep,
  take, All, All-keep, All-take, All-map, arith, Bool-cases, inl, inr,
}
use status_dashboard_backend.Model.{Time, processing, NotificationOutbox}
use status_dashboard_backend.Store.Tables.{All-update_where}
use status_dashboard_backend.Outbox.{
  Queue, due, claim_row, write_claim_row, write_claim, write_claims, claim_pending, has_id,
}

-- The rows with this id are in processing.
abbrev pub Taken : ℕ → NotificationOutbox → Type 0
Taken i r = r.id ≡ i → r.status ≡ processing

abbrev InProcessing : NotificationOutbox → Type 0
InProcessing c = c.status ≡ processing

write_claim-Taken :
    (now : Time) (i : ℕ) (c : NotificationOutbox) (q : Queue)
    → InProcessing c
    → All (Taken i) q
    → All (Taken i) (write_claim now c q)
unfolding write_claim
write_claim-Taken now i c q p h =
    All-update_where (Taken i) (has_id c.id) (write_claim_row now c) q (λ r e t u. p) h

pub write_claim-Taken_self :
    (now : Time) (c : NotificationOutbox) (q : Queue)
    → InProcessing c
    → All (Taken c.id) (write_claim now c q)
unfolding write_claim
write_claim-Taken_self now c [] p = tt
write_claim-Taken_self now c (r ∷ q) p =
    (λ e. ground (arith, eqb_iff r.id c.id), write_claim-Taken_self now c q p)

write_claims-Taken :
    (now : Time) (i : ℕ) (cs : List NotificationOutbox) (q : Queue)
    → All InProcessing cs
    → All (Taken i) q
    → All (Taken i) (write_claims now cs q)
unfolding write_claims
write_claims-Taken now i [] q p h = h
write_claims-Taken now i (c ∷ cs) q p h =
    write_claims-Taken now i cs (write_claim now c q) p.1 (write_claim-Taken now i c q p.0 h)

claimed_Taken :
    (now : Time) (i : ℕ) (cs : List NotificationOutbox) (q : Queue)
    → All InProcessing cs
    → any (has_id i) cs ≡ true
    → All (Taken i) (write_claims now cs q)
unfolding write_claims
claimed_Taken now i [] q p h = cc
claimed_Taken now i (c ∷ cs) q p h = elim (Bool-cases (c.id == i)) [
  | inl e ↦
      write_claims-Taken now i cs (write_claim now c q) p.1
        (rw (← (eqb_iff c.id i).0 e) (write_claim-Taken_self now c q p.0))
  | inr e ↦ claimed_Taken now i cs (write_claim now c q) p.1 (ground arith)
]

claimed_InProcessing :
    (now : Time) (owner : String) (rs : List NotificationOutbox)
    → All InProcessing (map (claim_row now owner) rs)
unfolding claim_row
claimed_InProcessing now owner [] = tt
claimed_InProcessing now owner (r ∷ rs) = (refl, claimed_InProcessing now owner rs)

any-false :
    (i : ℕ) (cs : List NotificationOutbox)
    → All (λ (c : NotificationOutbox). c.id ≢ i) cs
    → any (has_id i) cs ≡ false
any-false i [] h = refl
any-false i (c ∷ cs) h = ground (arith, eqb_iff c.id i, any-false i cs h.1, h.0)

due-NotTaken :
    (now : Time) (i : ℕ) (owner : String) (r : NotificationOutbox)
    → due now r ≡ true
    → Taken i r
    → (claim_row now owner r).id ≢ i
unfolding due claim_row
due-NotTaken now i owner r d t e = ground (arith, t e)

-- A row that one claim took is not taken by the next one, whenever, by whom and in whatever batch
-- it runs, until an operation changes the row's status.
pub claim_pending_exclusive :
    (now later : Time) (n m : ℕ) (owner rival : String) (q : Queue) (i : ℕ)
    → any (has_id i) (claim_pending now n owner q).0 ≡ true
    → any (has_id i) (claim_pending later m rival (claim_pending now n owner q).1).0 ≡ false
unfolding claim_pending
claim_pending_exclusive now later n m owner rival q i h =
    let cs = map (claim_row now owner) (take n (keep (due now) q)) in
    let q' = write_claims now cs q in
    any-false i (map (claim_row later rival) (take m (keep (due later) q'))) (
      All-map _ _ (claim_row later rival) (take m (keep (due later) q'))
        (λ r s. due-NotTaken later i rival r s.0 s.1)
        (All-take _ m (keep (due later) q') (
          All-keep (Taken i) (due later) q' (
            claimed_Taken now i cs q (claimed_InProcessing now owner (take n (keep (due now) q)))
              h))))
