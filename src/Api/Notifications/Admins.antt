-- ===== src/Api/Notifications/Admins.antt =====
-- What the handlers of internal/api/v2/notifications.go show and change, and for whom.
use status_dashboard_backend.Common.{
  ℕ, ◌+◌, ◌≤◌, ◌≡◌, refl, ◌∙◌, ap, arith, ℤ, pos, String, Text, Bool, true, false, ◌&&◌, ◌||◌,
  if◌then◌else◌, ltb, ◌==◌, nat_eq, eqb_iff, Option, some, none, List, [], ◌∷◌, any, keep, length,
  Result, ok, err, ◌>>=◌, >>=-eq-ok, subst, sym, negsuc, Result-cases, Option-cases, inl, inr,
}
use status_dashboard_backend.Model.{Time, pending, failed, NotificationOutbox}
use status_dashboard_backend.Rbac.{admin}
use status_dashboard_backend.Outbox.{Queue, delivery_eq, redriven, redrive_row, redrive_failed}
use status_dashboard_backend.Outbox.Listing.{list_notifications_by_status}
use status_dashboard_backend.Outbox.Listing.Sorted.{IsListed, list-IsListed}
use status_dashboard_backend.Api.Response.{
  ApiError, auth_forbidden, Refusal, forbidden, Caller, or_bad_request,
}
use status_dashboard_backend.Api.Notifications.{
  max_failed_list_limit, require_admin, listed_status, checked_list_limit, parse_list_limit,
  NotificationList, get_failed_notifications_handler, RedriveBody, redrive_ids, answer_redrive,
  redrive_notifications_handler,
}

admitted : (c : Caller) → require_admin c ≡ ok tt → c.role ≡ some admin
unfolding require_admin
admitted c h = elim (Option-cases c.role) [
  | inl e ↦ cc (let f : err (forbidden auth_forbidden) ≡ ok tt = rw (e, require_admin) at h in f)
  | inr (role, e) ↦
      let k = rw (e, require_admin) at h in
      let g : role ≡ admin = ground (arith, k, eqb_iff role admin) in e ∙ ap some g
]

bounded :
    (atoi : Text → Option ℤ) (raw : Text) {n : ℕ}
    → parse_list_limit atoi raw ≡ ok n
    → (1 ≤ n) × (n ≤ max_failed_list_limit)
unfolding parse_list_limit checked_list_limit
bounded atoi [] h = ground arith
bounded atoi (x ∷ raw) h = elim (Option-cases (atoi (x ∷ raw))) [
  | inl e ↦ ground (arith, e)
  | inr (pos n, e) ↦ ground (arith, e)
  | inr (negsuc n, e) ↦ ground (arith, e)
]

right_ok : {A : Type 0} (r : Result ApiError A) {a : A} → or_bad_request r ≡ ok a → r ≡ ok a
right_ok (ok x) h = ground arith
right_ok (err x) h = cc

-- The list of the queue is shown to admins only: rows of one status, the latest updates first, at most
-- 1000 of them, and as many as the limit and the queue allow. With the rows left out they are the rows of the
-- queue that have the status, and no row left out was updated later than a listed one.
pub handler-IsListed :
    (atoi : Text → Option ℤ) (c : Caller) (status : Option String) (limit : Text) (q : Queue)
    {l : NotificationList}
    → get_failed_notifications_handler atoi c status limit q ≡ ok l
    → (c.role ≡ some admin)
      × (1 ≤ l.limit)
      × (l.limit ≤ max_failed_list_limit)
      × IsListed l.status l.limit q l.rows
unfolding get_failed_notifications_handler
handler-IsListed atoi c status limit q {l} h =
    let (u, a, h1) = >>=-eq-ok (require_admin c) _ h in
    let (s, b, h2) = >>=-eq-ok (or_bad_request (listed_status status)) _ h1 in
    let (n, e, h3) = >>=-eq-ok (or_bad_request (parse_list_limit atoi limit)) _ h2 in
    let shown : NotificationList = record {
      rows = list_notifications_by_status s (pos n) q;
      status = s;
      limit = n;
    } in
    let (least, most) = bounded atoi limit (right_ok (parse_list_limit atoi limit) e) in
    let same : shown ≡ l = cc in
    subst
      (λ (x : NotificationList).
        (c.role ≡ some admin)
        × (1 ≤ x.limit)
        × (x.limit ≤ max_failed_list_limit)
        × IsListed x.status x.limit q x.rows)
      same (admitted c a, least, most, list-IsListed s n q)

abbrev pub failed_count : Queue → ℕ
failed_count q = length (keep (λ (r : NotificationOutbox). r.status == failed) q)

module _ (now : Time) where
  counted :
      (ids : List ℕ) (q : Queue)
      → (redrive_failed now ids q).0 + failed_count (redrive_failed now ids q).1 ≡ failed_count q
  unfolding redrive_failed redriven redrive_row
  counted ids [] = refl
  counted [] (r ∷ q) = ground (arith, counted [] q)
  counted (i ∷ ids) (r ∷ q) = ground (arith, counted (i ∷ ids) q)

  -- The row is pending again, due now and never tried.
  pub record IsRenewed (r r' : NotificationOutbox) : Type 0 where
    pub same_id : r'.id ≡ r.id
    pub same_mail : r'.payload ≡ r.payload
    pub same_recipient : r'.recipient ≡ r.recipient
    pub same_key : r'.dedup_key ≡ r.dedup_key
    pub status : r'.status ≡ pending
    pub attempts : r'.attempts ≡ 0
    pub due : r'.next_attempt_at ≡ some now
    pub unleased : (r'.locked_by ≡ none) × (r'.locked_at ≡ none)
    pub no_error : r'.last_error ≡ none

  abbrev pub Becomes : Bool → NotificationOutbox → NotificationOutbox → Type 0
  Becomes true r r' = IsRenewed r r'
  Becomes false r r' = r' ≡ r

  -- A failed row that was asked for, by its id or by no ids at all, is renewed, and every other row stays.
  abbrev pub Redrives : List ℕ → NotificationOutbox → NotificationOutbox → Type 0
  Redrives ids r r' =
      Becomes (r.status == failed && (length ids == 0 || any (λ i. i == r.id) ids)) r r'

  -- The queue row by row.
  abbrev pub RowByRow : List ℕ → Queue → Queue → Type 0
  RowByRow ids [] [] = Unit
  RowByRow ids (r ∷ q) (r' ∷ q') = Redrives ids r r' × RowByRow ids q q'
  RowByRow ids [] (r' ∷ q') = ⊥
  RowByRow ids (r ∷ q) [] = ⊥

  renewed : (r : NotificationOutbox) → IsRenewed r (redrive_row now r)
  unfolding redrive_row
  renewed r = record {
    same_id = refl;
    same_mail = refl;
    same_recipient = refl;
    same_key = refl;
    status = refl;
    attempts = refl;
    due = refl;
    unleased = (refl, refl);
    no_error = refl;
  }

  redriven-eq :
      (ids : List ℕ) (r : NotificationOutbox)
      → (r.status == failed && (length ids == 0 || any (λ i. i == r.id) ids)) ≡ redriven ids r
  unfolding redriven
  redriven-eq [] r = ground arith
  redriven-eq (i ∷ ids) r = ground arith

  by_test :
      (ids : List ℕ) (r : NotificationOutbox) (b : Bool)
      → (r.status == failed && (length ids == 0 || any (λ i. i == r.id) ids)) ≡ b
      → Redrives ids r (if b then redrive_row now r else r)
  by_test ids r true e = subst (λ b. Becomes b r (redrive_row now r)) (sym e) (renewed r)
  by_test ids r false e = subst (λ b. Becomes b r r) (sym e) refl

  redrive_failed-RowByRow : (ids : List ℕ) (q : Queue) → RowByRow ids q (redrive_failed now ids q).1
  unfolding redrive_failed
  redrive_failed-RowByRow ids [] = tt
  redrive_failed-RowByRow ids (r ∷ q) =
      (by_test ids r (redriven ids r) (redriven-eq ids r), redrive_failed-RowByRow ids q)

  -- What the re-drive did, by its answer.
  abbrev pub IsAnswered : Caller → RedriveBody → Queue → Result Refusal (ℕ × Bool) × Queue → Type 0
  IsAnswered c body q (err refusal, q') = q' ≡ q
  IsAnswered c body q (ok (count, woken), q') =
      (c.role ≡ some admin)
      × (ids : List ℕ) × (redrive_ids body ≡ ok ids)
      × RowByRow ids q q'
      × (count + failed_count q' ≡ failed_count q)
      × (woken ≡ ltb 0 count)

  -- A re-drive that is refused leaves the queue as it was. One that succeeds is an admin's: each failed row among
  -- those asked for (all of them where no ids are given) becomes pending, due now, with no attempt, lease or error, every
  -- other row stays as it is, and the answer is the number of rows that are failed no more.
  pub redrive-IsAnswered :
      (c : Caller) (body : RedriveBody) (q : Queue)
      → IsAnswered c body q (redrive_notifications_handler now c body q)
  unfolding redrive_notifications_handler answer_redrive
  redrive-IsAnswered c body q =
      elim (Result-cases (require_admin c >>= λ _. or_bad_request (redrive_ids body))) [
        | inl (ids, e) ↦
            let (u, a, b) = >>=-eq-ok (require_admin c) _ e in
            rw (e, IsAnswered, redrive_notifications_handler)
              (
                admitted c a,
                ids,
                right_ok (redrive_ids body) b,
                redrive_failed-RowByRow ids q,
                counted ids q,
                refl,
              )
        | inr (x, e) ↦ rw (e, IsAnswered, redrive_notifications_handler) refl
      ]
