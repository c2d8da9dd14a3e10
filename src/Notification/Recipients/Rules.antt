-- ===== src/Notification/Recipients/Rules.antt =====
-- Who is on the list of recipients, and that nobody is on it twice.
use status_dashboard_backend.Common.{
  ◌≡◌, refl, Bool, false, ◌&&◌, ◌||◌, not, if◌then◌else◌, ◌==◌, text_eq, eqb_text_iff, List, [],
  ◌∷◌, ◌++◌, any-append, arith, if_elim,
}
use status_dashboard_backend.Event.{Status}
use status_dashboard_backend.Model.{Email}
use status_dashboard_backend.Notification.Recipients.{
  Resolver, has, normalize_email, add, add_all, recipients, is_review_status, allowed_domain,
}

-- an address that no rule drops
abbrev pub eligible : Resolver → Email → Bool
eligible r e = not (e == []) && not (has r.excluded e)

-- the normalized address of one of the raw ones
abbrev pub has_raw : List Email → Email → Bool
has_raw [] e = false
has_raw (raw ∷ raws) e = normalize_email raw == e || has_raw raws e

abbrev pub Distinct : List Email → Type 0
Distinct [] = Unit
Distinct (e ∷ es) = (has es e ≡ false) × Distinct es

has_raw-append :
    (xs ys : List Email) (e : Email) → has_raw (xs ++ ys) e ≡ (has_raw xs e || has_raw ys e)
has_raw-append [] ys e = refl
has_raw-append (x ∷ xs) ys e = ground (arith, has_raw-append xs ys e)

has-add :
    (r : Resolver) (es : List Email) (raw e : Email)
    → has (add r es raw) e ≡ (has es e || normalize_email raw == e && eligible r e)
unfolding add
has-add r es raw e =
    let n = normalize_email raw in
    ground (
      arith,
      eqb_text_iff n e,
      eqb_text_iff n [],
      eqb_text_iff e [],
      any-append (λ (x : Email). x == e) es (n ∷ []),
    )

Distinct-snoc :
    (es : List Email) (n : Email) → Distinct es → has es n ≡ false → Distinct (es ++ n ∷ [])
Distinct-snoc [] n h new = (refl, tt)
Distinct-snoc (e ∷ es) n h new = (
  ground (
    arith,
    any-append (λ (x : Email). x == e) es (n ∷ []),
    eqb_text_iff n e,
    eqb_text_iff e n,
    h.0,
  ),
  Distinct-snoc es n h.1 (ground arith),
)

Distinct-add :
    (r : Resolver) (es : List Email) (raw : Email) → Distinct es → Distinct (add r es raw)
unfolding add
Distinct-add r es raw h =
    let n = normalize_email raw in
    if_elim Distinct (n == []) es _ (λ _. h)
      (λ _.
        if_elim Distinct (has r.excluded n) es _ (λ _. h)
          (λ _.
            if_elim Distinct (has es n) es (es ++ n ∷ []) (λ _. h)
              (λ new. Distinct-snoc es n h new)))

Distinct-add_all :
    (r : Resolver) (es raws : List Email) → Distinct es → Distinct (add_all r es raws)
unfolding add_all
Distinct-add_all r es [] h = h
Distinct-add_all r es (raw ∷ raws) h =
    Distinct-add_all r (add r es raw) raws (Distinct-add r es raw h)

-- No address is notified twice, whatever the configured lists repeat.
Distinct-recipients :
    (r : Resolver) (status : Status) (contact_email : Email)
    → Distinct (recipients r status contact_email)
unfolding recipients
Distinct-recipients r status contact_email =
    let audience = add_all r (add_all r (add r [] r.smod) r.operators) r.admins in
    let review = if is_review_status status then audience else [] in
    let distinct : Distinct review =
      if_elim Distinct (is_review_status status) audience []
        (λ _.
          Distinct-add_all r (add_all r (add r [] r.smod) r.operators) r.admins
            (Distinct-add_all r (add r [] r.smod) r.operators (Distinct-add r [] r.smod tt)))
        (λ _. tt) in
    if_elim Distinct (allowed_domain r.allowed contact_email) (add r review contact_email) review
      (λ _. Distinct-add r review contact_email distinct) (λ _. distinct)

has-add_all :
    (r : Resolver) (es raws : List Email) (e : Email)
    → has (add_all r es raws) e ≡ (has es e || has_raw raws e && eligible r e)
unfolding add_all
has-add_all r es [] e = ground arith
has-add_all r es (raw ∷ raws) e =
    ground (arith, has-add_all r (add r es raw) raws e, has-add r es raw e)

-- Exactly these addresses are notified: the eligible ones, not empty and not excluded, of the review
-- audience (SMOD, operators, admins) while the maintenance awaits a decision, and of its creator in every
-- state if the domain is allowed. Addresses are compared in their normalized form.
pub has-recipients :
    (r : Resolver) (status : Status) (contact_email e : Email)
    → has (recipients r status contact_email) e ≡ (
        eligible r e
        && (is_review_status status && has_raw (r.smod ∷ r.operators ++ r.admins) e
            || allowed_domain r.allowed contact_email && normalize_email contact_email == e))
unfolding recipients
has-recipients r status contact_email e = ground (
  arith,
  has-add r [] r.smod e,
  has-add_all r (add r [] r.smod) r.operators e,
  has-add_all r (add_all r (add r [] r.smod) r.operators) r.admins e,
  has-add r (add_all r (add_all r (add r [] r.smod) r.operators) r.admins) contact_email e,
  has-add r [] contact_email e,
  has_raw-append r.operators r.admins e,
)
