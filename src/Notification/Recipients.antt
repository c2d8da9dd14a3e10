-- ===== src/Notification/Recipients.antt =====
-- internal/notification/resolver.go and the address rules of notification.go: the recipients of a
-- change. The map `seen` holds the keys of `ordered`, so membership is asked of the list itself.
pub mod Rules
use status_dashboard_backend.Common.{
  Bool, true, false, ◌||◌, if◌then◌else◌, ◌==◌, text_eq, Option, none, some, List, [], ◌∷◌, ◌++◌,
  any, Text, trim_space, to_lower, after_last,
}
use status_dashboard_backend.Event.{Status, pending_review, reviewed, status_eq}
use status_dashboard_backend.Model.{
  Email, Kind, kind_pending_review, kind_reviewed, kind_status_changed,
}

abbrev pub has : List Email → Email → Bool
has es e = any (λ x. x == e) es

unfoldable pub normalize_email : Email → Email
normalize_email e = to_lower (trim_space e)

unfoldable pub allowed_domain : List Text → Email → Bool
unfolding normalize_email
allowed_domain [] email = true
allowed_domain (d ∷ allowed) email = elim (after_last b'@' email) [
  | none ↦ false
  | some domain ↦ has (d ∷ allowed) (normalize_email domain)
]

unfoldable pub kind_for_status : Status → Kind
kind_for_status pending_review = kind_pending_review
kind_for_status reviewed = kind_reviewed
kind_for_status _ = kind_status_changed

unfoldable pub is_review_status : Status → Bool
is_review_status status = status == pending_review || status == reviewed

pub record Resolver : Type 0 where
  pub smod : Email
  pub operators : List Email
  pub admins : List Email
  pub excluded : List Email
  pub allowed : List Text

-- the closure `add` of Recipients
unfoldable pub add : Resolver → List Email → Email → List Email
unfolding normalize_email
add r ordered raw =
    let e = normalize_email raw in
    if e == []
    then ordered
    else if has r.excluded e
    then ordered
    else if has ordered e
    then ordered
    else ordered ++ e ∷ []

unfoldable pub add_all : Resolver → List Email → List Email → List Email
add_all r ordered [] = ordered
add_all r ordered (e ∷ es) = add_all r (add r ordered e) es

unfoldable pub recipients : Resolver → Status → Email → List Email
unfolding add_all is_review_status
recipients r status contact_email =
    let review =
      if is_review_status status
      then add_all r (add_all r (add r [] r.smod) r.operators) r.admins
      else [] in
    if allowed_domain r.allowed contact_email then add r review contact_email else review
