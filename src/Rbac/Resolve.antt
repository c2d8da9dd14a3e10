-- ===== src/Rbac/Resolve.antt =====
-- ResolveRole and HasAuthorizedRole (internal/api/rbac/rbac.go) against the highest granted role.
use status_dashboard_backend.Common.{
  ◌≡◌, ◌≢◌, ◌≤◌, ◌↔◌, true, nat_eq, max, List, [], ◌∷◌, ◌++◌, Text, arith,
}
use status_dashboard_backend.Rbac.{
  Role, Service, no_role, admin, granted, resolve_from, resolve_role, has_authorized_role,
}

-- The highest role that the names grant; `no_role` where there is none.
abbrev pub highest : Service → List Text → Role
highest s [] = no_role
highest s (name ∷ names) = max (granted s name) (highest s names)

granted-le : (s : Service) (name : Text) → granted s name ≤ admin
unfolding granted
granted-le s name = ground arith

highest-le : (s : Service) (names : List Text) → highest s names ≤ admin
highest-le s [] = omega arith
highest-le s (name ∷ names) = omega (arith, granted-le s, highest-le s names)

highest-append :
    (s : Service) (xs ys : List Text) → highest s (xs ++ ys) ≡ max (highest s xs) (highest s ys)
highest-append s [] ys = omega arith
highest-append s (x ∷ xs) ys = omega (arith, highest-append s xs ys)

authorized_highest :
    (s : Service) (names : List Text)
    → (has_authorized_role s names ≡ true) ↔ (highest s names ≢ no_role)
unfolding has_authorized_role
authorized_highest s [] = ground arith
authorized_highest s (name ∷ names) = ground (arith, authorized_highest s names)

resolve_from-eq :
    (s : Service) (current : Role) (names : List Text)
    → current ≤ admin
    → resolve_from s current names ≡ max current (highest s names)
unfolding resolve_from
resolve_from-eq s current [] h = omega arith
resolve_from-eq s current (name ∷ names) h = ground (
  arith,
  granted-le s name,
  highest-le s names,
  resolve_from-eq s (granted s name) names,
  resolve_from-eq s current names,
)

-- ResolveRole returns the highest role that any of the names grants, its early return included.
pub resolve_role-eq-highest :
    (s : Service) (names : List Text) → resolve_role s names ≡ highest s names
unfolding resolve_role
resolve_role-eq-highest s names = omega (arith, resolve_from-eq s no_role names)

-- HasAuthorizedRole holds exactly when ResolveRole returns a role other than NoRole, so the
-- middleware never stores NoRole for an authorized caller.
has_authorized_role_iff :
    (s : Service) (names : List Text)
    → (has_authorized_role s names ≡ true) ↔ (resolve_role s names ≢ no_role)
unfolding has_authorized_role
has_authorized_role_iff s names = rw (resolve_role-eq-highest s names) (authorized_highest s names)

-- The role of two lists of names is the higher of the two roles: the order of the names does not
-- matter, and a further name never lowers the role.
pub resolve_role-append :
    (s : Service) (xs ys : List Text)
    → resolve_role s (xs ++ ys) ≡ max (resolve_role s xs) (resolve_role s ys)
resolve_role-append s xs ys = simp resolve_role-eq-highest (highest-append s xs ys)
