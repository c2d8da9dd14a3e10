-- ===== src/Rbac/Parse.antt =====
-- The configured lists of role names (parseRoles in internal/api/rbac/rbac.go).
use status_dashboard_backend.Common.{
  ◌≡◌, ◌≢◌, refl, text_eq, eqb_text_iff, List, [], ◌∷◌, Text, All, Avoids, join, split-join,
  trim_space, trim_prefix, arith,
}
use status_dashboard_backend.Rbac.{collect_roles, parse_roles}

-- A role name as an administrator writes it: no comma, no space around it, no leading slash.
pub record IsPlainName (name : Text) : Type 0 where
  pub no_comma : Avoids b',' name
  pub trimmed : trim_space name ≡ name
  pub no_slash : trim_prefix b'/' name ≡ name
  pub not_empty : name ≢ []

collect_plain : (names : List Text) → All IsPlainName names → collect_roles names ≡ names
unfolding collect_roles
collect_plain [] h = refl
collect_plain (n ∷ names) h =
    rw (h.0.trimmed, h.0.no_slash)
      (ground (arith, eqb_text_iff n [], collect_plain names h.1, h.0.not_empty))

plain_Avoids : (names : List Text) → All IsPlainName names → All (Avoids b',') names
plain_Avoids [] h = tt
plain_Avoids (n ∷ names) h = (h.0.no_comma, plain_Avoids names h.1)

-- A comma-separated list of plain names is read back as these names, in their order.
parse_roles-join :
    (name : Text) (names : List Text)
    → All IsPlainName (name ∷ names)
    → parse_roles (join b',' (name ∷ names)) ≡ name ∷ names
unfolding parse_roles
parse_roles-join name names h =
    rw (split-join b',' name names (plain_Avoids (name ∷ names) h)) (collect_plain (name ∷ names) h)
