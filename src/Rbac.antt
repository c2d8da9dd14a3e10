-- ===== src/Rbac.antt =====
-- internal/api/rbac/rbac.go: role names from the identity provider to application roles.
pub mod Resolve
pub mod Parse
use status_dashboard_backend.Common.{
  ℕ, Bool, true, false, ◌||◌, not, if◌then◌else◌, ltb, leb, ◌==◌, nat_eq, text_eq, List, [], ◌∷◌,
  any, Text, split, trim_space, trim_prefix,
}

-- type Role int
abbrev pub Role : Type 0
Role = ℕ

abbrev pub no_role : Role
no_role = 0

abbrev pub reporter : Role
reporter = 5

abbrev pub creator : Role
creator = 10

abbrev pub operator : Role
operator = 30

abbrev pub admin : Role
admin = 50

pub record Config : Type 0 where
  pub creators : Text
  pub operators : Text
  pub admins : Text
  pub reporters : Text

-- A Go map to struct{} is the list of its keys; only membership is asked.
pub record Service : Type 0 where
  pub admins : List Text
  pub operators : List Text
  pub creators : List Text
  pub reporters : List Text

-- the loop of parseRoles over the pieces
unfoldable pub collect_roles : List Text → List Text
collect_roles [] = []
collect_roles (part ∷ parts) =
    let rest = collect_roles parts in
    let name = trim_prefix b'/' (trim_space part) in if name == [] then rest else name ∷ rest

unfoldable pub parse_roles : Text → List Text
unfolding collect_roles
parse_roles input = collect_roles (split b',' input)

unfoldable pub new : Config → Service
unfolding parse_roles
new cfg = record {
  admins = parse_roles cfg.admins;
  operators = parse_roles cfg.operators;
  creators = parse_roles cfg.creators;
  reporters = parse_roles cfg.reporters;
}

abbrev pub has : List Text → Text → Bool
has names name = any (λ n. n == name) names

unfoldable pub role_for_name : Service → Text → Role
role_for_name s name =
    if has s.admins name
    then admin
    else if has s.operators name
    then operator
    else if has s.creators name
    then creator
    else if has s.reporters name
    then reporter
    else no_role

unfoldable pub normalize_role_name : Text → Text
normalize_role_name name = trim_prefix b'/' name

-- the role that one name of a token grants
unfoldable pub granted : Service → Text → Role
unfolding role_for_name normalize_role_name
granted s name = role_for_name s (normalize_role_name name)

unfoldable pub has_authorized_role : Service → List Text → Bool
has_authorized_role s [] = false
has_authorized_role s (name ∷ names) =
    if not (granted s name == no_role) then true else has_authorized_role s names

-- the loop of ResolveRole, with its early return
unfoldable pub resolve_from : Service → Role → List Text → Role
resolve_from s current [] = current
resolve_from s current (name ∷ names) =
    let role = granted s name in
    let rest = resolve_from s (if ltb current role then role else current) names in
    if role == admin then admin else rest

unfoldable pub resolve_role : Service → List Text → Role
unfolding resolve_from
resolve_role s names = resolve_from s no_role names

unfoldable pub is_admin : Role → Bool
is_admin r = leb admin r

unfoldable pub can_approve : Role → Bool
can_approve r = leb operator r

unfoldable pub can_create : Role → Bool
can_create r = leb creator r

unfoldable pub is_reporter : Role → Bool
is_reporter r = r == reporter

unfoldable pub can_view_internal_fields : Role → Bool
can_view_internal_fields r = leb creator r
