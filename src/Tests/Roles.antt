-- ===== src/Tests/Roles.antt =====
-- The theorems of Rbac on a small configuration.
use status_dashboard_backend.Common.{◌≡◌, [], ◌∷◌, Text}
use status_dashboard_backend.Rbac.{Service, resolve_role}
use status_dashboard_backend.Rbac.Resolve.{highest, resolve_role-eq-highest}

abbrev ops : Text
ops = b'o' ∷ b'p' ∷ b's' ∷ []

abbrev root : Text
root = b'r' ∷ b'o' ∷ b'o' ∷ b't' ∷ []

abbrev service : Service
service = record { admins = root ∷ []; operators = ops ∷ []; creators = []; reporters = [] }

resolve_role-eq-highest_example :
    resolve_role service (ops ∷ root ∷ []) ≡ highest service (ops ∷ root ∷ [])
resolve_role-eq-highest_example = resolve_role-eq-highest service (ops ∷ root ∷ [])
