-- ===== src/Store/Sql.antt =====
-- The conditions of the queries in internal/db/db.go and raw.go on the nullable column `status`: a truth
-- value of SQL is true, false or NULL (`none`), and WHERE takes the rows whose condition is true.
use status_dashboard_backend.Common.{◌≡◌, refl, Bool, true, false, ◌&&◌, not, Option, none, some}
use status_dashboard_backend.Event.{Status}
use status_dashboard_backend.Store.Tables.{IncidentRow}

abbrev pub Truth : Type 0
Truth = Option Bool

abbrev pub sql_not : Truth → Truth
sql_not none = none
sql_not (some b) = some (not b)

abbrev pub sql_and : Truth → Truth → Truth
sql_and (some true) q = q
sql_and (some false) q = some false
sql_and none none = none
sql_and none (some true) = none
sql_and none (some false) = some false

-- WHERE
abbrev pub holds : Truth → Bool
holds none = false
holds (some b) = b

-- status IN (…), where the given test is membership in the list
abbrev pub status_in : (Status → Bool) → IncidentRow → Truth
status_in p row = elim row.status [ none ↦ none | some s ↦ some (p s) ]

pub holds-sql_and : (a b : Truth) → holds (sql_and a b) ≡ (holds a && holds b)
holds-sql_and none none = refl
holds-sql_and none (some true) = refl
holds-sql_and none (some false) = refl
holds-sql_and (some true) b = refl
holds-sql_and (some false) b = refl

pub sql_and_assoc : (a b c : Truth) → sql_and (sql_and a b) c ≡ sql_and a (sql_and b c)
sql_and_assoc (some true) b c = refl
sql_and_assoc (some false) b c = refl
sql_and_assoc none (some true) c = refl
sql_and_assoc none (some false) none = refl
sql_and_assoc none (some false) (some true) = refl
sql_and_assoc none (some false) (some false) = refl
sql_and_assoc none none none = refl
sql_and_assoc none none (some true) = refl
sql_and_assoc none none (some false) = refl

-- The two rules of visibility on a status that is not NULL, and on NULL.
pub holds-rules :
    (m a b n : Bool)
    → (holds (sql_not (sql_and (some m) (some a)))
        && holds (sql_not (sql_and (some m) (sql_and (some b) (some n)))))
      ≡ (not (m && a) && not (m && (b && n)))
holds-rules true a true n = refl
holds-rules true a false n = refl
holds-rules false a b n = refl

pub holds-rules_null :
    (m n : Bool)
    → (holds (sql_not (sql_and (some m) none))
        && holds (sql_not (sql_and (some m) (sql_and none (some n)))))
      ≡ not m
holds-rules_null true n = refl
holds-rules_null false true = refl
holds-rules_null false false = refl
