-- ===== src/Api/Components.antt =====
-- internal/api/v2/v2.go: the creation and the reads of components. The bindings of the bodies come before.
pub mod Created
use status_dashboard_backend.Common.{
  ℕ, String, string_eq, Bool, true, false, ◌&&◌, ◌||◌, not, if◌then◌else◌, ◌==◌, nat_eq, List, [],
  ◌∷◌, any, map, length, Result, ok, err, ◌>>◌, fail_if,
}
use status_dashboard_backend.Model.{ComponentAttr, Component}
use status_dashboard_backend.Store.Tables.{Db, DbError, component_exists}
use status_dashboard_backend.Store.Tx.{Driver}
use status_dashboard_backend.Store.Components.{get_component, save_component}
use status_dashboard_backend.Api.Response.{
  ApiError, component_exist, component_attr_invalid_format, component_not_exist, Refusal,
  bad_request, status_not_found, internal,
}

abbrev pub available_attrs : List String
available_attrs = "type" ∷ "region" ∷ "category" ∷ []

abbrev pub has_name : List String → String → Bool
has_name names s = any (λ n. n == s) names

-- the loop over the attributes, with the names seen so far; the result is all names seen
unfoldable pub see_attrs : List String → List ComponentAttr → Result ApiError (List String)
see_attrs seen [] = ok seen
see_attrs seen (a ∷ attrs) =
    let rest = see_attrs (a.name ∷ seen) attrs in
    if not (has_name available_attrs a.name)
    then err component_attr_invalid_format
    else if has_name seen a.name
    then err component_attr_invalid_format
    else rest

-- the loop over the required names
unfoldable pub all_seen : List String → List String → Result ApiError (Unit {0})
all_seen seen [] = ok tt
all_seen seen (n ∷ names) =
    fail_if (not (has_name seen n)) component_attr_invalid_format >> all_seen seen names

unfoldable pub then_all_seen : Result ApiError (List String) → Result ApiError (Unit {0})
unfolding all_seen
then_all_seen (ok seen) = all_seen seen available_attrs
then_all_seen (err e) = err e

unfoldable pub check_component_attrs : List ComponentAttr → Result ApiError (Unit {0})
unfolding see_attrs then_all_seen
check_component_attrs attrs =
    fail_if (not (length attrs == 3)) component_attr_invalid_format
    >> then_all_seen (see_attrs [] attrs)

unfoldable pub answer_component :
    String → List ComponentAttr → Result DbError ℕ × Db → Result Refusal Component × Db
answer_component name attrs (ok i, db) = (ok (record { id = i; name = name; attrs = attrs }), db)
answer_component name attrs (err component_exists, db) = (err (bad_request component_exist), db)
answer_component name attrs (err _, db) = (err internal, db)

unfoldable pub post_component_handler :
    Driver → String → List ComponentAttr → Db → Result Refusal Component × Db
unfolding check_component_attrs answer_component save_component
post_component_handler d name attrs db = elim (check_component_attrs attrs) [
  | err e ↦ (err (bad_request e), db)
  | ok _ ↦
      answer_component name attrs
        (save_component d (record { id = 0; name = name; attrs = attrs }) db)
]

unfoldable pub get_component_handler : ℕ → Db → Result Refusal Component
unfolding get_component
get_component_handler i db = elim (get_component db i) [
  | err e ↦ err (status_not_found component_not_exist)
  | ok c ↦ ok c
]
