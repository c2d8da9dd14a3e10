-- ===== src/Store/Components.antt =====
-- internal/db/models.go and db.go: components, how they and incidents are printed, and their creation.
use status_dashboard_backend.Common.{
  ℕ, suc, String, ◌<>◌, string_eq, Bool, ◌&&◌, if◌then◌else◌, ◌==◌, nat_eq, Option, none, some,
  List, [], ◌∷◌, ◌++◌, any, find, Result, ok, err, decimal,
}
use status_dashboard_backend.Model.{ComponentAttr, Component, Incident}
use status_dashboard_backend.Store.Tables.{
  Db, DbError, component_not_exist, component_exists, region_missing,
}
use status_dashboard_backend.Store.Tx.{Driver, with_tx}

abbrev pub region_attr_name : String
region_attr_name = "region"

-- the value of the last attribute with the name, and the empty text without one
unfoldable pub last_value : String → String → List ComponentAttr → String
last_value name value [] = value
last_value name value (a ∷ attrs) =
    last_value name (if a.name == name then a.value else value) attrs

unfoldable pub region : Component → String
unfolding last_value
region c = last_value region_attr_name "" c.attrs

unfoldable pub component_type : Component → String
unfolding last_value
component_type c = last_value "type" "" c.attrs

unfoldable pub print_attrs : Component → String
unfolding last_value
print_attrs c =
    c.name
    <> " ("
    <> last_value "category" "" c.attrs
    <> ", "
    <> last_value region_attr_name "" c.attrs
    <> ", "
    <> last_value "type" "" c.attrs
    <> ")"

unfoldable pub link : Incident → String
unfolding decimal
link inc = "<a href='/incidents/" <> decimal inc.id <> "'>" <> inc.text <> "</a>"

unfoldable pub get_component : Db → ℕ → Result DbError Component
get_component db i = elim (find (λ c. c.id == i) db.components) [
  | none ↦ err component_not_exist
  | some c ↦ ok c
]

-- the first attribute that gives the region
unfoldable pub region_attr : List ComponentAttr → Option ComponentAttr
region_attr attrs = find (λ a. a.name == region_attr_name) attrs

-- a component with this name and this region
unfoldable pub same_place : String → String → Component → Bool
same_place name value c =
    c.name == name
    && any (λ (a : ComponentAttr). a.name == region_attr_name && a.value == value) c.attrs

unfoldable pub create_component : Component → Db → Result DbError (ℕ × Db)
create_component comp db = ok (
  db.next_component,
  record db {
    components = db.components ++ record comp { id = db.next_component } ∷ [];
    next_component = suc db.next_component;
  },
)

-- SaveComponent: the id of the new row
unfoldable pub save_component : Driver → Component → Db → Result DbError ℕ × Db
unfolding region_attr same_place create_component with_tx
save_component d comp db = elim (region_attr comp.attrs) [
  | none ↦ (err region_missing, db)
  | some a ↦
      if any (same_place comp.name a.value) db.components
      then (err component_exists, db)
      else with_tx d (create_component comp) db
]
