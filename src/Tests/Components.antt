-- ===== src/Tests/Components.antt =====
-- The theorems about components and about the texts of updates, on one component and a history of two.
use status_dashboard_backend.Common.{
  String, ◌≡◌, ◌⊎◌, refl, arith, none, true, some, List, [], ◌∷◌, get_elem?, Result, ok, err,
}
use status_dashboard_backend.Event.{planned, description, maintenance}
use status_dashboard_backend.Model.{ComponentAttr, Component}
use status_dashboard_backend.Store.Tables.{Db}
use status_dashboard_backend.Store.Tx.{reliable}
use status_dashboard_backend.Store.Lookup.{get_event_updates}
use status_dashboard_backend.Api.Response.{Refusal, status_not_found, component_not_exist}
use status_dashboard_backend.Api.UpdateText.{patch_event_update_text_handler}
use status_dashboard_backend.Api.UpdateText.Patched.{update_text_patched, IsShownAt, shown_place}
use status_dashboard_backend.Api.View.{map_event_updates}
use status_dashboard_backend.Api.Components.{post_component_handler, get_component_handler}
use status_dashboard_backend.Api.Components.Created.{IsComplete, get_component-post}
use status_dashboard_backend.Tests.Data.{update_at, tables}

abbrev attr : String → String → ComponentAttr
attr n v = record { name = n; value = v }

abbrev attrs : List ComponentAttr
attrs = attr "region" "eu" ∷ attr "type" "vm" ∷ attr "category" "compute" ∷ []

abbrev value_or : {E A : Type 0} → A → Result E A → A
value_or a (ok b) = b
value_or a (err e) = a

abbrev unset_component : Component
unset_component = record { id = 0; name = ""; attrs = [] }

abbrev creation : Result Refusal Component × Db
creation = post_component_handler reliable "Compute" attrs tables

creation_runs : creation ≡ (ok (value_or unset_component creation.0), creation.1)
unfolding post_component_handler
creation_runs = refl

unused :
    get_component_handler tables.next_component tables ≡ err (status_not_found component_not_exist)
unfolding get_component_handler
unused = refl

get_component-post_example :
    IsComplete attrs
    × (value_or unset_component creation.0 ≡ record { id = 1; name = "Compute"; attrs = attrs })
    × (get_component_handler (value_or unset_component creation.0).id creation.1
        ≡ ok (value_or unset_component creation.0))
get_component-post_example = get_component-post reliable "Compute" attrs tables unused creation_runs

abbrev two_updates : Db
two_updates = record tables { statuses = update_at 1 planned 90 ∷ update_at 2 planned 95 ∷ [] }

second_update : get_elem? (get_event_updates two_updates 7) 1 ≡ some (update_at 2 planned 95)
unfolding get_event_updates
second_update = refl

update_text_patched_example :
    (db' : Db) × (patch_event_update_text_handler 300 (some "anna") 7 1 "typo" two_updates
      ≡ (ok (record { id = 1; status = planned; text = "typo"; timestamp = 95 }), db'))
    × (get_elem? (get_event_updates db' 7) 1
        ≡ some (record (update_at 2 planned 95) { text = "typo"; modified_at = some 300 }))
    × (get_elem? (get_event_updates db' 7) 0 ≡ get_elem? (get_event_updates two_updates 7) 0)
    × (get_event_updates db' 8 ≡ get_event_updates two_updates 8)
    × ((planned ≡ description)
        ⊎ IsShownAt
            (map_event_updates (get_event_updates db' 7) true planned none maintenance).0
            (shown_place (get_event_updates two_updates 7) 1)
            (shown_place (get_event_updates two_updates 7) 1)
            "typo")
update_text_patched_example =
    update_text_patched 300 (some "anna") 7 1 "typo" two_updates 0 8 planned none maintenance
      ((omega arith, tt), (tt, tt)) second_update (omega arith) (omega arith)
