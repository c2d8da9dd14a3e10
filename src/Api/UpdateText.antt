-- ===== src/Api/UpdateText.antt =====
-- internal/api/v2/v2.go: the patch of the text of one update (PatchEventUpdateTextHandler). The binding, which asks for
-- a positive event id and a text, comes before; an update's id is its place in the event's history.
pub mod Rows
pub mod Patched
use status_dashboard_backend.Common.{
  ℕ, String, Option, none, some, List, [], ◌∷◌, get_elem?, Result, ok, err,
}
use status_dashboard_backend.Model.{Time, IncidentStatus}
use status_dashboard_backend.Store.Tables.{Db, DbError}
use status_dashboard_backend.Store.Lookup.{get_event_updates, modify_event_update}
use status_dashboard_backend.Api.Response.{update_not_exist, Refusal, status_not_found, internal}
use status_dashboard_backend.Api.View.{EventUpdateData}

-- the update that the handler hands to the database
abbrev pub retexted : String → Option String → IncidentStatus → IncidentStatus
retexted text user_id s = record s { text = text; modified_by = user_id }

unfoldable pub answer_update :
    ℕ → Db → Result DbError (IncidentStatus × Db) → Result Refusal EventUpdateData × Db
answer_update i db (err e) = (err internal, db)
answer_update i db (ok (s, db')) =
    (ok (record { id = i; status = s.status; text = s.text; timestamp = s.timestamp }), db')

-- the handler once the update is looked up
unfoldable pub patch_update :
    Time
    → Option String
    → ℕ
    → String
    → Db
    → Option IncidentStatus
    → Result Refusal EventUpdateData × Db
unfolding answer_update modify_event_update
patch_update now user_id i text db none = (err (status_not_found update_not_exist), db)
patch_update now user_id i text db (some s) =
    answer_update i db (modify_event_update now (retexted text user_id s) db)

unfoldable pub patch_event_update_text_handler :
    Time → Option String → ℕ → ℕ → String → Db → Result Refusal EventUpdateData × Db
unfolding patch_update get_event_updates
patch_event_update_text_handler now user_id event i text db =
    patch_update now user_id i text db (get_elem? (get_event_updates db event) i)
