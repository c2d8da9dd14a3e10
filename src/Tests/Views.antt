-- ===== src/Tests/Views.antt =====
-- The theorems on what is shown, on the events of the tests.
use status_dashboard_backend.Common.{
  ◌≡◌, refl, false, ◌||◌, ◌&&◌, ◌==◌, if◌then◌else◌, none, some, [], ◌∷◌, All, ok, err,
}
use status_dashboard_backend.Event.{
  Status-discrete, in_progress, reviewed, maintenance, event_type_eq,
}
use status_dashboard_backend.Model.{Incident}
use status_dashboard_backend.Store.Read.{find_row, with_statuses}
use status_dashboard_backend.Store.Events.{
  public_event_predicates, get_events_with_count, IncidentsParams,
}
use status_dashboard_backend.Api.Response.{status_not_found, incident_not_exist}
use status_dashboard_backend.Api.View.{to_api_event, is_internal_status}
use status_dashboard_backend.Api.View.Updates.{to_api_event_public}
use status_dashboard_backend.Api.Visible.{
  get_incident_handler, get_incident_handler_lem, show_event, has_no_status,
}
use status_dashboard_backend.Api.Visible.Listed.{get_events_with_count_public}
use status_dashboard_backend.Tests.Data.{window, withdrawn, tables, tables_with, row_of, update_at}
use status_dashboard_backend.Tests.Stores.{second_page}

-- a maintenance with a review in its history
abbrev approved : Incident
approved = record window {
  status = in_progress;
  statuses = update_at 1 reviewed 80 ∷ update_at 2 in_progress 100 ∷ [];
}

not_internal : is_internal_status in_progress ≡ false
unfolding is_internal_status
not_internal = refl

to_api_event_public_example :
    All (λ u. is_internal_status u.status ≡ false) (to_api_event approved false).updates
    × ((to_api_event approved false).contact_email ≡ [])
    × ((to_api_event approved false).created_by ≡ "")
    × ((to_api_event approved false).version ≡ none)
to_api_event_public_example = to_api_event_public approved not_internal

found : find_row (tables_with withdrawn) 7 ≡ some (row_of withdrawn)
unfolding find_row
found = refl

get_incident_handler_example : get_incident_handler (tables_with withdrawn) false 7 ≡ (
    if false
      || public_event_predicates (tables_with withdrawn) (row_of withdrawn)
      || ((row_of withdrawn).type == maintenance && has_no_status (row_of withdrawn))
    then ok (to_api_event (with_statuses (tables_with withdrawn) (row_of withdrawn)) false)
    else err (status_not_found incident_not_exist))
get_incident_handler_example =
    get_incident_handler_lem (tables_with withdrawn) false 7 (row_of withdrawn) found

abbrev everything : IncidentsParams
everything = record second_page { limit = none; page = none }

lists :
    get_events_with_count 150 everything false tables
    ≡ ok (with_statuses tables (row_of window) ∷ [], 1)
unfolding get_events_with_count Status-discrete
lists = refl

get_events_with_count_public_example :
    All
      (λ e. show_event false e ≡ ok (to_api_event e false))
      (with_statuses tables (row_of window) ∷ [])
get_events_with_count_public_example = get_events_with_count_public 150 everything tables lists
