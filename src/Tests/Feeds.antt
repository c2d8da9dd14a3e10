-- ===== src/Tests/Feeds.antt =====
-- The theorems about the feeds, on the events of the tests.
use status_dashboard_backend.Common.{String, ◌≡◌, refl, false, some, List, [], ◌∷◌, All, ok}
use status_dashboard_backend.Event.{Status-discrete, in_progress, reviewed}
use status_dashboard_backend.Model.{Time, Incident}
use status_dashboard_backend.Store.Read.{with_statuses}
use status_dashboard_backend.Api.View.{to_api_event}
use status_dashboard_backend.Api.Visible.{show_event}
use status_dashboard_backend.Rss.{FeedParams, feed_events}
use status_dashboard_backend.Rss.Items.{FeedItem, create_maintenance_feed_items}
use status_dashboard_backend.Rss.Shown.{feed_events-IsShown}
use status_dashboard_backend.Rss.Announced.{
  created_of, announced_times, maintenance_items_announced,
}
use status_dashboard_backend.Tests.Data.{window, tables, row_of, update_at}

abbrev general : FeedParams
general = record { region = ""; component_name = "" }

feeds : feed_events 150 general tables ≡ ok (with_statuses tables (row_of window) ∷ [])
unfolding feed_events Status-discrete
feeds = refl

feed_events-IsShown_example :
    All
      (λ e. show_event false e ≡ ok (to_api_event e false))
      (with_statuses tables (row_of window) ∷ [])
feed_events-IsShown_example = feed_events-IsShown tables 150 general feeds

-- a maintenance with a review in its history
abbrev approved : Incident
approved = record window {
  status = in_progress;
  statuses = update_at 1 reviewed 80 ∷ update_at 2 in_progress 100 ∷ [];
}

abbrev clock : Time → String
clock t = "now"

maintenance_items_announced_example :
    (items : List FeedItem) × (create_maintenance_feed_items clock "https://status" approved
      ≡ some items)
    × (created_of items ≡ announced_times approved.statuses)
maintenance_items_announced_example =
    maintenance_items_announced clock "https://status" approved 200 refl
