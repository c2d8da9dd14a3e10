-- ===== src/Rss/Items.antt =====
-- internal/rss/rss.go: the items of a feed. `format` is the layout time.DateTime; a maintenance without an end
-- dereferences nil where a text names the end, which is `none`.
use status_dashboard_backend.Common.{
  ℤ, pos, int_eq, String, string_eq, ◌<>◌, decimal, not, if◌then◌else◌, ◌==◌, Option, none, some,
  List, [], ◌∷◌, ◌++◌, find, map,
}
use status_dashboard_backend.Event.{
  maintenance, information, event_type_eq, status_eq, status_text, detected, planned, in_progress,
  modified, completed, cancelled,
}
use status_dashboard_backend.Model.{Time, Component, IncidentStatus, Incident}
use status_dashboard_backend.Store.Components.{region, component_type}

pub record FeedItem : Type 0 where
  pub title : String
  pub link : String
  pub created : Time
  pub text : String

unfoldable pub get_incident_impacts_str : ℤ → String
get_incident_impacts_str impact =
    if impact == pos 1
    then "Minor incident (i.e. performance impact)"
    else if impact == pos 2
    then "Major incident"
    else "Service outage"

-- strings.Join
unfoldable pub join_texts : String → List String → String
join_texts mark [] = ""
join_texts mark (s ∷ []) = s
join_texts mark (s ∷ t ∷ ss) = s <> mark <> join_texts mark (t ∷ ss)

-- the items of one update before those of the later ones
abbrev pub add_items : Option (List FeedItem) → Option (List FeedItem) → Option (List FeedItem)
add_items (some items) (some more) = some (items ++ more)
add_items _ _ = none

module _ (format : Time → String) (base_url : String) where
  unfoldable pub item_of : Incident → String → Time → String → FeedItem
  unfolding decimal
  item_of inc title created text = record {
    title = title;
    link = base_url <> "/incidents/" <> decimal inc.id;
    created = created;
    text = text;
  }

  unfoldable pub incident_title : Incident → String
  unfolding get_incident_impacts_str
  incident_title inc = elim inc.components [
    | [] ↦ "Status change to " <> get_incident_impacts_str inc.impact
    | c ∷ [] ↦ c.name <> " status changed to " <> get_incident_impacts_str inc.impact
    | _ ∷ _ ∷ _ ↦ "Status change of multiple services to " <> get_incident_impacts_str inc.impact
  ]

  abbrev pub in_region : Component → String
  unfolding region
  in_region c = c.name <> " in " <> region c

  unfoldable pub incident_text : Incident → String
  unfolding get_incident_impacts_str join_texts region
  incident_text inc =
      let head =
        "A "
        <> get_incident_impacts_str inc.impact
        <> " was detected at "
        <> format inc.start_date
        <> " UTC" in
      let main : String = elim inc.components [
        | [] ↦ head <> "."
        | c ∷ cs ↦ head <> " for " <> join_texts ", " (map in_region (c ∷ cs)) <> "."
      ] in
      elim inc.description [
        | none ↦ main
        | some d ↦ if not (d == "") then main <> " " <> d else main
      ]

  abbrev pub with_region : Component → String
  unfolding region
  with_region c = " " <> c.name <> " (" <> region c <> ")"

  -- what stands between the time and the status: the loop's last comma is trimmed
  unfoldable pub concerned : List Component → String
  unfolding join_texts region
  concerned [] = ":"
  concerned (c ∷ []) = " for " <> c.name <> " in " <> region c <> ":"
  concerned (c ∷ d ∷ cs) = " for" <> join_texts "," (map with_region (c ∷ d ∷ cs)) <> ":"

  unfoldable pub update_item : Incident → IncidentStatus → FeedItem
  unfolding item_of concerned status_text
  update_item inc s = item_of inc ("Update published for: " <> inc.text) s.timestamp (
      "An update was provided at "
      <> format s.timestamp
      <> " UTC"
      <> concerned inc.components
      <> " "
      <> status_text s.status
      <> " - "
      <> s.text)

  -- the loop over the updates, which skips the initial status
  unfoldable pub update_items : Incident → List IncidentStatus → List FeedItem
  unfolding update_item
  update_items inc [] = []
  update_items inc (s ∷ ss) =
      let rest = update_items inc ss in
      if s.status == detected then rest else update_item inc s ∷ rest

  unfoldable pub create_incident_feed_items : Incident → List FeedItem
  unfolding item_of incident_title incident_text update_items
  create_incident_feed_items inc =
      item_of inc (incident_title inc) inc.start_date (incident_text inc)
      ∷ update_items inc inc.statuses

  abbrev pub long_name : Component → String
  unfolding region
  long_name c = c.name <> " (" <> region c <> ")"

  -- the main description of a maintenance
  unfoldable pub general_description : Incident → String
  general_description inc =
      let first : String = elim (find (λ (s : IncidentStatus). s.status == planned) inc.statuses) [
        | none ↦ ""
        | some s ↦ s.text
      ] in
      elim inc.description [ none ↦ first | some d ↦ if not (d == "") then d else first ]

  -- One update of a maintenance: no item for a status that the switch does not name.
  unfoldable pub maintenance_item : Incident → IncidentStatus → Option (List FeedItem)
  unfolding item_of join_texts region component_type general_description
  maintenance_item inc s =
      let short = join_texts ", " (map component_type inc.components) in
      let long = join_texts ", " (map long_name inc.components) in
      if s.status == planned
      then (elim inc.end_date [
        | none ↦ none
        | some end_date ↦ some (
            item_of inc ("Maintenance planned for " <> short) s.timestamp (
              "A maintenance is planned for "
              <> long
              <> " between "
              <> format inc.start_date
              <> " UTC and "
              <> format end_date
              <> " UTC: "
              <> s.text)
            ∷ [])
      ])
      else if s.status == in_progress
      then (elim inc.end_date [
        | none ↦ none
        | some end_date ↦ some (
            item_of inc ("Maintenance started for " <> short) s.timestamp (
              "A maintenance started for "
              <> long
              <> " planned until "
              <> format end_date
              <> " UTC: "
              <> general_description inc)
            ∷ [])
      ])
      else if s.status == modified
      then some (
          item_of inc ("Maintenance modified for " <> short) s.timestamp
            ("A maintenance modified for " <> long <> ": " <> s.text)
          ∷ [])
      else if s.status == completed
      then some (
          item_of inc ("Maintenance completed for " <> short) s.timestamp
            ("A maintenance completed for " <> long <> ".")
          ∷ [])
      else if s.status == cancelled
      then some (
          item_of inc ("Maintenance cancelled for " <> short) s.timestamp
            ("A maintenance cancelled for " <> long <> ".")
          ∷ [])
      else some []

  unfoldable pub maintenance_items : Incident → List IncidentStatus → Option (List FeedItem)
  unfolding maintenance_item
  maintenance_items inc [] = some []
  maintenance_items inc (s ∷ ss) = add_items (maintenance_item inc s) (maintenance_items inc ss)

  unfoldable pub create_maintenance_feed_items : Incident → Option (List FeedItem)
  unfolding maintenance_items
  create_maintenance_feed_items inc = maintenance_items inc inc.statuses

  unfoldable pub create_feed_items : Incident → Option (List FeedItem)
  unfolding create_maintenance_feed_items create_incident_feed_items
  create_feed_items inc =
      if inc.type == maintenance
      then create_maintenance_feed_items inc
      else if inc.type == information
      then some []
      else some (create_incident_feed_items inc)

  -- the loop of HandleRSS over the events
  unfoldable pub feed_items : List Incident → Option (List FeedItem)
  unfolding create_feed_items
  feed_items [] = some []
  feed_items (inc ∷ incs) = add_items (create_feed_items inc) (feed_items incs)
