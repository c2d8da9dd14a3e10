-- ===== src/Rss/Announced.antt =====
-- Which updates of a maintenance a feed tells of (createMaintenanceFeedItems in internal/rss/rss.go).
use status_dashboard_backend.Common.{
  String, ◌≡◌, refl, ◌∙◌, ap, arith, Bool, ◌||◌, if◌then◌else◌, ◌==◌, some, List, [], ◌∷◌, ◌++◌,
  Bool-cases, inl, inr,
}
use status_dashboard_backend.Event.{status_eq, planned, in_progress, modified, completed, cancelled}
use status_dashboard_backend.Model.{Time, IncidentStatus, Incident}
use status_dashboard_backend.Rss.Items.{
  FeedItem, item_of, maintenance_item, maintenance_items, create_maintenance_feed_items,
}

abbrev pub announced : IncidentStatus → Bool
announced s =
    s.status == planned
    || s.status == in_progress
    || s.status == modified
    || s.status == completed
    || s.status == cancelled

abbrev pub created_of : List FeedItem → List Time
created_of [] = []
created_of (i ∷ items) = i.created ∷ created_of items

abbrev pub announced_times : List IncidentStatus → List Time
announced_times [] = []
announced_times (s ∷ ss) =
    if announced s then s.timestamp ∷ announced_times ss else announced_times ss

module _ (format : Time → String) (base_url : String) (inc : Incident) (t : Time) where
  one_item :
      (s : IncidentStatus)
      → inc.end_date ≡ some t
      → (items : List FeedItem) × (maintenance_item format base_url inc s ≡ some items)
        × (created_of items ≡ (if announced s then s.timestamp ∷ [] else []))
  unfolding maintenance_item item_of
  one_item s h = elim (Bool-cases (s.status == planned)) [
    | inl a ↦ rw (h, a) (_, refl, refl)
    | inr a ↦ elim (Bool-cases (s.status == in_progress)) [
      | inl b ↦ rw (h, a, b) (_, refl, refl)
      | inr b ↦ elim (Bool-cases (s.status == modified)) [
        | inl c ↦ rw (a, b, c) (_, refl, refl)
        | inr c ↦ elim (Bool-cases (s.status == completed)) [
          | inl d ↦ rw (a, b, c, d) (_, refl, refl)
          | inr d ↦ elim (Bool-cases (s.status == cancelled)) [
            | inl e ↦ rw (a, b, c, d, e) (_, refl, refl)
            | inr e ↦ rw (a, b, c, d, e) ([], refl, refl)
          ]
        ]
      ]
    ]
  ]

  created_of-append :
      (items more : List FeedItem)
      → created_of (items ++ more) ≡ created_of items ++ created_of more
  created_of-append [] more = refl
  created_of-append (i ∷ items) more = ap (λ ts. i.created ∷ ts) (created_of-append items more)

  all_items :
      (ss : List IncidentStatus)
      → inc.end_date ≡ some t
      → (items : List FeedItem) × (maintenance_items format base_url inc ss ≡ some items)
        × (created_of items ≡ announced_times ss)
  unfolding maintenance_items
  all_items [] h = ([], refl, refl)
  all_items (s ∷ ss) h =
      let (items, e, f) = one_item s h in
      let (more, g, k) = all_items ss h in
      (items ++ more, rw (e, g) refl, created_of-append items more ∙ rw (f, k) (ground arith))

  -- The feed of a maintenance with an end has exactly one item for each update that plans, starts, modifies,
  -- completes or cancels it, in their order and with their times, and none for a review.
  pub maintenance_items_announced :
      inc.end_date ≡ some t
      → (items : List FeedItem) × (create_maintenance_feed_items format base_url inc ≡ some items)
        × (created_of items ≡ announced_times inc.statuses)
  unfolding create_maintenance_feed_items
  maintenance_items_announced h = all_items inc.statuses h
