-- ===== src/Api/View/Updates.antt =====
-- The updates array of an event (mapEventUpdates).
use status_dashboard_backend.Common.{
  ℕ, suc, String, ◌≡◌, refl, Bool, false, ◌&&◌, not, if_elim, if◌then◌else◌, ◌==◌, Option, none,
  some, List, [], ◌∷◌, All,
}
use status_dashboard_backend.Event.{
  EventType, Status, status_eq, description, out_dated_system, information, incident, maintenance,
  analyzing_legacy, in_progress_legacy, scheduled_legacy,
}
use status_dashboard_backend.Model.{Time, Incident, IncidentStatus}
use status_dashboard_backend.Api.View.{
  EventUpdateData, map_updates, to_api_event, is_internal_status, is_annotation, normalize_status,
}

-- An update that is left out because the reader may not see it.
abbrev hidden : Bool → Status → Bool
unfolding is_internal_status
hidden is_auth s = not is_auth && is_internal_status s

module _ {ℓ} (P : Status → Type ℓ) (is_auth : Bool) (end_date : Option Time) (t : EventType)
    (shown : (s : Status)
      → hidden is_auth s ≡ false
      → is_annotation (normalize_status s end_date t) ≡ false
      → P (normalize_status s end_date t)) where
  status-of-row :
      (s last : Status)
      → hidden is_auth s ≡ false
      → P last
      → P (
          if is_annotation (normalize_status s end_date t)
          then last
          else normalize_status s end_date t)
  status-of-row s last h p =
      if_elim P (is_annotation (normalize_status s end_date t)) last (normalize_status s end_date t)
        (λ _. p) (shown s h)

  -- What holds of the status of every shown row, and of the status to fall back on, holds of every
  -- status in the array.
  map_updates-All :
      (idx : ℕ) (last : Status) (latest : String) (ss : List IncidentStatus)
      → P last
      → All (λ u. P u.status) (map_updates is_auth end_date t idx last latest ss).0
  unfolding map_updates
  map_updates-All idx last latest [] p = tt
  map_updates-All idx last latest (s ∷ ss) p =
      if_elim (λ (r : List EventUpdateData × String). All (λ u. P u.status) r.0)
        (hidden is_auth s.status) _ _ (λ _. map_updates-All idx last latest ss p)
        (λ h.
          if_elim (λ (r : List EventUpdateData × String). All (λ u. P u.status) r.0)
            (s.status == description) _ _ (λ _. map_updates-All idx last s.text ss p)
            (λ _. (
              status-of-row s.status last h p,
              map_updates-All (suc idx) _ latest ss (status-of-row s.status last h p),
            )))

normalize-internal :
    (s : Status) (e : Option Time) (t : EventType)
    → is_internal_status s ≡ false
    → is_internal_status (normalize_status s e t) ≡ false
unfolding normalize_status is_internal_status
normalize-internal analyzing_legacy e t h = h
normalize-internal in_progress_legacy e t h = h
normalize-internal scheduled_legacy e t h = h
normalize-internal out_dated_system none t h = h
normalize-internal out_dated_system (some _) incident h = h
normalize-internal out_dated_system (some _) information h = h
normalize-internal out_dated_system (some _) maintenance h = h
normalize-internal s e t h = h

-- A reader without the extended view sees no review status: for an event whose own status is not one, no entry of
-- the updates array is pending_review or reviewed, whatever the history; and the contact address, the creator and the
-- version are left out.
pub to_api_event_public :
    (inc : Incident)
    → is_internal_status inc.status ≡ false
    → All (λ u. is_internal_status u.status ≡ false) (to_api_event inc false).updates
      × ((to_api_event inc false).contact_email ≡ [])
      × ((to_api_event inc false).created_by ≡ "")
      × ((to_api_event inc false).version ≡ none)
unfolding to_api_event
to_api_event_public inc h = (
  map_updates-All (λ s. is_internal_status s ≡ false) false inc.end_date inc.type
      (λ s hs _. normalize-internal s inc.end_date inc.type hs) 0
      (normalize_status inc.status inc.end_date inc.type) "" inc.statuses
      (normalize-internal inc.status inc.end_date inc.type h),
  refl,
  refl,
  refl,
)

-- The updates array shows statuses only: for an event whose own status is not "changed" or "impact changed", no
-- entry has one of them, for any reader.
to_api_event_collapsed :
    (inc : Incident) (is_auth : Bool)
    → is_annotation (normalize_status inc.status inc.end_date inc.type) ≡ false
    → All (λ u. is_annotation u.status ≡ false) (to_api_event inc is_auth).updates
unfolding to_api_event
to_api_event_collapsed inc is_auth h =
    map_updates-All (λ s. is_annotation s ≡ false) is_auth inc.end_date inc.type (λ s _ a. a) 0
      (normalize_status inc.status inc.end_date inc.type) "" inc.statuses h

-- the entries are numbered from this index on
abbrev pub IsNumbered : ℕ → List EventUpdateData → Type 0
IsNumbered n [] = Unit
IsNumbered n (u ∷ us) = (u.id ≡ n) × IsNumbered (suc n) us

map_updates-IsNumbered :
    (is_auth : Bool) (e : Option Time) (t : EventType) (idx : ℕ) (last : Status) (latest : String)
    (ss : List IncidentStatus)
    → IsNumbered idx (map_updates is_auth e t idx last latest ss).0
unfolding map_updates
map_updates-IsNumbered is_auth e t idx last latest [] = tt
map_updates-IsNumbered is_auth e t idx last latest (s ∷ ss) =
    if_elim (λ (r : List EventUpdateData × String). IsNumbered idx r.0) (hidden is_auth s.status) _
      _ (λ _. map_updates-IsNumbered is_auth e t idx last latest ss)
      (λ h.
        if_elim (λ (r : List EventUpdateData × String). IsNumbered idx r.0)
          (s.status == description) _ _ (λ _. map_updates-IsNumbered is_auth e t idx last s.text ss)
          (λ _. (refl, map_updates-IsNumbered is_auth e t (suc idx) _ latest ss)))

-- The entries of the updates array are numbered 0, 1, 2, … without a gap, however many rows were left out.
pub to_api_event-IsNumbered :
    (inc : Incident) (is_auth : Bool) → IsNumbered 0 (to_api_event inc is_auth).updates
unfolding to_api_event
to_api_event-IsNumbered inc is_auth =
    map_updates-IsNumbered is_auth inc.end_date inc.type 0
      (normalize_status inc.status inc.end_date inc.type) "" inc.statuses
