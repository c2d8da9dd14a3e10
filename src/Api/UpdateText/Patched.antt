-- ===== src/Api/UpdateText/Patched.antt =====
-- What the patch of an update's text leaves in the histories and in the list that is shown
-- (PatchEventUpdateTextHandler and mapEventUpdates in internal/api/v2/v2.go).
use status_dashboard_backend.Common.{
  ℕ, zero, suc, ◌+◌, String, ◌≡◌, ◌≢◌, ◌⊎◌, refl, ◌∙◌, ap, subst, arith, true, false, if◌then◌else◌,
  ◌==◌, Option, some, List, [], ◌∷◌, All-get, get_elem?, Bool-cases, inl, inr, ok,
}
use status_dashboard_backend.Event.{EventType, Status, status_eq, description}
use status_dashboard_backend.Model.{Time, IncidentStatus}
use status_dashboard_backend.Store.Tables.{Db, update_where}
use status_dashboard_backend.Store.Read.{statuses_by_incident}
use status_dashboard_backend.Store.Lookup.{get_event_updates, is_update, set_update_text}
use status_dashboard_backend.Api.View.{
  EventUpdateData, normalize_status, is_annotation, map_updates, map_event_updates,
}
use status_dashboard_backend.Api.UpdateText.{
  answer_update, patch_update, patch_event_update_text_handler,
}
use status_dashboard_backend.Api.UpdateText.Rows.{
  DistinctUpdates, all_owned, get-owned, DistinctUpdates-owned, modified, get-update_self,
  get-update_ne, statuses-update, other_event,
}

-- the place in the shown list: the rows before it, less the description rows, which are not shown
abbrev pub shown_place : List IncidentStatus → ℕ → ℕ
shown_place ss zero = 0
shown_place [] (suc i) = 0
shown_place (s ∷ ss) (suc i) =
    let rest = shown_place ss i in if s.status == description then rest else suc rest

-- The list has the update at that place, under that id and with the row's text.
abbrev pub IsShownAt : List EventUpdateData → ℕ → ℕ → String → Type 0
IsShownAt shown place id text =
    (u : EventUpdateData) × (get_elem? shown place ≡ some u) × (u.id ≡ id) × (u.text ≡ text)

map_updates-IsShownAt :
    (end_date : Option Time) (t : EventType) (idx : ℕ) (last : Status) (latest : String)
    (ss : List IncidentStatus) (i : ℕ) {s : IncidentStatus}
    → get_elem? ss i ≡ some s
    → (s.status == description) ≡ false
    → IsShownAt
        (map_updates true end_date t idx last latest ss).0
        (shown_place ss i)
        (idx + shown_place ss i)
        s.text
unfolding map_updates
map_updates-IsShownAt end_date t idx last latest [] i h n = cc
map_updates-IsShownAt end_date t idx last latest (x ∷ ss) zero {s} h n =
    let e : x ≡ s = cc in
    let k : (x.status == description) ≡ false = rw e n in
    rw k (_, refl, omega arith, ap (λ (y : IncidentStatus). y.text) e)
map_updates-IsShownAt end_date t idx last latest (x ∷ ss) (suc i) h n =
    elim (Bool-cases (x.status == description)) [
      | inl e ↦ rw e (map_updates-IsShownAt end_date t idx last x.text ss i h n)
      | inr e ↦
          let status =
            if is_annotation (normalize_status x.status end_date t)
            then last
            else normalize_status x.status end_date t in
          let (u, a, b, c) = map_updates-IsShownAt end_date t (suc idx) status latest ss i h n in
          rw e (u, a, omega (arith, b), c)
    ]

shown_place-update :
    (now : Time) (text : String) (s : IncidentStatus) (ss : List IncidentStatus) (i : ℕ)
    → shown_place (update_where (is_update s) (set_update_text now text) ss) i ≡ shown_place ss i
unfolding set_update_text
shown_place-update now text s ss zero = refl
shown_place-update now text s [] (suc i) = refl
shown_place-update now text s (x ∷ ss) (suc i) = ground (arith, shown_place-update now text s ss i)

-- Where the updates have distinct ids and the event's stored history has a place `i`, the patch of its text
-- succeeds. The row at that place then differs in its text and its time of modification only, so who
-- changed it is not stored; all other places of the history, and the histories of other events, are as before. The
-- place counts the rows of the stored history: a caller with the extended view is shown the new text as the update whose id is
-- the place less the description rows before it, unless the row is a description itself.
pub update_text_patched :
    (now : Time) (user_id : Option String) (event i : ℕ) (text : String) (db : Db) (j other : ℕ)
    (status : Status) (end_date : Option Time) (t : EventType) {s : IncidentStatus}
    → DistinctUpdates db.statuses
    → get_elem? (get_event_updates db event) i ≡ some s
    → j ≢ i
    → other ≢ event
    → (db' : Db) × (patch_event_update_text_handler now user_id event i text db
        ≡ (ok (record { id = i; status = s.status; text = text; timestamp = s.timestamp }), db'))
      × (get_elem? (get_event_updates db' event) i
          ≡ some (record s { text = text; modified_at = some now }))
      × (get_elem? (get_event_updates db' event) j ≡ get_elem? (get_event_updates db event) j)
      × (get_event_updates db' other ≡ get_event_updates db other)
      × ((s.status ≡ description)
          ⊎ IsShownAt
              (map_event_updates (get_event_updates db' event) true status end_date t).0
              (shown_place (get_event_updates db event) i)
              (shown_place (get_event_updates db event) i)
              text)
unfolding patch_event_update_text_handler set_update_text map_event_updates
update_text_patched now user_id event i text db j other status end_date t {s} d h n m =
    let rows = update_where (is_update s) (set_update_text now text) db.statuses in
    let (k, f) = get-owned db.statuses event i h in
    let there : get_elem? (statuses_by_incident rows event) i
        ≡ some (record s { text = text; modified_at = some now }) =
      ap (λ ys. get_elem? ys i) (statuses-update now text s db.statuses event)
      ∙ get-update_self now text s (statuses_by_incident db.statuses event) i h in
    let place : shown_place (statuses_by_incident rows event) i
        ≡ shown_place (statuses_by_incident db.statuses event) i =
      ap (λ ys. shown_place ys i) (statuses-update now text s db.statuses event)
      ∙ shown_place-update now text s (statuses_by_incident db.statuses event) i in
    (
      record db { statuses = rows },
      ap (patch_update now user_id i text db) h
          ∙ ap (answer_update i db) (modified now user_id text s db k d f),
      there,
      ap (λ ys. get_elem? ys j) (statuses-update now text s db.statuses event)
          ∙ get-update_ne now text s (statuses_by_incident db.statuses event) i j
              (DistinctUpdates-owned db.statuses event d) h n,
      statuses-update now text s db.statuses other
          ∙ other_event now text s db.statuses other (λ e. m (
              e
              ∙ All-get (λ (x : IncidentStatus). x.incident_id ≡ event)
                  (statuses_by_incident db.statuses event) i (all_owned db.statuses event) h)),
      elim (Bool-cases (s.status == description)) [
        | inl e ↦ inl ((status_eq.beq_iff s.status description).0 e)
        | inr e ↦ inr (
            let (u, a, b, c) =
              map_updates-IsShownAt end_date t 0 (normalize_status status end_date t) ""
                (statuses_by_incident rows event) i there e in
            let shown =
              map_event_updates (statuses_by_incident rows event) true status end_date t in
            (u, subst (λ z. get_elem? shown.0 z ≡ some u) place a, omega (arith, b, place), c))
      ],
    )
