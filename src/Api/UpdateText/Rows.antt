-- ===== src/Api/UpdateText/Rows.antt =====
-- What ModifyEventUpdateTx (internal/db/db.go) does to the histories of events.
use status_dashboard_backend.Common.{
  ℕ, zero, suc, String, ◌≡◌, ◌≢◌, refl, ap, subst, arith, Bool, false, ◌==◌, nat_eq, eqb_iff,
  Option, some, List, [], ◌∷◌, All, All-get, get-keep, DistinctBy, DistinctBy-keep, find, get_elem?,
  Bool-cases, inl, inr, ok,
}
use status_dashboard_backend.Model.{Time, IncidentStatus}
use status_dashboard_backend.Store.Tables.{Db, update_where, affected}
use status_dashboard_backend.Store.Read.{statuses_by_incident}
use status_dashboard_backend.Store.Lookup.{is_update, set_update_text, modify_event_update}
use status_dashboard_backend.Api.UpdateText.{retexted}

abbrev id_of : IncidentStatus → ℕ
id_of s = s.id

-- The updates have distinct ids, as a primary key has.
abbrev pub DistinctUpdates : List IncidentStatus → Type 0
DistinctUpdates = DistinctBy id_of

module _ (now : Time) (text : String) (s : IncidentStatus) where
  abbrev pub hit : IncidentStatus → Bool
  hit = is_update s

  abbrev pub write : IncidentStatus → IncidentStatus
  unfolding set_update_text
  write = set_update_text now text

  none_hit :
      (xs : List IncidentStatus)
      → All (λ (t : IncidentStatus). t.id ≢ s.id) xs
      → update_where hit write xs ≡ xs
  none_hit [] h = refl
  none_hit (x ∷ xs) h = ground (arith, none_hit xs h.1, h.0, eqb_iff x.id s.id)

  pub get-update_self :
      (xs : List IncidentStatus) (i : ℕ)
      → get_elem? xs i ≡ some s
      → get_elem? (update_where hit write xs) i ≡ some (write s)
  get-update_self [] i h = cc
  get-update_self (x ∷ xs) zero h =
      let e : s ≡ x = cc in
      rw (← e) (ground (arith, eqb_iff s.id s.id, eqb_iff s.incident_id s.incident_id))
  get-update_self (x ∷ xs) (suc i) h = get-update_self xs i h

  pub get-update_ne :
      (xs : List IncidentStatus) (i j : ℕ)
      → DistinctUpdates xs
      → get_elem? xs i ≡ some s
      → j ≢ i
      → get_elem? (update_where hit write xs) j ≡ get_elem? xs j
  get-update_ne [] i j d h n = refl
  get-update_ne (x ∷ xs) zero zero d h n = absurd (n refl)
  get-update_ne (x ∷ xs) zero (suc j) d h n =
      let e : x ≡ s = cc in
      ap (λ ys. get_elem? ys j)
        (none_hit xs
          (subst (λ (y : IncidentStatus). All (λ (t : IncidentStatus). t.id ≢ y.id) xs) e d.0))
  get-update_ne (x ∷ xs) (suc i) zero d h n =
      let m : s.id ≢ x.id = All-get (λ (t : IncidentStatus). t.id ≢ x.id) xs i d.0 h in
      ground (arith, eqb_iff x.id s.id)
  get-update_ne (x ∷ xs) (suc i) (suc j) d h n = get-update_ne xs i j d.1 h (λ e. n (ap suc e))

  find-update :
      (xs : List IncidentStatus) (k : ℕ)
      → DistinctUpdates xs
      → get_elem? xs k ≡ some s
      → find (λ (t : IncidentStatus). t.id == s.id) (update_where hit write xs) ≡ some (write s)
  unfolding set_update_text
  find-update [] k d h = cc
  find-update (x ∷ xs) zero d h =
      let e : s ≡ x = cc in
      rw (← e) (ground (arith, eqb_iff s.id s.id, eqb_iff s.incident_id s.incident_id))
  find-update (x ∷ xs) (suc k) d h =
      let m : s.id ≢ x.id = All-get (λ (t : IncidentStatus). t.id ≢ x.id) xs k d.0 h in
      ground (arith, eqb_iff x.id s.id, find-update xs k d.1 h)

  affected-update :
      (xs : List IncidentStatus) (k : ℕ) → get_elem? xs k ≡ some s → (affected hit xs == 0) ≡ false
  affected-update [] k h = cc
  affected-update (x ∷ xs) zero h =
      let e : s ≡ x = cc in
      rw (← e) (ground (arith, eqb_iff s.id s.id, eqb_iff s.incident_id s.incident_id))
  affected-update (x ∷ xs) (suc k) h = ground (arith, affected-update xs k h)

  -- reading one event's history commutes with the write
  pub statuses-update :
      (xs : List IncidentStatus) (i : ℕ)
      → statuses_by_incident (update_where hit write xs) i
        ≡ update_where hit write (statuses_by_incident xs i)
  unfolding statuses_by_incident set_update_text
  statuses-update [] i = refl
  statuses-update (x ∷ xs) i = ground (arith, statuses-update xs i)

  pub other_event :
      (xs : List IncidentStatus) (i : ℕ)
      → i ≢ s.incident_id
      → update_where hit write (statuses_by_incident xs i) ≡ statuses_by_incident xs i
  unfolding statuses_by_incident
  other_event [] i n = refl
  other_event (x ∷ xs) i n = elim (Bool-cases (x.incident_id == i)) [
    | inl e ↦ rw e (
        ground
          (arith, eqb_iff x.incident_id i, eqb_iff x.incident_id s.incident_id, other_event xs i n))
    | inr e ↦ rw e (other_event xs i n)
  ]

pub all_owned :
    (xs : List IncidentStatus) (event : ℕ)
    → All (λ (t : IncidentStatus). t.incident_id ≡ event) (statuses_by_incident xs event)
unfolding statuses_by_incident
all_owned [] event = tt
all_owned (x ∷ xs) event = elim (Bool-cases (x.incident_id == event)) [
  | inl e ↦ rw e ((eqb_iff x.incident_id event).0 e, all_owned xs event)
  | inr e ↦ rw e (all_owned xs event)
]

pub get-owned :
    (xs : List IncidentStatus) (event i : ℕ) {s : IncidentStatus}
    → get_elem? (statuses_by_incident xs event) i ≡ some s
    → (k : ℕ) × (get_elem? xs k ≡ some s)
unfolding statuses_by_incident
get-owned xs event i h = get-keep (λ (t : IncidentStatus). t.incident_id == event) xs i h

pub DistinctUpdates-owned :
    (xs : List IncidentStatus) (event : ℕ)
    → DistinctUpdates xs
    → DistinctUpdates (statuses_by_incident xs event)
unfolding statuses_by_incident
DistinctUpdates-owned xs event d =
    DistinctBy-keep id_of (λ (t : IncidentStatus). t.incident_id == event) xs d

pub modified :
    (now : Time) (user_id : Option String) (text : String) (s : IncidentStatus) (db : Db) (k : ℕ)
    → DistinctUpdates db.statuses
    → get_elem? db.statuses k ≡ some s
    → modify_event_update now (retexted text user_id s) db
      ≡ ok (
        set_update_text now text s,
        record db { statuses = update_where (is_update s) (set_update_text now text) db.statuses },
      )
unfolding modify_event_update
modified now user_id text s db k d f =
    rw (affected-update now text s db.statuses k f, find-update now text s db.statuses k d f) refl
