-- ===== src/Store/Tables.antt =====
-- The tables behind internal/db: a table is the list of its rows in the order of their ids, an
-- UPDATE with a WHERE maps the rows that the clause selects, and a serial column is a counter. The
-- driver's failures enter where a transaction begins and commits (Store/Tx).
use status_dashboard_backend.Common.{
  ℕ, suc, String, ℤ, ◌≡◌, Bool, true, Option, List, [], ◌∷◌, if◌then◌else◌, All, Bool-cases, inl,
  inr,
}
use status_dashboard_backend.Event.{EventType, Status}
use status_dashboard_backend.Model.{Time, Email, Component, IncidentStatus, NotificationOutbox}

-- A row of the table `incident` with the ids of its component edge.
pub record IncidentRow : Type 0 where
  pub id : ℕ
  pub text : String
  pub description : Option String
  pub start_date : Time
  pub end_date : Option Time
  pub impact : ℤ
  -- NULL is `none`
  pub status : Option Status
  pub system : Bool
  pub type : EventType
  pub component_ids : List ℕ
  pub created_at : Option Time
  pub modified_at : Option Time
  pub deleted_at : Option Time
  pub created_by : Option String
  pub contact_email : Option Email
  pub version : ℤ

pub record Db : Type 0 where
  pub incidents : List IncidentRow
  pub statuses : List IncidentStatus
  pub components : List Component
  pub outbox : List NotificationOutbox
  pub next_incident : ℕ
  pub next_status : ℕ
  pub next_outbox : ℕ
  pub next_component : ℕ

-- The errors of internal/db that the modelled code returns; `driver` stands for a failure of the
-- connection, and for a violated constraint of the schema.
pub data DbError : Type 0 where
  version_required version_conflict incident_text_required incident_not_found : DbError
  filter_active_false notification_duplicate notification_not_found driver : DbError
  component_not_exist component_exists region_missing nothing_to_extract update_not_exist : DbError

module _ {ℓ} {A : Type ℓ} where
  -- UPDATE … SET f WHERE p
  abbrev pub update_where : (A → Bool) → (A → A) → List A → List A
  update_where p f [] = []
  update_where p f (r ∷ rs) = (if p r then f r else r) ∷ update_where p f rs

  -- the number of rows that the clause selects
  abbrev pub affected : (A → Bool) → List A → ℕ
  affected p [] = 0
  affected p (r ∷ rs) = let n = affected p rs in if p r then suc n else n

module _ {ℓ} {A : Type ℓ} (P : A → Type ℓ) (p : A → Bool) (f : A → A) where
  pub All-update_where :
      (rows : List A)
      → ((r : A) → p r ≡ true → P r → P (f r))
      → All P rows
      → All P (update_where p f rows)
  All-update_where [] k h = tt
  All-update_where (r ∷ rows) k h = elim (Bool-cases (p r)) [
    | inl e ↦ rw e (k r e h.0, All-update_where rows k h.1)
    | inr e ↦ rw e (h.0, All-update_where rows k h.1)
  ]
