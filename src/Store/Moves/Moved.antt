-- ===== src/Store/Moves/Moved.antt =====
-- What a successful move of a component between two incidents leaves in the tables
-- (MoveComponentFromOldToAnotherIncident in internal/db/db.go).
use status_dashboard_backend.Common.{
  ℕ, ◌≡◌, ◌≢◌, refl, sym, ◌∙◌, ap, subst, arith, Bool, true, false, ◌==◌, nat_eq, string_eq,
  eqb_iff, some, List, [], ◌∷◌, find, Bool-cases, inl, inr, Result, ok, err, >>=-eq-ok,
  Result-cases,
}
use status_dashboard_backend.Event.{resolved}
use status_dashboard_backend.Model.{Time, Component, Incident}
use status_dashboard_backend.Store.Tables.{IncidentRow, Db, DbError}
use status_dashboard_backend.Store.Read.{find_row}
use status_dashboard_backend.Store.Tx.{Driver}
use status_dashboard_backend.Store.Components.{get_component}
use status_dashboard_backend.Store.Moves.{
  has_number, full_row, stamped, save_incident_full, leave_component, remove_incident_component,
  drop_incident_component, moved_to, moved_from, move_tx, named_component,
  move_component_from_old_to_another_incident,
}
use status_dashboard_backend.Store.Moves.Edges.{reconciled-append, reconciled-dropped}
use status_dashboard_backend.Store.Moves.Rows.{
  with_tx-ok, find_row-save_full, find_row-save_full_ne, find_row-remove_ne,
}

-- The row that the component left: ended now, or open as before and without the component.
abbrev pub Left : Time → ℕ → Incident → Bool → IncidentRow → Type 0
Left now c old true row = (row.end_date ≡ some now) × (row.status ≡ some resolved)
Left now c old false row =
    (has_number row.component_ids c ≡ false)
    × (row.end_date ≡ old.end_date)
    × (row.status ≡ some old.status)

-- The tables after the move of the component `c`, with the row of another incident `j`.
pub record IsMoved (now : Time) (c : ℕ) (old new : Incident) (close_old : Bool) (j : ℕ)
    (db db' : Db) : Type 0 where
  pub target :
      (row : IncidentRow) × (find_row db' new.id ≡ some row)
      × (has_number row.component_ids c ≡ true)
  pub source : (row : IncidentRow) × (find_row db' old.id ≡ some row) × Left now c old close_old row
  pub other : find_row db' j ≡ find_row db j

pub find-true {ℓ} :
    {A : Type ℓ} (p : A → Bool) (xs : List A) {x : A} → find p xs ≡ some x → p x ≡ true
find-true p [] h = cc
find-true p (y ∷ xs) {x} h = elim (Bool-cases (p y)) [
  | inl e ↦ let f : some y ≡ some x = rw e at h in let g : y ≡ x = cc in subst (λ z. p z ≡ true) g e
  | inr e ↦ find-true p xs (rw e at h)
]

-- The component with its name has the same id.
pub named_component-id :
    (comp : Component) (db : Db) {c : Component} → named_component comp db ≡ ok c → c.id ≡ comp.id
unfolding named_component get_component
named_component-id comp db {c} h = ground (
  arith,
  find-true (λ (x : Component). x.id == comp.id) db.components {x = c},
  eqb_iff c.id comp.id,
)

left_open :
    (c : Component) (old : Incident) (db : Db) {r : Incident × Db}
    → c.id ≢ 0
    → leave_component c false old db ≡ ok r
    → (r.0 ≡ drop_incident_component c.id old) × (remove_incident_component old.id c.id db ≡ ok r.1)
unfolding leave_component
left_open c old db n h =
    let e : (c.id == 0) ≡ false = ground (arith, eqb_iff c.id 0) in
    let (db1, p, q) = >>=-eq-ok (remove_incident_component old.id c.id db) _ (rw e at h) in
    (cc, p ∙ (let g : db1 ≡ _ = cc in ap ok g))

-- the source after the first step
abbrev leaving : Component → Bool → Incident → Incident
unfolding drop_incident_component
leaving c true old = old
leaving c false old = drop_incident_component c.id old

left :
    (c : Component) (close_old : Bool) (old : Incident) (db : Db) {r : Incident × Db}
    → c.id ≢ 0
    → leave_component c close_old old db ≡ ok r
    → (leaving c close_old old ≡ r.0) × ((j : ℕ) → j ≢ old.id → find_row r.1 j ≡ find_row db j)
unfolding leave_component
left c true old db {r} n h =
    let e : (old, db) ≡ r = cc in
    (ap (λ (x : Incident × Db). x.0) e, λ j k. ap (λ (x : Incident × Db). find_row x.1 j) (sym e))
left c false old db {r} n h =
    let (e, q) = left_open c old db n h in (sym e, λ j k. find_row-remove_ne old.id c.id db j q k)

module _ (now : Time) (c : Component) (old new : Incident) (n : c.id ≢ 0) where
  -- the source and the target before they are written
  abbrev target_of : Incident
  unfolding moved_to
  target_of = moved_to now c old new

  abbrev source_of : Bool → Incident
  unfolding moved_from
  source_of close_old = moved_from now c close_old old target_of

  leaving-id : (close_old : Bool) → (leaving c close_old (source_of close_old)).id ≡ old.id
  unfolding drop_incident_component moved_from
  leaving-id true = refl
  leaving-id false = refl

  source-id : (close_old : Bool) → (source_of close_old).id ≡ old.id
  unfolding moved_from
  source-id true = refl
  source-id false = refl

  Left-row :
      (close_old : Bool) (row : IncidentRow)
      → Left now c.id old close_old
          (full_row (stamped now (leaving c close_old (source_of close_old))) row)
  unfolding drop_incident_component moved_from full_row stamped
  Left-row true row = (refl, refl)
  Left-row false row = (reconciled-dropped old.components c.id row.component_ids, refl, refl)

  target_row :
      (row : IncidentRow)
      → has_number (full_row (stamped now target_of) row).component_ids c.id ≡ true
  unfolding moved_to full_row stamped
  target_row row = reconciled-append new.components c row.component_ids n

  -- The two full writes, after a first step that left all rows but the source's alone.
  writes-IsMoved :
      (close_old : Bool) (j : ℕ) (db db1 db2 db3 : Db) {new' old' : Incident}
      → old.id ≢ new.id
      → j ≢ old.id
      → j ≢ new.id
      → find_row db1 j ≡ find_row db j
      → save_incident_full now target_of db1 ≡ ok (new', db2)
      → save_incident_full now (leaving c close_old (source_of close_old)) db2 ≡ ok (old', db3)
      → IsMoved now c.id old new close_old j db db3
  unfolding moved_to
  writes-IsMoved close_old j db db1 db2 db3 apart k m kept s2 s3 =
      let src = leaving c close_old (source_of close_old) in
      let same : src.id ≡ old.id = leaving-id close_old in
      let (row2, f2, g2) = find_row-save_full now target_of db1 s2 in
      let (row3, f3, g3) = find_row-save_full now src db2 s3 in
      let other =
        λ (i : ℕ) (u : i ≢ old.id). find_row-save_full_ne now src db2 i s3 (λ e. u (e ∙ same)) in
      record {
        target = (
          full_row (stamped now target_of) row2,
          other new.id (λ e. apart (sym e)) ∙ g2,
          target_row row2,
        );
        source = (
          full_row (stamped now src) row3,
          subst (λ i. find_row db3 i ≡ some (full_row (stamped now src) row3)) same g3,
          Left-row close_old row3,
        );
        other = other j k ∙ find_row-save_full_ne now target_of db1 j s2 m ∙ kept;
      }

  move_tx-IsMoved :
      (close_old : Bool) (j : ℕ) (db : Db) {p : Incident × Incident} {db' : Db}
      → old.id ≢ new.id
      → j ≢ old.id
      → j ≢ new.id
      → move_tx now c close_old (source_of close_old) target_of db ≡ ok (p, db')
      → IsMoved now c.id old new close_old j db db'
  unfolding move_tx
  move_tx-IsMoved close_old j db {p} {db'} apart k m h =
      let ((old1, db1), l, k1) =
        >>=-eq-ok (leave_component c close_old (source_of close_old) db) _ h in
      let ((new2, db2), s2, k2) = >>=-eq-ok (save_incident_full now target_of db1) _ k1 in
      let ((old3, db3), s3, k3) = >>=-eq-ok (save_incident_full now old1 db2) _ k2 in
      let (e, kept) = left c close_old (source_of close_old) db n l in
      subst (IsMoved now c.id old new close_old j db) (let same : db3 ≡ db' = cc in same) (
        writes-IsMoved close_old j db db1 db2 db3 apart k m
          (kept j (λ e. k (e ∙ source-id close_old))) s2
          (ap (λ x. save_incident_full now x db2) e ∙ s3))

-- A move of a component with an id that succeeds, between two different incidents, leaves the component in the target's
-- row, and leaves the source's row either ended at this time and resolved, or with its end and
-- its status as they were and without the component, by the flag; all other rows stay as they were.
pub move_component_lem :
    (d : Driver) (now : Time) (comp : Component) (old new : Incident) (close_old : Bool) (j : ℕ)
    (db : Db) {p : Incident × Incident} {db' : Db}
    → comp.id ≢ 0
    → old.id ≢ new.id
    → j ≢ old.id
    → j ≢ new.id
    → move_component_from_old_to_another_incident d now comp old new close_old db ≡ (ok p, db')
    → IsMoved now comp.id old new close_old j db db'
unfolding move_component_from_old_to_another_incident
move_component_lem d now comp old new close_old j db {p} {db'} n apart k m h =
    elim (Result-cases (named_component comp db)) [
      | inl (c, e) ↦
          let same = named_component-id comp db e in
          subst (λ i. IsMoved now i old new close_old j db db') same
            (move_tx-IsMoved now c old new (λ z. n (sym same ∙ z)) close_old j db apart k m
              (with_tx-ok d
                (move_tx now c close_old (moved_from now c close_old old (moved_to now c old new))
                  (moved_to now c old new))
                db (rw (e, move_component_from_old_to_another_incident) at h)))
      | inr (e, f) ↦ cc (
          let g : ◌≡◌ {A = Result DbError (Incident × Incident) × Db} (err e, db) (ok p, db') =
            rw (f, move_component_from_old_to_another_incident) at h in
          g)
    ]
