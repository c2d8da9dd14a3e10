-- ===== src/Store/Changes/Extracted.antt =====
-- What an extraction of components to a new incident leaves in the tables
-- (ExtractComponentsToNewIncident in internal/db/db.go).
use status_dashboard_backend.Common.{
  ℕ, String, ◌≡◌, ◌≢◌, refl, sym, ◌∙◌, ap, subst, arith, ℤ, true, false, ◌&&◌, ◌||◌, not, ◌==◌,
  nat_eq, string_eq, eqb_iff, Option, some, List, [], ◌∷◌, ◌++◌, Bool-cases, Result-cases, inl, inr,
  Result, ok, err, >>=-eq-ok,
}
use status_dashboard_backend.Model.{Time, Component, Incident}
use status_dashboard_backend.Store.Tables.{IncidentRow, Db, DbError, driver}
use status_dashboard_backend.Store.Read.{find_row}
use status_dashboard_backend.Store.Tx.{Driver, with_tx}
use status_dashboard_backend.Store.Write.{save_incident, new_row}
use status_dashboard_backend.Store.Components.{link}
use status_dashboard_backend.Store.Moves.{has_number, full_row, stamped, save_incident_full}
use status_dashboard_backend.Store.Moves.Edges.{has_number-edge}
use status_dashboard_backend.Store.Moves.Rows.{
  with_tx-ok, find_row-save_full, find_row-save_full_ne,
}
use status_dashboard_backend.Store.Changes.{
  extracted, note_moves, remove_all, extract_tx, extract_components_to_new_incident,
}
use status_dashboard_backend.Store.Changes.Removals.{
  has_component, removed_all, saved_rows, find_row-saved_ne,
}

-- The tables after the extraction of `comps`, with a component `i` and the row of another incident `j`.
pub record IsExtracted (comps : List Component) (old : Incident) (i j : ℕ) (db db' : Db)
    : Type 0 where
  pub target :
      (row : IncidentRow) × (find_row db' db.next_incident ≡ some row)
      × (has_number row.component_ids i ≡ has_component comps i)
  pub source :
      (row : IncidentRow) × (find_row db' old.id ≡ some row)
      × (has_number row.component_ids i
          ≡ (has_component old.components i && not (has_component comps i)))
  pub other : find_row db' j ≡ find_row db j

full_row-edge :
    (now : Time) (inc : Incident) (row : IncidentRow) (i : ℕ)
    → i ≢ 0
    → has_number (full_row (stamped now inc) row).component_ids i ≡ has_component inc.components i
unfolding full_row stamped
full_row-edge now inc row i n =
    has_number-edge inc.components row.component_ids i ∙ (ground (arith, eqb_iff i 0))

extract_tx-IsExtracted :
    (now : Time) (comps : List Component) (old old' new' : Incident) (i j : ℕ) (db db1 : Db)
    {r : Incident} {db' : Db}
    → i ≢ 0
    → old'.id ≡ old.id
    → old'.components ≡ old.components
    → new'.id ≡ db.next_incident
    → new'.components ≡ comps
    → old.id ≢ db.next_incident
    → j ≢ old.id
    → j ≢ db.next_incident
    → find_row db1 j ≡ find_row db j
    → extract_tx now comps old' new' db1 ≡ ok (r, db')
    → IsExtracted comps old i j db db'
unfolding extract_tx
extract_tx-IsExtracted now comps old old' new' i j db db1 {r} {db'} n oi oc ni nc apart u v k h =
    let ((old1, db2), a, k1) = >>=-eq-ok (remove_all comps old' db1) _ h in
    let ((new2, db3), b, k2) = >>=-eq-ok (save_incident_full now new' db2) _ k1 in
    let ((old3, db4), c, k3) = >>=-eq-ok (save_incident_full now old1 db3) _ k2 in
    let same : db4 ≡ db' = cc in
    let (rest, left) =
      removed_all i j comps old' db1 {old1 = old1} {db1 = db2} n (λ e. u (e ∙ oi)) a in
    let (row3, f3, g3) = find_row-save_full now new' db2 b in
    let (row4, f4, g4) = find_row-save_full now old1 db3 c in
    let o1 : old1.id ≡ old.id = rest.same_id ∙ oi in
    let last =
      λ (m : ℕ) (w : m ≢ old.id). find_row-save_full_ne now old1 db3 m c (λ e. w (e ∙ o1)) in
    subst (IsExtracted comps old i j db) same (record {
      target = (
        full_row (stamped now new') row3,
        last db.next_incident (λ e. apart (sym e))
            ∙ subst (λ m. find_row db3 m ≡ some (full_row (stamped now new') row3)) ni g3,
        full_row-edge now new' row3 i n ∙ ap (λ cs. has_component cs i) nc,
      );
      source = (
        full_row (stamped now old1) row4,
        subst (λ m. find_row db4 m ≡ some (full_row (stamped now old1) row4)) o1 g4,
        full_row-edge now old1 row4 i n
            ∙ rest.rest
            ∙ ap (λ cs. has_component cs i && not (has_component comps i)) oc,
      );
      other = last j u ∙ find_row-save_full_ne now new' db2 j b (λ e. v (e ∙ ni)) ∙ left ∙ k;
    })

-- the two incidents with the updates that tell of the moves
abbrev noted : Time → Component → List Component → Incident → Incident → Incident
noted now c cs old saved = record old {
  statuses = old.statuses ++ note_moves now old.id " moved to " (link saved) (c ∷ cs);
}

abbrev announced : Time → Component → List Component → Incident → Incident → Incident
announced now c cs old saved = record saved {
  statuses = note_moves now saved.id " moved from " (link old) (c ∷ cs);
}

extracted-components :
    (now : Time) (cs : List Component) (impact : ℤ) (text : String) (description : Option String)
    → (extracted now cs impact text description).components ≡ cs
unfolding extracted
extracted-components now cs impact text description = refl

titled_saved :
    (now : Time) (cs : List Component) (impact : ℤ) (text : String) (description : Option String)
    (db : Db) {x : DbError}
    → (text == "") ≡ false
    → save_incident now (extracted now cs impact text description) db ≡ err x
    → ⊥
unfolding save_incident extracted
titled_saved now cs impact text description db t h = ground arith

with_tx_fails :
    {A : Type 0} (d : Driver) (body : Db → Result DbError (A × Db)) (db : Db)
    → (d.begin_fails || d.commit_fails) ≡ true
    → (e : DbError) × (with_tx d body db ≡ (err e, db))
unfolding with_tx
with_tx_fails d body db f = elim (Bool-cases d.begin_fails) [
  | inl b ↦ (driver, rw b refl)
  | inr b ↦ elim (Result-cases (body db)) [
    | inl ((a, db1), g) ↦
        (driver, rw (b, g) (let c : d.commit_fails ≡ true = rw b at f in rw c refl))
    | inr (x, g) ↦ (x, rw (b, g) refl)
  ]
]

-- An extraction that succeeds, of a source other than the new incident's id, takes every component with an id out of the source
-- if and only if it was asked for, puts exactly those asked for into the new incident, and leaves
-- the row of every other incident as it was.
pub extract_components_lem :
    (d : Driver) (now : Time) (comps : List Component) (old : Incident) (impact : ℤ) (text : String)
    (description : Option String) (i j : ℕ) (db : Db) {new : Incident} {db' : Db}
    → i ≢ 0
    → old.id ≢ db.next_incident
    → j ≢ old.id
    → j ≢ db.next_incident
    → extract_components_to_new_incident d now comps old impact text description db ≡ (ok new, db')
    → IsExtracted comps old i j db db'
unfolding extract_components_to_new_incident
extract_components_lem d now [] old impact text description i j db n a u v h = cc
extract_components_lem d now (c ∷ cs) old impact text description i j db {new} {db'} n a u v h =
    let inc = extracted now (c ∷ cs) impact text description in
    elim (Result-cases (save_incident now inc db)) [
      | inl ((saved, db1), e) ↦
          let (si, sc, sr) = saved_rows now inc db e in
          let k : with_tx d
                (extract_tx now (c ∷ cs) (noted now c cs old saved) (announced now c cs old saved))
                db1
              ≡ (ok new, db') =
            rw (e, extract_components_to_new_incident) at h in
          extract_tx-IsExtracted now (c ∷ cs) old (noted now c cs old saved)
            (announced now c cs old saved) i j db db1 n refl refl si
            (sc ∙ extracted-components now (c ∷ cs) impact text description) a u v
            (find_row-saved_ne now inc db j e v)
            (with_tx-ok d
              (extract_tx now (c ∷ cs) (noted now c cs old saved) (announced now c cs old saved))
              db1 k)
      | inr (x, e) ↦ cc (
          let f : ◌≡◌ {A = Result DbError Incident × Db} (err x, db) (ok new, db') =
            rw (e, extract_components_to_new_incident) at h in
          f)
    ]

-- The new incident is stored before the transaction begins: with a title, an extraction whose transaction fails at its begin
-- or its commit reports the failure, and still leaves one incident row more, which has the
-- extracted components.
pub extract_failure_leaves_row :
    (d : Driver) (now : Time) (c : Component) (cs : List Component) (old : Incident) (impact : ℤ)
    (text : String) (description : Option String) (db : Db)
    → (d.begin_fails || d.commit_fails) ≡ true
    → (text == "") ≡ false
    → (e : DbError) × (db' : Db) × (extract_components_to_new_incident d now
          (c ∷ cs)
          old
          impact
          text
          description
          db
        ≡ (err e, db'))
      × (db'.incidents
          ≡ db.incidents
            ++ new_row now db.next_incident (extracted now (c ∷ cs) impact text description) ∷ [])
unfolding extract_components_to_new_incident
extract_failure_leaves_row d now c cs old impact text description db f t =
    let inc = extracted now (c ∷ cs) impact text description in
    elim (Result-cases (save_incident now inc db)) [
      | inl ((saved, db1), e) ↦
          let (x, g) =
            with_tx_fails d
              (extract_tx now (c ∷ cs) (noted now c cs old saved) (announced now c cs old saved))
              db1 f in
          (x, db1, rw (e, extract_components_to_new_incident) g, (saved_rows now inc db e).2)
      | inr (x, e) ↦ absurd (titled_saved now (c ∷ cs) impact text description db t e)
    ]
