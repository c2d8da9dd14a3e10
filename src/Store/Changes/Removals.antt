-- ===== src/Store/Changes/Removals.antt =====
-- The steps of an extraction (ExtractComponentsToNewIncident in internal/db/db.go): the new incident's row, and
-- the removal of the components from the source.
use status_dashboard_backend.Common.{
  ℕ, suc, ◌≡◌, ◌≢◌, refl, sym, ◌∙◌, ap, arith, Bool, true, ◌&&◌, not, ◌==◌, nat_eq, string_eq,
  eqb_iff, List, [], ◌∷◌, ◌++◌, any, keep, find, Bool-cases, inl, inr, ok, >>=-eq-ok,
}
use status_dashboard_backend.Model.{Time, Component, Incident}
use status_dashboard_backend.Store.Tables.{IncidentRow, Db}
use status_dashboard_backend.Store.Read.{find_row}
use status_dashboard_backend.Store.Write.{save_incident, new_row}
use status_dashboard_backend.Store.Updates.{incidents-insert_new_incident_statuses}
use status_dashboard_backend.Store.Moves.{
  row_has_id, remove_incident_component, drop_incident_component,
}
use status_dashboard_backend.Store.Moves.Rows.{find_row-remove_ne}
use status_dashboard_backend.Store.Changes.{remove_all}

-- The list has the component.
abbrev pub has_component : List Component → ℕ → Bool
has_component cs i = any (λ (c : Component). c.id == i) cs

has_component-dropped :
    (i k : ℕ) (cs : List Component)
    → has_component (keep (λ (c : Component). not (c.id == k)) cs) i
      ≡ (has_component cs i && not (k == i))
has_component-dropped i k [] = refl
has_component-dropped i k (c ∷ cs) =
    ground (arith, has_component-dropped i k cs, eqb_iff c.id k, eqb_iff c.id i, eqb_iff k i)

-- The rest of the source after the removals.
pub record Rest (i : ℕ) (cs : List Component) (old old1 : Incident) : Type 0 where
  pub same_id : old1.id ≡ old.id
  pub rest :
      has_component old1.components i ≡ (has_component old.components i && not (has_component cs i))

Rest-drop :
    (i : ℕ) (c : Component) (cs : List Component) (old old1 : Incident)
    → Rest i cs (drop_incident_component c.id old) old1
    → Rest i (c ∷ cs) old old1
unfolding drop_incident_component
Rest-drop i c cs old old1 r = record {
  same_id = r.same_id;
  rest = ground (arith, r.rest, has_component-dropped i c.id old.components);
}

Rest-skip :
    (i : ℕ) (c : Component) (cs : List Component) (old old1 : Incident)
    → i ≢ 0
    → (c.id == 0) ≡ true
    → Rest i cs old old1
    → Rest i (c ∷ cs) old old1
Rest-skip i c cs old old1 n z r = record {
  same_id = r.same_id;
  rest = ground (arith, r.rest, eqb_iff c.id 0, eqb_iff c.id i);
}

dropped_ne : (k : ℕ) (old : Incident) (j : ℕ) → j ≢ old.id → j ≢ (drop_incident_component k old).id
unfolding drop_incident_component
dropped_ne k old j m = m

pub removed_all :
    (i j : ℕ) (cs : List Component) (old : Incident) (db : Db) {old1 : Incident} {db1 : Db}
    → i ≢ 0
    → j ≢ old.id
    → remove_all cs old db ≡ ok (old1, db1)
    → Rest i cs old old1 × (find_row db1 j ≡ find_row db j)
unfolding remove_all
removed_all i j [] old db {old1} {db1} n m h =
    let e : old ≡ old1 = cc in
    (
      record { same_id = ap (λ (o : Incident). o.id) (sym e); rest = rw (← e) (ground arith) },
      ap (λ x. find_row x j) (let f : db1 ≡ db = cc in f),
    )
removed_all i j (c ∷ cs) old db {old1} {db1} n m h = elim (Bool-cases (c.id == 0)) [
  | inl z ↦
      let (r, k) =
        removed_all i j cs old db {old1 = old1} {db1 = db1} n m (rw (z, remove_all) at h) in
      (Rest-skip i c cs old old1 n z r, k)
  | inr z ↦
      let (db2, p, q) =
        >>=-eq-ok (remove_incident_component old.id c.id db) _ (rw (z, remove_all) at h) in
      let (r, k) =
        removed_all i j cs (drop_incident_component c.id old) db2 {old1 = old1} {db1 = db1} n
          (dropped_ne c.id old j m) q in
      (Rest-drop i c cs old old1 r, k ∙ find_row-remove_ne old.id c.id db j p m)
]

pub saved_rows :
    (now : Time) (inc : Incident) (db : Db) {saved : Incident} {db1 : Db}
    → save_incident now inc db ≡ ok (saved, db1)
    → (saved.id ≡ db.next_incident)
      × (saved.components ≡ inc.components)
      × (db1.incidents ≡ db.incidents ++ new_row now db.next_incident inc ∷ [])
unfolding save_incident new_row
saved_rows now inc db h =
    let row = new_row now db.next_incident inc in
    ground (
      arith,
      incidents-insert_new_incident_statuses now db.next_incident inc.statuses (record db {
        incidents = db.incidents ++ row ∷ [];
        next_incident = suc db.next_incident;
      }),
    )

find-append_ne :
    (j : ℕ) (rows : List IncidentRow) (row : IncidentRow)
    → j ≢ row.id
    → find (row_has_id j) (rows ++ row ∷ []) ≡ find (row_has_id j) rows
find-append_ne j [] row n = ground (arith, eqb_iff row.id j)
find-append_ne j (r ∷ rows) row n = ground (arith, find-append_ne j rows row n)

pub find_row-saved_ne :
    (now : Time) (inc : Incident) (db : Db) (j : ℕ) {saved : Incident} {db1 : Db}
    → save_incident now inc db ≡ ok (saved, db1)
    → j ≢ db.next_incident
    → find_row db1 j ≡ find_row db j
unfolding find_row new_row
find_row-saved_ne now inc db j h n =
    ap (find (row_has_id j)) (saved_rows now inc db h).2
    ∙ find-append_ne j db.incidents (new_row now db.next_incident inc) n
