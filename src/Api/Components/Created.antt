-- ===== src/Api/Components/Created.antt =====
-- Which attributes a new component may have, and the read of a component after its creation
-- (checkComponentAttrs, PostComponentHandler and GetComponentHandler in internal/api/v2/v2.go).
use status_dashboard_backend.Common.{
  ℕ, String, string_eq, ◌≡◌, refl, sym, ◌∙◌, ap, subst, arith, Bool, true, false, ◌||◌, ◌==◌,
  nat_eq, eqb_iff, none, some, List, [], ◌∷◌, ◌++◌, find, length, Result-cases, inl, inr, Result,
  ok, err,
}
use status_dashboard_backend.Model.{ComponentAttr, Component}
use status_dashboard_backend.Store.Tables.{Db, DbError, component_exists}
use status_dashboard_backend.Store.Tx.{Driver}
use status_dashboard_backend.Store.Components.{get_component, save_component}
use status_dashboard_backend.Api.Response.{component_not_exist, status_not_found}
use status_dashboard_backend.Api.Components.{
  has_name, available_attrs, then_all_seen, see_attrs, all_seen, check_component_attrs,
  post_component_handler, answer_component, get_component_handler,
}

abbrev pub names_of : List ComponentAttr → List String
names_of [] = []
names_of (a ∷ attrs) = a.name ∷ names_of attrs

-- Three attributes that carry the names "type", "region" and "category".
abbrev pub IsComplete : List ComponentAttr → Type 0
IsComplete attrs =
    (length attrs ≡ 3)
    × (has_name (names_of attrs) "type" ≡ true)
    × (has_name (names_of attrs) "region" ≡ true)
    × (has_name (names_of attrs) "category" ≡ true)

or_false : (a : Bool) → a ≡ (a || false)
or_false true = refl
or_false false = refl

or_swap : (a b c : Bool) → ((a || b) || c) ≡ (b || (a || c))
or_swap true true c = refl
or_swap true false c = refl
or_swap false b c = refl

seen_names :
    (seen : List String) (attrs : List ComponentAttr) (n : String) {r : List String}
    → see_attrs seen attrs ≡ ok r
    → has_name r n ≡ (has_name seen n || has_name (names_of attrs) n)
unfolding see_attrs
seen_names seen [] n {r} h = let e : seen ≡ r = cc in rw (← e) (or_false (has_name seen n))
seen_names seen (a ∷ attrs) n {r} h =
    let k : see_attrs (a.name ∷ seen) attrs ≡ ok r = ground arith in
    seen_names (a.name ∷ seen) attrs n {r = r} k
    ∙ or_swap (a.name == n) (has_name seen n) (has_name (names_of attrs) n)

seen_required :
    (seen : List String)
    → all_seen seen available_attrs ≡ ok tt
    → (has_name seen "type" ≡ true)
      × (has_name seen "region" ≡ true)
      × (has_name seen "category" ≡ true)
unfolding all_seen
seen_required seen h = ground arith

checked_IsComplete :
    (attrs : List ComponentAttr) → check_component_attrs attrs ≡ ok tt → IsComplete attrs
unfolding check_component_attrs then_all_seen
checked_IsComplete attrs h = elim (Result-cases (see_attrs [] attrs)) [
  | inl (r, e) ↦
      let three : length attrs ≡ 3 = ground arith in
      let (t, g, c) = seen_required r (ground (arith, e, h)) in
      (
        three,
        sym (seen_names [] attrs "type" e) ∙ t,
        sym (seen_names [] attrs "region" e) ∙ g,
        sym (seen_names [] attrs "category" e) ∙ c,
      )
  | inr (x, e) ↦ ground (arith, e, h)
]

find-append :
    (i : ℕ) (cs : List Component) (c : Component)
    → find (λ (x : Component). x.id == i) cs ≡ none
    → c.id ≡ i
    → find (λ (x : Component). x.id == i) (cs ++ c ∷ []) ≡ some c
find-append i [] c h e = ground (arith, eqb_iff c.id i)
find-append i (x ∷ cs) c h e = ground (arith, find-append i cs c)

saved_component :
    (d : Driver) (comp : Component) (db : Db) {i : ℕ} {db' : Db}
    → save_component d comp db ≡ (ok i, db')
    → (i ≡ db.next_component)
      × (db'.components ≡ db.components ++ record comp { id = db.next_component } ∷ [])
unfolding save_component
saved_component d comp db h = ground arith

not_answered :
    (name : String) (attrs : List ComponentAttr) (e : DbError) (db : Db) {c : Component} {db' : Db}
    → answer_component name attrs (err e, db) ≡ (ok c, db')
    → ⊥
unfolding answer_component
not_answered name attrs component_exists db h = cc
not_answered name attrs _ db h = cc

answered :
    (name : String) (attrs : List ComponentAttr) (r : Result DbError ℕ × Db) {c : Component}
    {db' : Db}
    → answer_component name attrs r ≡ (ok c, db')
    → (i : ℕ) × (r ≡ (ok i, db')) × (c ≡ record { id = i; name = name; attrs = attrs })
unfolding answer_component
answered name attrs (ok i, db) h = (i, ground arith, ground arith)
answered name attrs (err e, db) h = absurd (not_answered name attrs e db h)

posted :
    (d : Driver) (name : String) (attrs : List ComponentAttr) (db : Db) {c : Component} {db' : Db}
    → post_component_handler d name attrs db ≡ (ok c, db')
    → (check_component_attrs attrs ≡ ok tt)
      × (answer_component name attrs
            (save_component d (record { id = 0; name = name; attrs = attrs }) db)
          ≡ (ok c, db'))
unfolding post_component_handler
posted d name attrs db h = ground arith

read_back :
    (db db' : Db) (new : Component)
    → get_component_handler db.next_component db ≡ err (status_not_found component_not_exist)
    → new.id ≡ db.next_component
    → db'.components ≡ db.components ++ new ∷ []
    → get_component_handler db.next_component db' ≡ ok new
unfolding get_component_handler get_component
read_back db db' new f e g = ground (arith, g, find-append db.next_component db.components new)

-- A component whose creation succeeds, under an unused id, has three attributes with the names "type", "region" and
-- "category", and the read of its id then answers with exactly the component that the creation
-- answered with, which has the name and the attributes of the request.
pub get_component-post :
    (d : Driver) (name : String) (attrs : List ComponentAttr) (db : Db) {c : Component} {db' : Db}
    → get_component_handler db.next_component db ≡ err (status_not_found component_not_exist)
    → post_component_handler d name attrs db ≡ (ok c, db')
    → IsComplete attrs
      × (c ≡ record { id = db.next_component; name = name; attrs = attrs })
      × (get_component_handler c.id db' ≡ ok c)
get_component-post d name attrs db {c} {db'} f h =
    let (k, a) = posted d name attrs db h in
    let (i, s, e) = answered name attrs _ a in
    let (n, g) = saved_component d (record { id = 0; name = name; attrs = attrs }) db s in
    let new : Component = record { id = db.next_component; name = name; attrs = attrs } in
    let same : c ≡ new = e ∙ ap (λ (m : ℕ). record { id = m; name = name; attrs = attrs }) n in
    (
      checked_IsComplete attrs k,
      same,
      subst (λ x. get_component_handler x.id db' ≡ ok x) (sym same) (read_back db db' new f refl g),
    )
