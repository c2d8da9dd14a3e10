-- ===== src/Api/Extract/Rest.antt =====
-- Who may extract components, and that at least one stays behind (PostIncidentExtractHandler and
-- getComponentsToExtract in internal/api/v2/v2.go).
use status_dashboard_backend.Common.{
  ℕ, suc, ◌≤◌, ◌≡◌, ◌≢◌, refl, sym, ◌∙◌, ap, subst, arith, Bool, true, false, ◌==◌, nat_eq, eqb_iff,
  if◌then◌else◌, some, List, [], ◌∷◌, All, any, length, Bool-cases, inl, inr, ◌⊎◌, Result, ok, err,
  >>=-eq-ok, Option-cases, DistinctBy,
}
use status_dashboard_backend.Event.{incident, event_type_eq}
use status_dashboard_backend.Model.{Component, Incident}
use status_dashboard_backend.Rbac.{Role, operator, can_approve}
use status_dashboard_backend.Api.Response.{
  ApiError, extract_unknown_component, extract_all_components, auth_forbidden, forbidden, Caller,
}
use status_dashboard_backend.Api.Extract.{
  stored_component, find_all, get_components_to_extract, prepare_extract,
}

-- The list has the number.
abbrev pub has : List ℕ → ℕ → Bool
has xs i = any (λ j. j == i) xs

abbrev pub DistinctNumbers : List ℕ → Type 0
DistinctNumbers = DistinctBy (λ (n : ℕ). n)

-- the list without the first occurrence of `i`
without : ℕ → List ℕ → List ℕ
without i [] = []
without i (x ∷ xs) = if x == i then xs else x ∷ without i xs

length-without : (i : ℕ) (xs : List ℕ) → has xs i ≡ true → suc (length (without i xs)) ≡ length xs
unfolding without
length-without i [] h = cc
length-without i (x ∷ xs) h = ground (arith, length-without i xs)

has-without : (i j : ℕ) (xs : List ℕ) → j ≢ i → has (without i xs) j ≡ has xs j
unfolding without
has-without i j [] n = refl
has-without i j (x ∷ xs) n = ground (arith, has-without i j xs n, eqb_iff x i, eqb_iff x j)

all_without :
    (i : ℕ) (xs ys : List ℕ)
    → All (λ (y : ℕ). y ≢ i) xs
    → All (λ (y : ℕ). has ys y ≡ true) xs
    → All (λ (y : ℕ). has (without i ys) y ≡ true) xs
all_without i [] ys n h = tt
all_without i (x ∷ xs) ys n h = (has-without i x ys n.0 ∙ h.0, all_without i xs ys n.1 h.1)

-- Distinct numbers that all stand in a list are at most as many as its elements.
pigeonhole :
    (xs ys : List ℕ)
    → DistinctNumbers xs
    → All (λ (y : ℕ). has ys y ≡ true) xs
    → length xs ≤ length ys
pigeonhole [] ys d h = omega arith
pigeonhole (x ∷ xs) ys d h =
    let rest = pigeonhole xs (without x ys) d.1 (all_without x xs ys d.0 h.1) in
    omega (arith, rest, length-without x ys h.0)

-- Either all numbers stand in the list, or one does not.
missing :
    (xs ys : List ℕ)
    → All (λ (y : ℕ). has ys y ≡ true) xs ⊎ ((i : ℕ) × (has xs i ≡ true) × (has ys i ≡ false))
missing [] ys = inl tt
missing (x ∷ xs) ys = elim (Bool-cases (has ys x)) [
  | inl e ↦ elim (missing xs ys) [ inl h ↦ inl (e, h) | inr (i, p, q) ↦ inr (i, ground arith, q) ]
  | inr e ↦ inr (x, ground (arith, eqb_iff x x), e)
]

-- The ids of components.
abbrev pub ids : List Component → List ℕ
ids [] = []
ids (c ∷ cs) = c.id ∷ ids cs

length-ids : (cs : List Component) → length (ids cs) ≡ length cs
length-ids [] = refl
length-ids (c ∷ cs) = ap suc (length-ids cs)

stored_component-id :
    (i : ℕ) (cs : List Component) {c : Component}
    → stored_component i cs ≡ some c
    → (c.id ≡ i) × (has (ids cs) i ≡ true)
unfolding stored_component
stored_component-id i [] h = cc
stored_component-id i (x ∷ cs) {c} h =
    ground (arith, stored_component-id i cs {c = c}, eqb_iff x.id i)

found_ids :
    (requested : List ℕ) (stored : List Component) {moved : List Component}
    → find_all requested stored ≡ ok moved
    → (ids moved ≡ requested) × All (λ (i : ℕ). has (ids stored) i ≡ true) requested
unfolding find_all
found_ids [] stored {moved} h = let e : [] ≡ moved = cc in (ap ids (sym e), tt)
found_ids (i ∷ requested) stored {moved} h = elim (Option-cases (stored_component i stored)) [
  | inl e ↦ cc (let f : err extract_unknown_component ≡ ok moved = rw (e, find_all) at h in f)
  | inr (c, e) ↦
      let (cs, p, q) = >>=-eq-ok (find_all requested stored) _ (rw (e, find_all) at h) in
      let (same, known) = found_ids requested stored {moved = cs} p in
      let (k, m) = stored_component-id i stored e in
      let f : c ∷ cs ≡ moved = cc in (rw (← f) (ground (arith, k, same)), (m, known))
]

not_all :
    (moved stored : List Component)
    → (length moved == length stored) ≡ false
    → length moved ≢ length stored
not_all moved stored h e = ground (arith, eqb_iff (length moved) (length stored))

extractable :
    (requested : List ℕ) (stored : List Component) {moved : List Component}
    → get_components_to_extract requested stored ≡ ok moved
    → (find_all requested stored ≡ ok moved) × (length moved ≢ length stored)
unfolding get_components_to_extract
extractable requested stored {moved} h =
    let (m, p, q) = >>=-eq-ok (find_all requested stored) _ h in
    elim (Bool-cases (length m == length stored)) [
      | inl e ↦ cc (
          let f : ◌≡◌ {A = Result ApiError (List Component)} (err extract_all_components)
              (ok moved) =
            rw e at q in
          f)
      | inr e ↦
          let f : ◌≡◌ {A = Result ApiError (List Component)} (ok m) (ok moved) = rw e at q in
          let g : m ≡ moved = cc in
          (p ∙ f, subst (λ (x : List Component). length x ≢ length stored) g (not_all m stored e))
    ]

one_left :
    (requested : List ℕ) (stored moved : List Component)
    → DistinctNumbers requested
    → DistinctNumbers (ids stored)
    → ids moved ≡ requested
    → All (λ (i : ℕ). has (ids stored) i ≡ true) requested
    → length moved ≢ length stored
    → (i : ℕ) × (has (ids stored) i ≡ true) × (has requested i ≡ false)
one_left requested stored moved dr ds same known n = elim (missing (ids stored) requested) [
  | inl h ↦ absurd (
      n (
        omega (
          arith,
          pigeonhole requested (ids stored) dr known,
          pigeonhole (ids stored) requested ds h,
          length-ids stored,
          length-ids moved,
          ap (length {A = ℕ}) same,
        )))
  | inr (i, p, q) ↦ (i, p, q)
]

prepared_extract :
    (c : Caller) (stored : Incident) (requested : List ℕ) {moved : List Component}
    → prepare_extract c stored requested ≡ ok moved
    → (role : Role) × (c.role ≡ some role)
      × (operator ≤ role)
      × (stored.type ≡ incident)
      × (get_components_to_extract requested stored.components ≡ ok moved)
unfolding prepare_extract can_approve
prepared_extract c stored requested {moved} h = elim (Option-cases c.role) [
  | inl e ↦
      cc (let f : err (forbidden auth_forbidden) ≡ ok moved = rw (e, prepare_extract) at h in f)
  | inr (role, e) ↦
      let k = rw (e, prepare_extract) at h in
      (role, e, ground (arith, k), ground (arith, k), ground (arith, k))
]

-- An extraction that the handler accepts is one by an operator or admin, from an incident. With distinct ids in the
-- request and in the incident it moves exactly the requested components, in their order, and one
-- of the incident's components stays behind.
pub prepare_extract_rest :
    (c : Caller) (stored : Incident) (requested : List ℕ) {moved : List Component}
    → DistinctNumbers requested
    → DistinctNumbers (ids stored.components)
    → prepare_extract c stored requested ≡ ok moved
    → (role : Role) × (c.role ≡ some role)
      × (operator ≤ role)
      × (stored.type ≡ incident)
      × (ids moved ≡ requested)
      × (i : ℕ) × (has (ids stored.components) i ≡ true)
      × (has requested i ≡ false)
prepare_extract_rest c stored requested {moved} dr ds h =
    let (role, r, o, t, g) = prepared_extract c stored requested h in
    let (f, n) = extractable requested stored.components g in
    let (same, known) = found_ids requested stored.components f in
    let (i, p, q) = one_left requested stored.components moved dr ds same known n in
    (role, r, o, t, same, i, p, q)
