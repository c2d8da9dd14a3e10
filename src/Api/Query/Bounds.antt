-- ===== src/Api/Query/Bounds.antt =====
-- The bounds of what a query of the list passes on (validation.go), and of the page count.
use status_dashboard_backend.Common.{
  ℕ, zero, suc, eqb, ◌%◌, true, false, ltb, nat_eq, text_eq, Option, some, List, [], ◌∷◌, Result,
  ok, Text, ◌+◌, ◌-◌, ◌*◌, ◌/◌, ℤ, ◌≡◌, arith, ◌≤◌, ◌<◌, All, inl, inr, Option-cases, Result-cases,
  subst, sym,
}
use native.Mathlib.Nat.{div-add-mod, mod-lt, mul_comm, mul-suc, suc-mul}
use status_dashboard_backend.Event.{event_type_eq}
use status_dashboard_backend.Api.Response.{ApiError}
use status_dashboard_backend.Api.Query.{
  parse_components, component_id, max_component_id, total_pages,
}

parse_components_cons :
    (atoi : Text → Option ℤ) (s : Text) (ss : List Text) {ns : List ℕ}
    → parse_components atoi (s ∷ ss) ≡ ok ns
    → (n : ℕ) × (rest : List ℕ) × (component_id (atoi s) ≡ some n)
      × (parse_components atoi ss ≡ ok rest)
      × (ns ≡ n ∷ rest)
unfolding parse_components
parse_components_cons atoi s ss h = elim (Option-cases (component_id (atoi s))) [
  | inl e ↦ ground arith
  | inr (n, e) ↦ elim (Result-cases (parse_components atoi ss)) [
    | inl (rest, q) ↦ (n, rest, e, q, ground arith)
    | inr (x, q) ↦ ground arith
  ]
]

component_id_bounds :
    (o : Option ℤ) (n : ℕ) → component_id o ≡ some n → (1 ≤ n) × (n ≤ max_component_id)
component_id_bounds o n h = ground arith

none_parsed : {ns : List ℕ} → ◌≡◌ {A = Result ApiError (List ℕ)} (ok []) (ok ns) → [] ≡ ns
none_parsed h = cc

-- Every component id that a query passes on is between 1 and 2048.
parse_components_bounds :
    (atoi : Text → Option ℤ) (ss : List Text) {ns : List ℕ}
    → parse_components atoi ss ≡ ok ns
    → All (λ n. (1 ≤ n) × (n ≤ max_component_id)) ns
unfolding parse_components
parse_components_bounds atoi [] h =
    subst (All (λ n. (1 ≤ n) × (n ≤ max_component_id))) (none_parsed h) tt
parse_components_bounds atoi (s ∷ ss) h =
    let (n, rest, e, q, r) = parse_components_cons atoi s ss h in
    subst (All (λ n. (1 ≤ n) × (n ≤ max_component_id))) (sym r)
      (component_id_bounds (atoi s) n e, parse_components_bounds atoi ss q)

pages_fit :
    (limit q r total : ℕ)
    → limit * q + r ≡ total + limit - 1
    → r < limit
    → 0 < total
    → (total ≤ q * limit) × ((q - 1) * limit < total)
pages_fit limit zero r total h m t = absurd (omega (arith, h, m, t))
pages_fit limit (suc k) r total h m t =
    let p : suc k - 1 ≡ k = omega arith in
    rw p (
      omega (arith, h, m, t, mul-suc limit k, suc-mul k limit, mul_comm limit k),
      omega (arith, h, m, t, mul-suc limit k, suc-mul k limit, mul_comm limit k),
    )

-- The number of pages is enough for the records and not one too many: with a positive limit and at least one record,
-- the pages hold all of them, and without the last page they would not.
total_pages_bounds :
    (limit total : ℕ)
    → 0 < limit
    → 0 < total
    → (total ≤ total_pages limit total * limit) × ((total_pages limit total - 1) * limit < total)
unfolding total_pages
total_pages_bounds limit total l t =
    let positive : eqb limit 0 ≡ false = ground (arith, l) in
    let some_records : ltb 0 total ≡ true = ground (arith, t) in
    rw (total_pages, positive, some_records)
      (pages_fit limit ((total + limit - 1) / limit) ((total + limit - 1) % limit) total
        (div-add-mod (total + limit - 1) limit) (mod-lt (total + limit - 1) l) t)
