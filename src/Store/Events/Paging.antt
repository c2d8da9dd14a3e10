-- ===== src/Store/Events/Paging.antt =====
-- The pages of the list of events (LIMIT and OFFSET of GetEventsWithCount).
use status_dashboard_backend.Common.{
  ℕ, suc, zero, ◌≡◌, refl, sym, ap, ◌∙◌, ◌+◌, ◌-◌, ◌*◌, ◌≤◌, ◌<◌, true, false, if_elim, ltb, Option,
  none, some, List, [], ◌∷◌, take, length, get_elem?, arith, All, All-take,
}
use status_dashboard_backend.Store.Tables.{IncidentRow}
use status_dashboard_backend.Store.Events.{
  IncidentsParams, page_of, drop, offset, last_rows, limited, insert_by_start, by_start_desc,
}

suc_shift : (n i : ℕ) → suc n + i ≡ suc (n + i)
suc_shift n i = omega arith

module _ {ℓ} {A : Type ℓ} where
  get_elem?-take : (n i : ℕ) (xs : List A) → i < n → get_elem? (take n xs) i ≡ get_elem? xs i
  get_elem?-take zero i xs h = absurd (omega (arith, h))
  get_elem?-take (suc n) i [] h = refl
  get_elem?-take (suc n) zero (x ∷ xs) h = refl
  get_elem?-take (suc n) (suc i) (x ∷ xs) h = get_elem?-take n i xs (omega (arith, h))

  get_elem?-drop : (n i : ℕ) (xs : List A) → get_elem? (drop n xs) i ≡ get_elem? xs (n + i)
  get_elem?-drop zero i xs = ap (get_elem? xs) (omega arith)
  get_elem?-drop (suc n) i [] = refl
  get_elem?-drop (suc n) i (x ∷ xs) =
      get_elem?-drop n i xs ∙ ap (get_elem? (x ∷ xs)) (sym (suc_shift n i))

  pub length-take-le : (n : ℕ) (xs : List A) → length (take n xs) ≤ n
  length-take-le zero xs = omega arith
  length-take-le (suc n) [] = omega arith
  length-take-le (suc n) (x ∷ xs) = omega (arith, length-take-le n xs)

module _ {ℓ κ} {A : Type ℓ} (P : A → Type κ) where
  pub All-drop : (n : ℕ) (xs : List A) → All P xs → All P (drop n xs)
  All-drop zero xs h = h
  All-drop (suc n) [] h = tt
  All-drop (suc n) (x ∷ xs) h = All-drop n xs h.1

module _ {κ} (P : IncidentRow → Type κ) where
  All-insert_by_start :
      (r : IncidentRow) (rs : List IncidentRow) → P r → All P rs → All P (insert_by_start r rs)
  unfolding insert_by_start
  All-insert_by_start r [] p h = (p, tt)
  All-insert_by_start r (x ∷ rs) p h =
      if_elim (All P) (ltb r.start_date x.start_date) _ (r ∷ x ∷ rs)
        (λ _. (h.0, All-insert_by_start r rs p h.1)) (λ _. (p, h))

  pub All-by_start_desc : (rs : List IncidentRow) → All P rs → All P (by_start_desc rs)
  unfolding by_start_desc
  All-by_start_desc [] h = tt
  All-by_start_desc (r ∷ rs) h =
      All-insert_by_start r (by_start_desc rs) h.0 (All-by_start_desc rs h.1)

  All-last_rows : (n : ℕ) (rs : List IncidentRow) → All P rs → All P (last_rows n rs)
  unfolding last_rows
  All-last_rows n rs h = if_elim (All P) (ltb 0 n) (take n rs) rs (λ _. All-take P n rs h) (λ _. h)

  All-offset :
      (page : Option ℕ) (limit : ℕ) (rs : List IncidentRow)
      → All P rs
      → All P (offset page limit rs)
  unfolding offset
  All-offset none limit rs h = h
  All-offset (some page) limit rs h =
      if_elim (All P) (ltb 1 page) (drop ((page - 1) * limit) rs) rs
        (λ _. All-drop P ((page - 1) * limit) rs h) (λ _. h)

  All-limited :
      (limit page : Option ℕ) (n : ℕ) (rs : List IncidentRow)
      → All P rs
      → All P (limited limit page n rs)
  unfolding limited
  All-limited none page n rs h = All-last_rows n rs h
  All-limited (some limit) page n rs h =
      if_elim (All P) (ltb 0 limit) (take limit (offset page limit rs)) (last_rows n rs)
        (λ _. All-take P limit (offset page limit rs) (All-offset page limit rs h))
        (λ _. All-last_rows n rs h)

  pub All-page_of : (p : IncidentsParams) (rs : List IncidentRow) → All P rs → All P (page_of p rs)
  unfolding page_of
  All-page_of p rs h = All-limited p.limit p.page p.last_count rs h

no_page : (page : ℕ) → ltb 1 page ≡ false → page - 1 ≡ 0
no_page page h = ground (arith, h)

first_page : (page limit i : ℕ) → ltb 1 page ≡ false → i ≡ (page - 1) * limit + i
first_page page limit i h = rw (no_page page h) (omega arith)

get_elem?-offset :
    (page limit i : ℕ) (rows : List IncidentRow)
    → get_elem? (offset (some page) limit rows) i ≡ get_elem? rows ((page - 1) * limit + i)
unfolding offset
get_elem?-offset page limit i rows =
    if_elim (λ r. get_elem? r i ≡ get_elem? rows ((page - 1) * limit + i)) (ltb 1 page)
      (drop ((page - 1) * limit) rows) rows (λ _. get_elem?-drop ((page - 1) * limit) i rows)
      (λ h. ap (get_elem? rows) (first_page page limit i h))

-- The pages tile the list: with a positive limit, place i of page k (counted from 1) is place
-- (k - 1) * limit + i of the whole list, and no page is longer than the limit.
page_of_lem :
    (p : IncidentsParams) (limit page i : ℕ) (rows : List IncidentRow)
    → p.limit ≡ some limit
    → p.page ≡ some page
    → i < limit
    → (get_elem? (page_of p rows) i ≡ get_elem? rows ((page - 1) * limit + i))
      × (length (page_of p rows) ≤ limit)
unfolding page_of limited
page_of_lem p limit page i rows hl hp hi =
    let positive : ltb 0 limit ≡ true = ground (arith, hi) in
    rw (page_of, hl, hp, limited, positive)
      (
        get_elem?-take limit i (offset (some page) limit rows) hi
            ∙ get_elem?-offset page limit i rows,
        length-take-le limit (offset (some page) limit rows),
      )
