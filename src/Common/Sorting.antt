-- ===== src/Common/Sorting.antt =====
-- Lists in falling order of a number, by insertion: the ORDER BY … DESC of a query and sort.Slice, which both
-- leave the order of equal elements open; here they keep theirs.
use Prim.Native.Nat.{ℕ, zero, suc, ◌≤◌}
use mathlib.Core.Path.{◌≡◌, refl, ap, ◌∙◌}
use mathlib.Core.Logic.{inl, inr}
use mathlib.Core.List.{List, [], ◌∷◌, ◌++◌, Perm}
use mathlib.Core.List.Perm
use native.Mathlib.Omega.{arith}
use status_dashboard_backend.Common.Tests.{if◌then◌else◌, if_elim, leb, Bool-cases}
use status_dashboard_backend.Common.Lists.{length, take, All, All-take}

module _ {A : Type 0} (key : A → ℕ) where
  unfoldable pub insert_desc : A → List A → List A
  insert_desc x [] = x ∷ []
  insert_desc x (y ∷ ys) =
      let rest = insert_desc x ys in if leb (key y) (key x) then x ∷ y ∷ ys else y ∷ rest

  unfoldable pub sort_desc : List A → List A
  unfolding insert_desc
  sort_desc [] = []
  sort_desc (x ∷ xs) = insert_desc x (sort_desc xs)

  -- No element comes after a smaller one.
  abbrev pub IsDescending : List A → Type 0
  IsDescending [] = Unit
  IsDescending (x ∷ xs) = All (λ (y : A). key y ≤ key x) xs × IsDescending xs

  pub All-insert_desc :
      (P : A → Type 0) (x : A) (xs : List A) → P x → All P xs → All P (insert_desc x xs)
  unfolding insert_desc
  All-insert_desc P x [] p h = (p, tt)
  All-insert_desc P x (y ∷ ys) p h =
      if_elim (All P) (leb (key y) (key x)) (x ∷ y ∷ ys) (y ∷ insert_desc x ys) (λ _. (p, h))
        (λ _. (h.0, All-insert_desc P x ys p h.1))

  pub All-sort_desc : (P : A → Type 0) (xs : List A) → All P xs → All P (sort_desc xs)
  unfolding sort_desc
  All-sort_desc P [] h = tt
  All-sort_desc P (x ∷ xs) h = All-insert_desc P x (sort_desc xs) h.0 (All-sort_desc P xs h.1)

  length-insert_desc : (x : A) (xs : List A) → length (insert_desc x xs) ≡ suc (length xs)
  unfolding insert_desc
  length-insert_desc x [] = refl
  length-insert_desc x (y ∷ ys) = ground (arith, length-insert_desc x ys)

  pub length-sort_desc : (xs : List A) → length (sort_desc xs) ≡ length xs
  unfolding sort_desc
  length-sort_desc [] = refl
  length-sort_desc (x ∷ xs) = length-insert_desc x (sort_desc xs) ∙ ap suc (length-sort_desc xs)

  at_most_trans :
      (x y : A) (xs : List A)
      → key y ≤ key x
      → All (λ (z : A). key z ≤ key y) xs
      → All (λ (z : A). key z ≤ key x) xs
  at_most_trans x y [] p h = tt
  at_most_trans x y (z ∷ xs) p h = (omega (arith, p, h.0), at_most_trans x y xs p h.1)

  insert-IsDescending : (x : A) (xs : List A) → IsDescending xs → IsDescending (insert_desc x xs)
  unfolding insert_desc
  insert-IsDescending x [] h = (tt, tt)
  insert-IsDescending x (y ∷ ys) h = elim (Bool-cases (leb (key y) (key x))) [
    | inl e ↦ let p : key y ≤ key x = ground (arith, e) in rw e ((p, at_most_trans x y ys p h.0), h)
    | inr e ↦
        let p : key x ≤ key y = ground (arith, e) in
        rw e (All-insert_desc (λ (z : A). key z ≤ key y) x ys p h.0, insert-IsDescending x ys h.1)
  ]

  pub sort-IsDescending : (xs : List A) → IsDescending (sort_desc xs)
  unfolding sort_desc
  sort-IsDescending [] = tt
  sort-IsDescending (x ∷ xs) = insert-IsDescending x (sort_desc xs) (sort-IsDescending xs)

  pub take-IsDescending : (n : ℕ) (xs : List A) → IsDescending xs → IsDescending (take n xs)
  take-IsDescending zero xs h = tt
  take-IsDescending (suc n) [] h = tt
  take-IsDescending (suc n) (x ∷ xs) h =
      (All-take (λ (y : A). key y ≤ key x) n xs h.0, take-IsDescending n xs h.1)

  -- OFFSET
  abbrev pub left_out : ℕ → List A → List A
  left_out zero xs = xs
  left_out (suc n) [] = []
  left_out (suc n) (x ∷ xs) = left_out n xs

  All-left_out : (P : A → Type 0) (n : ℕ) (xs : List A) → All P xs → All P (left_out n xs)
  All-left_out P zero xs h = h
  All-left_out P (suc n) [] h = tt
  All-left_out P (suc n) (x ∷ xs) h = All-left_out P n xs h.1

  pub take-left_out : (n : ℕ) (xs : List A) → take n xs ++ left_out n xs ≡ xs
  take-left_out zero xs = refl
  take-left_out (suc n) [] = refl
  take-left_out (suc n) (x ∷ xs) = ap (◌∷◌ x) (take-left_out n xs)

  -- What is left out of a falling list is not larger than what is taken.
  pub left_out-le-take :
      (n : ℕ) (xs : List A)
      → IsDescending xs
      → All (λ (x : A). All (λ (y : A). key y ≤ key x) (left_out n xs)) (take n xs)
  left_out-le-take zero xs h = tt
  left_out-le-take (suc n) [] h = tt
  left_out-le-take (suc n) (x ∷ xs) h =
      (All-left_out (λ (y : A). key y ≤ key x) n xs h.0, left_out-le-take n xs h.1)

  insert_desc-perm : (x : A) (xs : List A) → Perm (insert_desc x xs) (x ∷ xs)
  unfolding insert_desc
  insert_desc-perm x [] = Perm.rfl
  insert_desc-perm x (y ∷ ys) = elim (Bool-cases (leb (key y) (key x))) [
    | inl e ↦ rw e Perm.rfl
    | inr e ↦ rw e (Perm.trans (Perm.cons y (insert_desc-perm x ys)) (Perm.swap x y ys))
  ]

  pub sort_desc-perm : (xs : List A) → Perm (sort_desc xs) xs
  unfolding sort_desc
  sort_desc-perm [] = Perm.rfl
  sort_desc-perm (x ∷ xs) =
      Perm.trans (insert_desc-perm x (sort_desc xs)) (Perm.cons x (sort_desc-perm xs))
