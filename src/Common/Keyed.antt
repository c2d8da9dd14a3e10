-- ===== src/Common/Keyed.antt =====
-- Lists whose elements carry distinct keys.
use Prim.Native.Nat.{ℕ, zero, suc}
use mathlib.Core.Path.{◌≡◌, subst}
use mathlib.Core.Bool.{Bool}
use mathlib.Core.Logic.{◌≢◌, inl, inr}
use mathlib.Core.Option.{some}
use mathlib.Core.List.{List, [], ◌∷◌}
use status_dashboard_backend.Common.Tests.{Bool-cases}
use status_dashboard_backend.Common.Lists.{All, keep, get_elem?}

module _ {ℓ κ} {A : Type ℓ} (P : A → Type κ) where
  pub All-get : (xs : List A) (i : ℕ) {x : A} → All P xs → get_elem? xs i ≡ some x → P x
  All-get [] i h e = cc
  All-get (y ∷ xs) zero {x} h e = subst P (let same : y ≡ x = cc in same) h.0
  All-get (y ∷ xs) (suc i) {x} h e = All-get xs i {x = x} h.1 e

  pub All-keep_weak : (p : A → Bool) (xs : List A) → All P xs → All P (keep p xs)
  All-keep_weak p [] h = tt
  All-keep_weak p (x ∷ xs) h = elim (Bool-cases (p x)) [
    | inl e ↦ rw e (h.0, All-keep_weak p xs h.1)
    | inr e ↦ rw e (All-keep_weak p xs h.1)
  ]

module _ {ℓ} {A : Type ℓ} where
  -- an element that was kept stands in the list
  pub get-keep :
      (p : A → Bool) (xs : List A) (i : ℕ) {x : A}
      → get_elem? (keep p xs) i ≡ some x
      → (k : ℕ) × (get_elem? xs k ≡ some x)
  get-keep p [] i h = cc
  get-keep p (y ∷ xs) zero {x} h = elim (Bool-cases (p y)) [
    | inl e ↦ (zero, rw e at h)
    | inr e ↦ let (k, f) = get-keep p xs zero {x = x} (rw e at h) in (suc k, f)
  ]
  get-keep p (y ∷ xs) (suc i) {x} h = elim (Bool-cases (p y)) [
    | inl e ↦ let (k, f) = get-keep p xs i {x = x} (rw e at h) in (suc k, f)
    | inr e ↦ let (k, f) = get-keep p xs (suc i) {x = x} (rw e at h) in (suc k, f)
  ]

module _ {ℓ} {A : Type ℓ} (key : A → ℕ) where
  abbrev pub DistinctBy : List A → Type 0
  DistinctBy [] = Unit
  DistinctBy (x ∷ xs) = All (λ y. key y ≢ key x) xs × DistinctBy xs

  pub DistinctBy-keep : (p : A → Bool) (xs : List A) → DistinctBy xs → DistinctBy (keep p xs)
  DistinctBy-keep p [] h = tt
  DistinctBy-keep p (x ∷ xs) h = elim (Bool-cases (p x)) [
    | inl e ↦ rw e (All-keep_weak (λ y. key y ≢ key x) p xs h.0, DistinctBy-keep p xs h.1)
    | inr e ↦ rw e (DistinctBy-keep p xs h.1)
  ]
