-- ===== src/Store/Moves/Edges.antt =====
-- The component edge after the reconciliation of internal/db/write.go, and the row after a full write.
use status_dashboard_backend.Common.{
  ℕ, ◌≡◌, ◌≢◌, refl, ◌∙◌, ap, arith, Bool, true, false, ◌&&◌, ◌||◌, not, ◌==◌, nat_eq, eqb_iff,
  List, [], ◌∷◌, ◌++◌, any, any-append, map, keep, Bool-cases, inl, inr,
}
use mathlib.Core.Bool.{false≢true}
use status_dashboard_backend.Model.{Component}
use status_dashboard_backend.Store.Moves.{has_number, add_ids, wanted, reconciled}

has_number-keep :
    (p : ℕ → Bool) (xs : List ℕ) (i : ℕ) → has_number (keep p xs) i ≡ (has_number xs i && p i)
has_number-keep p [] i = refl
has_number-keep p (x ∷ xs) i = elim (Bool-cases (x == i)) [
  | inl e ↦ rw ((eqb_iff x i).0 e) (ground (arith, has_number-keep p xs i, eqb_iff i i))
  | inr e ↦ ground (arith, has_number-keep p xs i, e)
]

known_or : (a b c : Bool) → (b ≡ true → a ≡ true) → (a || c) ≡ (a || (b || c))
known_or true b c h = refl
known_or false true c h = absurd (false≢true (h refl))
known_or false false c h = refl

or_regroup : (a b c : Bool) → ((a || (b || false)) || c) ≡ (a || (b || c))
or_regroup true b c = refl
or_regroup false true c = refl
or_regroup false false c = refl

split_or : (a b : Bool) → (a && b || b && not a) ≡ b
split_or true true = refl
split_or true false = refl
split_or false true = refl
split_or false false = refl

has_number-add_ids :
    (more ids : List ℕ) (i : ℕ)
    → has_number (add_ids more ids) i ≡ (has_number ids i || has_number more i)
unfolding add_ids
has_number-add_ids [] ids i = ground arith
has_number-add_ids (m ∷ more) ids i = elim (Bool-cases (has_number ids m)) [
  | inl e ↦
      let known : (m == i) ≡ true → has_number ids i ≡ true =
        λ same. rw (← (eqb_iff m i).0 same) e in
      rw e (has_number-add_ids more ids i ∙ known_or (has_number ids i) (m == i) _ known)
  | inr e ↦ rw e (
      has_number-add_ids more (ids ++ m ∷ []) i
      ∙ (rw (any-append (λ j. j == i) ids (m ∷ [])) (or_regroup (has_number ids i) (m == i) _)))
]

-- The reconciled edge has exactly the wanted ids.
pub has_number-reconciled :
    (cs : List Component) (current : List ℕ) (i : ℕ)
    → has_number (reconciled cs current) i ≡ has_number (wanted cs) i
unfolding reconciled
has_number-reconciled cs current i =
    has_number-add_ids (keep (λ j. not (has_number current j)) (wanted cs))
      (keep (has_number (wanted cs)) current) i
    ∙ ap (λ b. b || has_number (keep (λ j. not (has_number current j)) (wanted cs)) i)
        (has_number-keep (has_number (wanted cs)) current i)
    ∙ ap (λ b. has_number current i && has_number (wanted cs) i || b)
        (has_number-keep (λ j. not (has_number current j)) (wanted cs) i)
    ∙ split_or (has_number current i) (has_number (wanted cs) i)

has_number-map :
    (cs : List Component) (i : ℕ)
    → has_number (map (λ (c : Component). c.id) cs) i ≡ any (λ (c : Component). c.id == i) cs
has_number-map [] i = refl
has_number-map (c ∷ cs) i = ap (λ b. c.id == i || b) (has_number-map cs i)

has_number-wanted :
    (cs : List Component) (i : ℕ)
    → has_number (wanted cs) i ≡ (any (λ (c : Component). c.id == i) cs && not (i == 0))
unfolding wanted
has_number-wanted cs i =
    has_number-keep (λ j. not (j == 0)) (map (λ (c : Component). c.id) cs) i
    ∙ ap (λ b. b && not (i == 0)) (has_number-map cs i)

-- The reconciled edge has the ids of the incident's components, less zero.
pub has_number-edge :
    (cs : List Component) (current : List ℕ) (i : ℕ)
    → has_number (reconciled cs current) i ≡ (any (λ (c : Component). c.id == i) cs && not (i == 0))
has_number-edge cs current i = has_number-reconciled cs current i ∙ has_number-wanted cs i

-- A component appended to the list is in the reconciled edge.
pub reconciled-append :
    (cs : List Component) (c : Component) (current : List ℕ)
    → c.id ≢ 0
    → has_number (reconciled (cs ++ c ∷ []) current) c.id ≡ true
reconciled-append cs c current n =
    has_number-reconciled (cs ++ c ∷ []) current c.id
    ∙ has_number-wanted (cs ++ c ∷ []) c.id
    ∙ (rw (any-append (λ (x : Component). x.id == c.id) cs (c ∷ []))
        (ground (arith, eqb_iff c.id c.id, eqb_iff c.id 0)))

any-dropped :
    (i : ℕ) (cs : List Component)
    → any (λ (c : Component). c.id == i) (keep (λ (c : Component). not (c.id == i)) cs) ≡ false
any-dropped i [] = refl
any-dropped i (c ∷ cs) = ground (arith, any-dropped i cs)

-- A component dropped from the list is not in it.
pub reconciled-dropped :
    (cs : List Component) (i : ℕ) (current : List ℕ)
    → has_number (reconciled (keep (λ (c : Component). not (c.id == i)) cs) current) i ≡ false
reconciled-dropped cs i current =
    has_number-reconciled (keep (λ (c : Component). not (c.id == i)) cs) current i
    ∙ has_number-wanted (keep (λ (c : Component). not (c.id == i)) cs) i
    ∙ (rw (any-dropped i cs) refl)
