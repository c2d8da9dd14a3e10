-- ===== src/Common/Strings.antt =====
-- The functions of Go's package strings that the program calls, over the code points of a text:
-- Split at one character, Join, TrimSpace, TrimPrefix of one character, ToLower (of the ASCII
-- letters), LastIndex of one character; and fmt's %d of a natural number.
use Prim.Native.Nat.{ℕ, zero, suc, ◌+◌, ◌/◌, ◌%◌}
use Prim.Native.String.{String, ◌++◌ as ◌<>◌}
use mathlib.Core.Path.{◌≡◌, refl, ap, ◌∙◌}
use mathlib.Core.Logic.{◌↔◌, ◌≢◌}
use mathlib.Core.Bool.{Bool, true, false, ◌&&◌, ◌||◌}
use mathlib.Core.Option.{Option, none, some}
use mathlib.Core.List.{List, [], ◌∷◌, ◌++◌, map, reverse}
use native.Mathlib.Omega.{arith}
use status_dashboard_backend.Common.Tests.{Eq, eqb, leb, ◌==◌, nat_eq, eqb_iff, if◌then◌else◌}
use status_dashboard_backend.Common.Lists.{All}

abbrev pub Text : Type 0
Text = List ℕ

abbrev pub eqb_text : Text → Text → Bool
eqb_text [] [] = true
eqb_text (a ∷ s) (b ∷ t) = eqb a b && eqb_text s t
eqb_text _ _ = false

pub eqb_text_iff : (s t : Text) → (eqb_text s t ≡ true) ↔ (s ≡ t)
eqb_text_iff [] [] = ground arith
eqb_text_iff [] (b ∷ t) = ground arith
eqb_text_iff (a ∷ s) [] = ground arith
eqb_text_iff (a ∷ s) (b ∷ t) = ground (arith, eqb_text_iff s t)

instance abbrev pub text_eq : Eq Text
text_eq = record { beq = eqb_text; beq_iff = eqb_text_iff }

-- unicode.IsSpace
unfoldable pub is_space : ℕ → Bool
is_space c =
    leb 9 c && leb c 13
    || eqb c 32
    || eqb c 133
    || eqb c 160
    || eqb c 5760
    || leb 8192 c && leb c 8202
    || eqb c 8232
    || eqb c 8233
    || eqb c 8239
    || eqb c 8287
    || eqb c 12288

unfoldable pub trim_left : Text → Text
trim_left [] = []
trim_left (c ∷ s) = if is_space c then trim_left s else c ∷ s

-- strings.TrimSpace
unfoldable pub trim_space : Text → Text
unfolding trim_left
trim_space s = reverse (trim_left (reverse (trim_left s)))

-- strings.TrimPrefix(s, c)
unfoldable pub trim_prefix : ℕ → Text → Text
trim_prefix c [] = []
trim_prefix c (d ∷ s) = if c == d then s else d ∷ s

abbrev add_to_first : ℕ → List Text → List Text
add_to_first d [] = (d ∷ []) ∷ []
add_to_first d (p ∷ ps) = (d ∷ p) ∷ ps

-- strings.Split(s, c)
unfoldable pub split : ℕ → Text → List Text
split c [] = [] ∷ []
split c (d ∷ s) = let rest = split c s in if d == c then [] ∷ rest else add_to_first d rest

-- strings.Join(parts, c)
unfoldable pub join : ℕ → List Text → Text
join c [] = []
join c (p ∷ []) = p
join c (p ∷ q ∷ ps) = p ++ (c ∷ join c (q ∷ ps))

-- strings.ToLower on one character
abbrev pub lower : ℕ → ℕ
lower c = if leb b'A' c && leb c b'Z' then c + 32 else c

abbrev pub to_lower : Text → Text
to_lower = map lower

-- what follows the last occurrence of `c`; `none` is LastIndex = -1
unfoldable pub after_last : ℕ → Text → Option Text
after_last c [] = none
after_last c (d ∷ s) = elim (after_last c s) [
  | none ↦ if d == c then some s else none
  | some t ↦ some t
]

abbrev pub Avoids : ℕ → Text → Type 0
Avoids c s = All (λ d. d ≢ c) s

split-append : (c : ℕ) (p s : Text) → Avoids c p → split c (p ++ (c ∷ s)) ≡ p ∷ split c s
unfolding split
split-append c [] s h = ground (arith, eqb_iff c c)
split-append c (d ∷ p) s h = ground (arith, split-append c p s h.1, eqb_iff d c)

split_one : (c : ℕ) (p : Text) → Avoids c p → split c p ≡ p ∷ []
unfolding split
split_one c [] h = refl
split_one c (d ∷ p) h = ground (arith, split_one c p h.1, eqb_iff d c)

-- Splitting at a character undoes joining with it, for at least one part and parts without it.
pub split-join :
    (c : ℕ) (p : Text) (ps : List Text)
    → All (Avoids c) (p ∷ ps)
    → split c (join c (p ∷ ps)) ≡ p ∷ ps
unfolding join
split-join c p [] h = split_one c p h.0
split-join c p (q ∷ ps) h =
    split-append c p (join c (q ∷ ps)) h.0 ∙ ap (λ (r : List Text). p ∷ r) (split-join c q ps h.1)

digit : ℕ → String
digit d =
    if d == 0
    then "0"
    else if d == 1
    then "1"
    else if d == 2
    then "2"
    else if d == 3
    then "3"
    else if d == 4
    then "4"
    else if d == 5
    then "5"
    else if d == 6
    then "6"
    else if d == 7
    then "7"
    else if d == 8
    then "8"
    else "9"

-- `fuel` digits at most
digits : ℕ → ℕ → String
unfolding digit
digits zero n = ""
digits (suc fuel) n =
    let front = digits fuel (n / 10) <> digit (n % 10) in if leb n 9 then digit n else front

-- fmt's %d: a number has fewer digits than suc n
unfoldable pub decimal : ℕ → String
unfolding digits
decimal n = digits (suc n) n
