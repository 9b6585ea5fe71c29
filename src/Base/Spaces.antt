-- ===== src/Base/Spaces.antt =====
-- Trimming and cutting texts, as package strings does on ASCII texts.
use Prim.Native.Nat.{ℕ, zero, suc, ◌+◌, ◌/◌, ◌%◌}
use mathlib.Core.Path.{◌≡◌, refl, ap}
use mathlib.Core.Bool.{Bool, false, ◌||◌, ◌&&◌}
use mathlib.Core.Option.{Option, none, some}
use mathlib.Core.List.{[], ◌∷◌, ◌++◌}
use go_bake.Base.Tests.{Text, nat_eq, leb, ltb, if◌then◌else◌}
use go_bake.Base.Lists.{All}

-- strings.TrimSpace on ASCII: tab, newline, vertical tab, form feed, carriage return, space.
abbrev pub is_space : ℕ → Bool
is_space c = nat_eq c 32 || (leb 9 c && leb c 13)

unfoldable pub trim_left : Text → Text
trim_left [] = []
trim_left (c ∷ s) = let rest = trim_left s in if is_space c then rest else c ∷ s

-- Drops the spaces at the end: a space is kept only before something that is kept.
unfoldable pub trim_right : Text → Text
trim_right [] = []
trim_right (c ∷ s) = elim (trim_right s) [
  | [] ↦ if is_space c then [] else c ∷ []
  | d ∷ r ↦ c ∷ d ∷ r
]

abbrev pub trim_space : Text → Text
trim_space s = trim_left (trim_right s)

abbrev pub equals : ℕ
equals = 61

-- The parts of a text before and behind the first '='.
unfoldable pub cut_equals : Text → Option (Text × Text)
cut_equals [] = none
cut_equals (c ∷ s) =
    if nat_eq c equals
    then some ([], s)
    else elim (cut_equals s) [ none ↦ none | some (key, value) ↦ some (c ∷ key, value) ]

-- The key has no '='.
abbrev pub IsKey : Text → Type 0
IsKey = All (λ c. nat_eq c equals ≡ false)

pub cut_equals-append :
    (key value : Text) → IsKey key → cut_equals (key ++ equals ∷ value) ≡ some (key, value)
unfolding cut_equals
cut_equals-append [] value h = refl
cut_equals-append (c ∷ key) value h = rw h.0 (
    ap (λ o. elim o [ none ↦ none | some p ↦ some (c ∷ p.0, p.1) ])
      (cut_equals-append key value h.1))

abbrev pub drop_last : Text → Text
drop_last [] = []
drop_last (c ∷ []) = []
drop_last (c ∷ d ∷ s) = c ∷ drop_last (d ∷ s)

pub drop_last-snoc : (s : Text) (c : ℕ) → drop_last (s ++ c ∷ []) ≡ s
drop_last-snoc [] c = refl
drop_last-snoc (d ∷ []) c = refl
drop_last-snoc (d ∷ e ∷ s) c = ap (λ (t : Text). d ∷ t) (drop_last-snoc (e ∷ s) c)

-- The decimal digits of a number; one more than the number is enough fuel.
unfoldable pub digits : ℕ → ℕ → Text
digits zero n = []
digits (suc fuel) n =
    let more = digits fuel (n / 10) in
    if ltb n 10 then (b'0' + n) ∷ [] else more ++ (b'0' + n % 10) ∷ []

unfoldable pub decimal : ℕ → Text
unfolding digits
decimal n = digits (suc n) n
