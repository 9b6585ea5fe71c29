-- ===== src/Dsl/Runes.antt =====
-- The runes of a text, as a `range` over a string of internal/dsl/format.go gives them: the valid
-- UTF-8 sequences, and U+FFFD for every byte that is in none.
use go_bake.Base.{
  ℕ, zero, suc, ◌≡◌, refl, ap, Bool, true, false, ◌&&◌, ◌||◌, Option, none, some, [], ◌∷◌, ◌++◌,
  Text, nat_eq, leb, arith, if◌then◌else◌,
}

abbrev between : ℕ → ℕ → ℕ → Bool
between low high c = leb low c && leb c high

-- So many bytes that continue a sequence.
abbrev continued : ℕ → Text → Bool
continued zero s = true
continued (suc n) [] = false
continued (suc n) (c ∷ s) = between 128 191 c && continued n s

-- A byte between the bounds, and so many bytes that continue the sequence.
abbrev followed : (low high : ℕ) → ℕ → Text → Bool
followed low high n [] = false
followed low high n (c ∷ s) = between low high c && continued n s

abbrev three_bytes : ℕ → Text → Bool
three_bytes c s =
    nat_eq c 224 && followed 160 191 1 s
    || between 225 236 c && followed 128 191 1 s
    || nat_eq c 237 && followed 128 159 1 s
    || between 238 239 c && followed 128 191 1 s

abbrev four_bytes : ℕ → Text → Bool
four_bytes c s =
    nat_eq c 240 && followed 144 191 2 s
    || between 241 243 c && followed 128 191 2 s
    || nat_eq c 244 && followed 128 143 2 s

-- How many bytes behind the first belong to the rune; none for a byte in no valid sequence.
unfoldable pub rune_tail : ℕ → Text → Option ℕ
rune_tail c s =
    if leb c 127
    then some 0
    else if between 194 223 c && followed 128 191 0 s
    then some 1
    else if three_bytes c s
    then some 2
    else if four_bytes c s
    then some 3
    else none

-- U+FFFD.
abbrev replacement : Text
replacement = 239 ∷ 191 ∷ 189 ∷ []

-- `string(r)` for each rune, behind so many bytes of a rune that has begun.
unfoldable pub copy_runes : ℕ → Text → Text
unfolding rune_tail
copy_runes n [] = []
copy_runes (suc n) (c ∷ s) = c ∷ copy_runes n s
copy_runes zero (c ∷ s) = elim (rune_tail c s) [
  | some n ↦ c ∷ copy_runes n s
  | none ↦ replacement ++ copy_runes zero s
]

-- utf8.ValidString: every byte is in a valid sequence.
unfoldable pub valid_runes : ℕ → Text → Bool
unfolding rune_tail
valid_runes n [] = true
valid_runes (suc n) (c ∷ s) = valid_runes n s
valid_runes zero (c ∷ s) = elim (rune_tail c s) [ some n ↦ valid_runes n s | none ↦ false ]

pub copy_runes-valid : (n : ℕ) (s : Text) → valid_runes n s ≡ true → copy_runes n s ≡ s
unfolding copy_runes valid_runes
copy_runes-valid n [] h = refl
copy_runes-valid (suc n) (c ∷ s) h = ap (λ t. c ∷ t) (copy_runes-valid n s h)
copy_runes-valid zero (c ∷ s) h =
    elim (rune_tail c s)
        as (λ o.
          (elim o as (λ _. Bool) [ some n ↦ valid_runes n s | none ↦ false ]) ≡ true
          → (elim o as (λ _. Text) [
            | some n ↦ c ∷ copy_runes n s
            | none ↦ replacement ++ copy_runes zero s
          ])
            ≡ c ∷ s) [
              | some n ↦ λ v. ap (λ t. c ∷ t) (copy_runes-valid n s v)
              | none ↦ λ v. absurd (ground (arith, v))
            ]
      h
