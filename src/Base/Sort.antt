-- ===== src/Base/Sort.antt =====
-- sort.Strings and sort.Slice on texts: Go compares strings byte by byte.
pub mod Sorted
use mathlib.Core.Bool.{Bool, true, false, ◌&&◌}
use mathlib.Core.List.{List, [], ◌∷◌}
use go_bake.Base.Tests.{Text, ltb, nat_eq, if◌then◌else◌}

unfoldable pub text_leb : Text → Text → Bool
text_leb [] t = true
text_leb (a ∷ s) [] = false
text_leb (a ∷ s) (b ∷ t) = if ltb a b then true else nat_eq a b && text_leb s t

module _ {ℓ} {A : Type ℓ} (key : A → Text) where
  unfoldable pub insert_by : A → List A → List A
  unfolding text_leb
  insert_by x [] = x ∷ []
  insert_by x (y ∷ ys) = if text_leb (key x) (key y) then x ∷ y ∷ ys else y ∷ insert_by x ys

  unfoldable pub sort_by : List A → List A
  unfolding insert_by
  sort_by [] = []
  sort_by (x ∷ xs) = insert_by x (sort_by xs)

abbrev pub sort_texts : List Text → List Text
sort_texts = sort_by (λ s. s)
