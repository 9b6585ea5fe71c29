-- ===== src/Base/Sort/Sorted.antt =====
-- Sorting what is sorted changes nothing.
use mathlib.Core.Path.{◌≡◌, refl, ap, ◌∙◌}
use mathlib.Core.Logic.{inl, inr}
use mathlib.Core.Bool.{true, false}
use mathlib.Core.List.{List, [], ◌∷◌, map}
use native.Mathlib.Omega.{arith}
use go_bake.Base.Tests.{Text, Bool-cases}
use go_bake.Base.Sort.{text_leb, insert_by, sort_by}

text_leb_total : (s t : Text) → text_leb s t ≡ false → text_leb t s ≡ true
unfolding text_leb
text_leb_total [] t h = absurd (ground arith)
text_leb_total (a ∷ s) [] h = refl
text_leb_total (a ∷ s) (b ∷ t) h = ground (arith, text_leb_total s t)

module _ {ℓ} {A : Type ℓ} (key : A → Text) where
  -- The key is at most that of the first element.
  abbrev Below : A → List A → Type 0
  Below x [] = Unit
  Below x (y ∷ ys) = text_leb (key x) (key y) ≡ true

  abbrev IsSorted : List A → Type 0
  IsSorted [] = Unit
  IsSorted (x ∷ xs) = Below x xs × IsSorted xs

  insert_by-Below :
      (x y : A) (ys : List A)
      → text_leb (key y) (key x) ≡ true
      → Below y ys
      → Below y (insert_by key x ys)
  unfolding insert_by
  insert_by-Below x y [] h b = h
  insert_by-Below x y (z ∷ ys) h b = elim (Bool-cases (text_leb (key x) (key z))) [
    | inl e ↦ rw e h
    | inr e ↦ rw e b
  ]

  insert_by-IsSorted : (x : A) (xs : List A) → IsSorted xs → IsSorted (insert_by key x xs)
  unfolding insert_by
  insert_by-IsSorted x [] h = (tt, tt)
  insert_by-IsSorted x (y ∷ ys) h = elim (Bool-cases (text_leb (key x) (key y))) [
    | inl e ↦ rw e (e, h)
    | inr e ↦
        rw e (
          insert_by-Below x y ys (text_leb_total (key x) (key y) e) h.0,
          insert_by-IsSorted x ys h.1,
        )
  ]

  sort_by-IsSorted : (xs : List A) → IsSorted (sort_by key xs)
  unfolding sort_by
  sort_by-IsSorted [] = tt
  sort_by-IsSorted (x ∷ xs) = insert_by-IsSorted x (sort_by key xs) (sort_by-IsSorted xs)

  insert_by-here : (x : A) (xs : List A) → Below x xs → insert_by key x xs ≡ x ∷ xs
  unfolding insert_by
  insert_by-here x [] h = refl
  insert_by-here x (y ∷ ys) h = rw h refl

  sort_by-sorted : (xs : List A) → IsSorted xs → sort_by key xs ≡ xs
  unfolding sort_by
  sort_by-sorted [] h = refl
  sort_by-sorted (x ∷ xs) h = ap (insert_by key x) (sort_by-sorted xs h.1) ∙ insert_by-here x xs h.0

  pub sort_by-sort_by : (xs : List A) → sort_by key (sort_by key xs) ≡ sort_by key xs
  sort_by-sort_by xs = sort_by-sorted (sort_by key xs) (sort_by-IsSorted xs)

  -- The same for a list whose elements have been replaced by others with the same keys.
  map-IsSorted :
      (f : A → A) (xs : List A) → ((x : A) → key (f x) ≡ key x) → IsSorted xs → IsSorted (map f xs)
  map-IsSorted f [] same h = tt
  map-IsSorted f (x ∷ []) same h = (tt, tt)
  map-IsSorted f (x ∷ y ∷ xs) same h =
      (rw (same x) (rw (same y) h.0), map-IsSorted f (y ∷ xs) same h.1)

  pub sort_by-map :
      (f : A → A) (xs : List A)
      → ((x : A) → key (f x) ≡ key x)
      → sort_by key (map f (sort_by key xs)) ≡ map f (sort_by key xs)
  sort_by-map f xs same =
      sort_by-sorted (map f (sort_by key xs))
        (map-IsSorted f (sort_by key xs) same (sort_by-IsSorted xs))
