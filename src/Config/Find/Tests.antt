-- ===== src/Config/Find/Tests.antt =====
-- A Bakefile at the root of a file system with slashes. A path is already absolute and clean, so that
-- its Dir is what is before the last slash, or the root.
use mathlib.Core.Path.{subst}
use go_bake.Base.{
  ℕ, suc, ◌<◌, ◌≡◌, ◌⊎◌, inl, inr, refl, Option-cases, Bool-cases, Bool, true, false, Option, none,
  some, [], ◌∷◌, ◌++◌, Text, bytes, length, nat_eq, ◌==◌, arith, if◌then◌else◌,
}
use go_bake.Config.Find.{Paths, found, find_bakefile}
use go_bake.Config.Find.Nearest.{IsUpwards, IsNearest, find_bakefile-IsNearest}

abbrev slash : ℕ
slash = b'/'

abbrev is_abs : Text → Bool
is_abs [] = false
is_abs (c ∷ d) = nat_eq c slash

-- What is before the last slash.
abbrev before_last : Text → Option Text
before_last [] = none
before_last (c ∷ d) = elim (before_last d) [
  | some p ↦ some (c ∷ p)
  | none ↦ if nat_eq c slash then some [] else none
]

abbrev or_root : Option Text → Text
or_root none = bytes "."
or_root (some []) = slash ∷ []
or_root (some (c ∷ p)) = c ∷ p

abbrev parent : Text → Text
parent d = or_root (before_last d)

abbrev joined : Text → Text → Text
joined [] name = name
joined (c ∷ []) name = c ∷ name
joined (c ∷ e ∷ d) name = c ∷ e ∷ d ++ slash ∷ name

abbrev absolute_only : Text → Option Text
absolute_only d = if is_abs d then some d else none

abbrev paths : Paths
paths = record {
  abs = absolute_only;
  join = joined;
  dir = parent;
  exists = λ p. p == bytes "/Bakefile";
}

before_last-shorter : (d p : Text) → before_last d ≡ some p → length p < length d
before_last-shorter [] p h = cc
before_last-shorter (c ∷ d) p h = elim (Option-cases (before_last d)) [
  | inl (q, e) ↦
      let same : c ∷ q ≡ p = cc (rw e at h) in
      subst (λ r. length r < suc (length d)) same (omega (arith, before_last-shorter d q e))
  | inr e ↦ elim (Bool-cases (nat_eq c slash)) [
    | inl y ↦
        let same : [] ≡ p = cc (rw y at (rw e at h)) in
        subst (λ r. length r < suc (length d)) same (omega arith)
    | inr n ↦ cc (rw n at (rw e at h))
  ]
]

parent-is_abs : (d : Text) → is_abs d ≡ true → is_abs (parent d) ≡ true
parent-is_abs [] h = cc
parent-is_abs (c ∷ d) h = elim (Option-cases (before_last d)) [
  | inl (q, e) ↦ rw e h
  | inr e ↦ rw e (rw h refl)
]

root_parent : (d : Text) → ((slash ∷ []) ≡ slash ∷ d) ⊎ (1 < suc (length d))
root_parent [] = inl refl
root_parent (c ∷ d) = inr (omega arith)

parent-shorter : (d : Text) → is_abs d ≡ true → (parent d ≡ d) ⊎ (length (parent d) < length d)
parent-shorter [] h = cc
parent-shorter (c ∷ d) h = elim (Option-cases (before_last d)) [
  | inl (q, e) ↦ rw e (inr (omega (arith, before_last-shorter d q e)))
  | inr e ↦
      let first : slash ≡ c = ground (arith, h) in
      subst (λ x. (parent (x ∷ d) ≡ x ∷ d) ⊎ (length (parent (x ∷ d)) < suc (length d))) first
        (rw e (root_parent d))
]

absolute_only-is_abs : (dir d : Text) → absolute_only dir ≡ some d → is_abs d ≡ true
absolute_only-is_abs dir d h = elim (Bool-cases (is_abs dir)) [
  | inl y ↦ let same : dir ≡ d = cc (rw y at h) in subst (λ x. is_abs x ≡ true) same y
  | inr n ↦ cc (rw n at h)
]

paths-IsUpwards : IsUpwards paths is_abs
paths-IsUpwards = record {
  absolute = absolute_only-is_abs;
  parent = parent-is_abs;
  shorter = parent-shorter;
}

find_bakefile-above : find_bakefile paths (bytes "/a/b") ≡ found (bytes "/") (bytes "/Bakefile")
unfolding find_bakefile bytes ◌==◌
find_bakefile-above = refl

find_bakefile-IsNearest_example :
    IsNearest paths (some (bytes "/a/b")) (find_bakefile paths (bytes "/a/b"))
unfolding bytes
find_bakefile-IsNearest_example =
    find_bakefile-IsNearest paths is_abs (bytes "/a/b") paths-IsUpwards
