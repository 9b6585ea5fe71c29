-- ===== src/Config/Find/Nearest.antt =====
-- FindBakefile ends, with the nearest Bakefile.
use go_bake.Base.{
  ◌≡◌, ◌⊎◌, inl, inr, refl, ℕ, zero, suc, ◌<◌, Bool, true, false, Bool-cases, Option, none, some,
  Text, length, ==_iff, ◌==◌, arith,
}
use go_bake.Config.Find.{
  Found, found, not_resolved, none_found, out_of_fuel, bakefile, Paths, find_from, find_bakefile,
}

module _ (paths : Paths) where
  -- A Bakefile is in the directory.
  abbrev pub holds_one : Text → Bool
  holds_one d = paths.exists (paths.join d bakefile)

  -- The way up from a directory to another, past directories without a Bakefile.
  pub data Climbs : Text → Text → Type 0 where
    here : (d : Text) → Climbs d d
    up : (d top : Text) → holds_one d ≡ false → Climbs (paths.dir d) top → Climbs d top

  abbrev pub FoundFrom : Text → Found → Type 0
  FoundFrom d (found root path) =
      Climbs d root × (path ≡ paths.join root bakefile) × (paths.exists path ≡ true)
  FoundFrom d none_found =
      (top : Text) × Climbs d top × (holds_one top ≡ false) × (paths.dir top ≡ top)
  FoundFrom d not_resolved = ⊥
  FoundFrom d out_of_fuel = ⊥

  abbrev pub IsNearest : Option Text → Found → Type 0
  IsNearest none r = r ≡ not_resolved
  IsNearest (some d) r = FoundFrom d r

  -- filepath.Abs gives an absolute path, and filepath.Dir of an absolute path is an absolute path
  -- that is shorter, or the path itself; `is_abs` is filepath.IsAbs.
  pub record IsUpwards (is_abs : Text → Bool) : Type 0 where
    pub absolute : (dir d : Text) → paths.abs dir ≡ some d → is_abs d ≡ true
    pub parent : (d : Text) → is_abs d ≡ true → is_abs (paths.dir d) ≡ true
    pub shorter :
        (d : Text) → is_abs d ≡ true → (paths.dir d ≡ d) ⊎ (length (paths.dir d) < length d)

  climb : (d : Text) (r : Found) → holds_one d ≡ false → FoundFrom (paths.dir d) r → FoundFrom d r
  climb d (found root path) h (c, e, x) = (up d root h c, e, x)
  climb d none_found h (top, c, e, x) = (top, up d top h c, e, x)
  climb d not_resolved h x = x
  climb d out_of_fuel h x = x

  find_from-FoundFrom :
      {is_abs : Text → Bool} (fuel : ℕ) (d : Text)
      → IsUpwards is_abs
      → is_abs d ≡ true
      → length d < fuel
      → FoundFrom d (find_from paths fuel d)
  unfolding find_from
  find_from-FoundFrom zero d u a lt = absurd (omega (arith, lt))
  find_from-FoundFrom (suc fuel) d u a lt = elim (Bool-cases (holds_one d)) [
    | inl there ↦ rw there (here d, refl, there)
    | inr missing ↦ rw missing (elim (Bool-cases (paths.dir d == d)) [
      | inl top ↦ rw top (d, here d, missing, (==_iff (paths.dir d) d).0 top)
      | inr below ↦ rw below (
          climb d (find_from paths fuel (paths.dir d)) missing (
            find_from-FoundFrom fuel (paths.dir d) u (u.parent d a)
              (less_fuel (u.shorter d a) below)))
    ])
  ]
    where
      less_fuel :
          (paths.dir d ≡ d) ⊎ (length (paths.dir d) < length d)
          → (paths.dir d == d) ≡ false
          → length (paths.dir d) < fuel
      less_fuel (inl same) below = absurd (ground (arith, (==_iff (paths.dir d) d).1 same))
      less_fuel (inr less) below = omega (arith, less, lt)

-- FindBakefile ends: with an error where the directory cannot be resolved; or with the Bakefile of
-- the nearest directory that has one, from the directory upwards; or with the error that there is
-- none, when no directory up to the root has one. Abs gives an absolute path, and Dir of an absolute
-- path an absolute one that is shorter, or the same one.
pub find_bakefile-IsNearest :
    (paths : Paths) (is_abs : Text → Bool) (dir : Text)
    → IsUpwards paths is_abs
    → IsNearest paths (paths.abs dir) (find_bakefile paths dir)
unfolding find_bakefile
find_bakefile-IsNearest paths is_abs dir u =
    elim (paths.abs dir)
        as (λ o.
          ((d : Text) → o ≡ some d → is_abs d ≡ true)
          → IsNearest paths o
              (elim o [ none ↦ not_resolved | some d ↦ find_from paths (suc (length d)) d ])) [
                | none ↦ λ absolute. refl
                | some d ↦ λ absolute.
                    find_from-FoundFrom paths (suc (length d)) d u (absolute d refl) (omega arith)
              ]
      (u.absolute dir)
