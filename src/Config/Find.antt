-- ===== src/Config/Find.antt =====
-- FindBakefile of internal/config/config.go. The functions of path/filepath are parameters, and so is
-- whether os.Stat gives no error for a path.
pub mod Nearest
mod Tests
use go_bake.Base.{ℕ, zero, suc, Bool, Option, none, some, Text, bytes, length, ◌==◌, if◌then◌else◌}

pub data Found : Type 0 where
  found : (root_dir bakefile_path : Text) → Found
  not_resolved : Found
  none_found : Found
  out_of_fuel : Found

abbrev pub bakefile : Text
bakefile = bytes "Bakefile"

pub record Paths : Type 0 where
  pub abs : Text → Option Text
  pub join : Text → Text → Text
  pub dir : Text → Text
  pub exists : Text → Bool

module _ (paths : Paths) where
  -- The loop, from a directory upwards.
  unfoldable pub find_from : ℕ → Text → Found
  unfolding bytes ◌==◌
  find_from zero d = out_of_fuel
  find_from (suc fuel) d =
      let rest = find_from fuel (paths.dir d) in
      if paths.exists (paths.join d bakefile)
      then found d (paths.join d bakefile)
      else if paths.dir d == d
      then none_found
      else rest

  unfoldable pub find_bakefile : Text → Found
  unfolding find_from
  find_bakefile dir = elim (paths.abs dir) [
    | none ↦ not_resolved
    | some d ↦ find_from (suc (length d)) d
  ]
