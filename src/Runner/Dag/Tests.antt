-- ===== src/Runner/Dag/Tests.antt =====
-- Small Bakefiles, and what TopoOrder does on them.
use mathlib.Core.Path.{subst}
use go_bake.Base.{
  nat_eq, ◌<◌, ℕ, ◌≡◌, refl, false, List, [], ◌∷◌, Text, All, contains, ◌==◌, arith, if◌then◌else◌,
  lookup, insert, collect,
}
use go_bake.Config.{
  File, Target, new_target, target_by_name, find_target, find_target-name, IsKnown,
}
use go_bake.Config.Validate.{validate}
use go_bake.Runner.Dag.{ok, unknown_dependency, visit, visit_all, topo_order}
use go_bake.Runner.Dag.Ended.{Ended, topo_order-Ended}
use go_bake.Runner.Dag.Order.{DepsFirst, IsRanked, topo_order-DepsFirst}
use go_bake.Runner.Dag.Validated.{topo_order-validated, find_target-All}

abbrev pub build : Text
build = b'b' ∷ []

abbrev pub gen : Text
gen = b'g' ∷ []

abbrev pub test : Text
test = b't' ∷ []

abbrev pub needs : Text → List Text → Target
needs name deps = record (new_target name false) { deps = deps }

abbrev file : List Target → File
file targets = record {
  dotenv = [];
  imports = [];
  profiles = [];
  targets = targets;
  suites = [];
  root_dir = [];
  bake_path = [];
}

-- `test` needs `build` and `gen`, and `build` needs `gen`.
abbrev pub diamond : File
diamond = file (needs test (build ∷ gen ∷ []) ∷ needs build (gen ∷ []) ∷ needs gen [] ∷ [])

abbrev dangling : File
dangling = file (needs test (build ∷ []) ∷ [])

-- `build` and `gen` need each other.
abbrev pub cyclic : File
cyclic = file (needs build (gen ∷ []) ∷ needs gen (build ∷ []) ∷ [])

pub run : Unit {0}
unfolding topo_order visit visit_all target_by_name find_target contains ◌==◌
run = tt

pub topo_order-diamond : topo_order diamond test ≡ ok (gen ∷ build ∷ test ∷ [])
unfolding run
topo_order-diamond = refl

topo_order-dangling : topo_order dangling test ≡ unknown_dependency build
unfolding run
topo_order-dangling = refl

-- No error for a cycle: `gen` runs before its dependency.
topo_order-cyclic : topo_order cyclic build ≡ ok (gen ∷ build ∷ [])
unfolding run
topo_order-cyclic = refl

abbrev pub rank : Text → ℕ
rank [] = 0
rank (c ∷ s) = if nat_eq c b'g' then 0 else if nat_eq c b'b' then 1 else 2

-- Enough for IsRanked: every target ranks above its dependencies.
All→IsRanked :
    (cfg : File) (r : Text → ℕ)
    → All (λ t. All (λ d. r d < r t.name) t.deps) cfg.targets
    → IsRanked cfg r
unfolding target_by_name
All→IsRanked cfg r h name tgt e =
    subst (λ n. All (λ d. r d < r n) tgt.deps) (find_target-name cfg.targets name tgt e)
      (find_target-All (λ t. All (λ d. r d < r t.name) t.deps) cfg.targets name tgt h e)

pub diamond-IsRanked : IsRanked diamond rank
diamond-IsRanked = All→IsRanked diamond rank (omega arith)

topo_order-DepsFirst_example : DepsFirst diamond [] (gen ∷ build ∷ test ∷ [])
topo_order-DepsFirst_example =
    topo_order-DepsFirst diamond rank test (gen ∷ build ∷ test ∷ []) diamond-IsRanked
      topo_order-diamond

topo_order-Ended_example : Ended diamond test (topo_order diamond test)
topo_order-Ended_example = topo_order-Ended diamond test

pub validate-cyclic : validate cyclic ≡ []
unfolding run validate lookup insert collect
validate-cyclic = refl

build-IsKnown : IsKnown cyclic build
unfolding run
build-IsKnown = refl

topo_order-validated_example : (order : List Text) × (topo_order cyclic build ≡ ok order)
topo_order-validated_example = topo_order-validated cyclic build validate-cyclic build-IsKnown
