-- ===== src/Runner/Dag.antt =====
-- internal/runner/dag.go. The closure `visit` of TopoOrder shares the map `visited` and the slice
-- `order`: they are the state that a visit takes and returns. A visit recurs to the depth of the
-- fuel; one more than the number of targets is enough (Dag/Total).
pub mod Visit
pub mod Grows
pub mod Reach
pub mod Order
pub mod Total
pub mod Ended
pub mod Validated
pub mod Tests
use go_bake.Base.{
  ℕ, zero, suc, none, some, List, [], ◌∷◌, ◌++◌, Text, length, contains, if◌then◌else◌,
}
use go_bake.Config.{File, target_by_name}

pub record Visits : Type 0 where
  pub visited : List Text
  pub order : List Text

pub data Outcome {ℓ} (A : Type ℓ) : Type ℓ where
  ok : A → Outcome A
  unknown_dependency : Text → Outcome A
  out_of_fuel : Outcome A

infixl 5 ◌>>=◌
abbrev pub ◌>>=◌ {ℓ κ} : {A : Type ℓ} {B : Type κ} → Outcome A → (A → Outcome B) → Outcome B
ok a >>= f = f a
unknown_dependency d >>= f = unknown_dependency d
out_of_fuel >>= f = out_of_fuel

-- The loop over the dependencies of a target, which stops at the first error.
unfoldable pub visit_all : (Text → Visits → Outcome Visits) → List Text → Visits → Outcome Visits
visit_all visit [] s = ok s
visit_all visit (d ∷ ds) s = do s' ← visit d s; visit_all visit ds s'

abbrev pub mark : Text → Visits → Visits
mark name s = record s { visited = name ∷ s.visited }

abbrev pub emit : Text → Visits → Visits
emit name s = record s { order = s.order ++ name ∷ [] }

unfoldable pub visit : File → ℕ → Text → Visits → Outcome Visits
visit cfg zero name s = out_of_fuel
visit cfg (suc fuel) name s =
    if contains s.visited name then ok s else elim (target_by_name cfg name) [
      | none ↦ unknown_dependency name
      | some tgt ↦ do s' ← visit_all (visit cfg fuel) tgt.deps (mark name s); ok (emit name s')
    ]

abbrev pub start : Visits
start = record { visited = []; order = [] }

unfoldable pub topo_order : File → Text → Outcome (List Text)
topo_order cfg name = do s ← visit cfg (suc (length cfg.targets)) name start; ok s.order
