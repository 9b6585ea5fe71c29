-- ===== src/Runner/Dag/Validated.antt =====
-- A Bakefile that Validate accepts has an order for each of its targets.
use mathlib.Core.Path.{subst}
use go_bake.Base.{
  ◌≡◌, ◌≢◌, refl, Bool-cases, ◌==◌, inl, inr, none, some, List, [], ◌∷◌, Text, All, All-contains,
  arith,
}
use go_bake.Config.{File, Target, IsKnown, find_target, target_by_name, find_target_cases}
use go_bake.Config.Validate.{validate}
use go_bake.Config.Validate.Complete.{IsWellFormed, validate-nil_iff}
use go_bake.Runner.Dag.{Outcome, ok, unknown_dependency, out_of_fuel, topo_order}
use go_bake.Runner.Dag.Reach.{Reaches, here, dep, topo_order-unknown}
use go_bake.Runner.Dag.Total.{topo_order-total}

pub find_target-All {κ} :
    (P : Target → Type κ) (ts : List Target) (name : Text) (t : Target)
    → All P ts
    → find_target ts name ≡ some t
    → P t
unfolding find_target
find_target-All P [] name t h e = absurd (ground arith)
find_target-All P (u ∷ ts) name t h e = elim (Bool-cases (u.name == name)) [
  | inl same ↦ subst P (ground arith) h.0
  | inr other ↦ find_target-All P ts name t h.1 (ground arith)
]

pub found_IsKnown :
    (cfg : File) (n : Text) (t : Target) → target_by_name cfg n ≡ some t → IsKnown cfg n
unfolding target_by_name
found_IsKnown cfg n t e = elim (find_target_cases cfg.targets n) [
  | inl (u, f, k) ↦ k
  | inr (k, u) ↦ cc
]

module _ (cfg : File) (w : IsWellFormed cfg) where
  pub Reaches-IsKnown : (root d : Text) → IsKnown cfg root → Reaches cfg root d → IsKnown cfg d
  unfolding target_by_name
  Reaches-IsKnown root d k here = k
  Reaches-IsKnown root d k (dep r tgt e m) =
      All-contains (IsKnown cfg) tgt.deps d (find_target-All _ cfg.targets _ tgt w.deps e) m

  pub known_target : (d : Text) → IsKnown cfg d → target_by_name cfg d ≢ none
  unfolding target_by_name
  known_target d k e = elim (find_target_cases cfg.targets d) [
    | inl (t, f, _) ↦ cc
    | inr (_, u) ↦ cc
  ]

  topo_order-IsWellFormed :
      (name : Text) → IsKnown cfg name → (order : List Text) × (topo_order cfg name ≡ ok order)
  topo_order-IsWellFormed name k = go (topo_order cfg name) refl
    where
      go :
          (o : Outcome (List Text))
          → topo_order cfg name ≡ o
          → (order : List Text) × (topo_order cfg name ≡ ok order)
      go (ok order) e = (order, e)
      go (unknown_dependency d) e =
          let (r, none_found) = topo_order-unknown cfg name d e in
          absurd (known_target d (Reaches-IsKnown name d k r) none_found)
      go out_of_fuel e = absurd (topo_order-total cfg name e)

-- If Validate reports no error, TopoOrder succeeds for every target, also where dependencies form
-- a cycle: neither of them reports a cycle.
pub topo_order-validated :
    (cfg : File) (name : Text)
    → validate cfg ≡ []
    → IsKnown cfg name
    → (order : List Text) × (topo_order cfg name ≡ ok order)
topo_order-validated cfg name v k = topo_order-IsWellFormed cfg ((validate-nil_iff cfg).0 v) name k
