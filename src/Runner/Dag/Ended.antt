-- ===== src/Runner/Dag/Ended.antt =====
-- All outcomes of TopoOrder.
use go_bake.Base.{◌≡◌, refl, none, List, Text}
use go_bake.Config.{File, target_by_name}
use go_bake.Runner.Dag.{Outcome, ok, unknown_dependency, out_of_fuel, topo_order}
use go_bake.Runner.Dag.Reach.{Reaches, Settled, topo_order-Settled, topo_order-unknown}
use go_bake.Runner.Dag.Total.{topo_order-total}

-- An order that is settled, or a name that no target has and that the dependencies lead to; not the
-- end of the fuel.
abbrev pub Ended : File → Text → Outcome (List Text) → Type 0
Ended cfg name (ok order) = Settled cfg name order
Ended cfg name (unknown_dependency d) = Reaches cfg name d × (target_by_name cfg d ≡ none)
Ended cfg name out_of_fuel = ⊥

-- TopoOrder ends, with an order or with an unknown dependency: its fuel never runs out. An order
-- holds the target, no name twice, only names that the target's dependencies lead to, and with each
-- target all of its dependencies; to an unknown dependency the dependencies lead, and no target has
-- its name.
pub topo_order-Ended : (cfg : File) (name : Text) → Ended cfg name (topo_order cfg name)
topo_order-Ended cfg name = of_outcome (topo_order cfg name) refl
  where
    of_outcome : (o : Outcome (List Text)) → topo_order cfg name ≡ o → Ended cfg name o
    of_outcome (ok order) e = topo_order-Settled cfg name order e
    of_outcome (unknown_dependency d) e = topo_order-unknown cfg name d e
    of_outcome out_of_fuel e = topo_order-total cfg name e
