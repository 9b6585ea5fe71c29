-- ===== src/Runner/Parallel/Tests.antt =====
-- The first goroutine of a run by levels.
use go_bake.Base.{
  All, ◌<◌, ◌≤◌, ◌≡◌, refl, none, some, List, [], ◌∷◌, Text, Has, contains, lookup, insert, collect,
  overlay, ◌==◌, arith, ◌⊎◌,
}
use go_bake.Config.{File, target_by_name, find_target}
use go_bake.Config.Validate.{validate}
use go_bake.Runner.Dag.{ok, topo_order, visit, visit_all}
use go_bake.Runner.Dag.Grows.{DepsIn}
use go_bake.Runner.Dag.Tests.{build, gen, test, needs, diamond, rank, diamond-IsRanked}
use go_bake.Runner.Levels.{level_order}
use go_bake.Runner.Parallel.{
  Group, mutex_of, pools, locks, enter_pool, lock, Next, begins, enters, returns, return, done,
  Reached, at_start, after, Stopped, leave, spawn, start, begin, enter,
}
use go_bake.Runner.Parallel.Apart.{Apart}
use go_bake.Runner.Parallel.Bounded.{slots, running-bounded, work-decreases, work}
use go_bake.Runner.Parallel.Complete.{waiting-DepsIn, levels-finished}

runs : Unit {0}
unfolding level_order topo_order visit visit_all target_by_name find_target contains lookup insert
    collect overlay ◌==◌ validate spawn leave
runs = tt

abbrev levels : List (List Text)
levels = (gen ∷ []) ∷ (build ∷ []) ∷ (test ∷ []) ∷ []

level_order-diamond : level_order diamond test ≡ ok (some levels)
unfolding runs
level_order-diamond = refl

abbrev begun : Group
begun = begin diamond (gen ∷ []) ((build ∷ []) ∷ (test ∷ []) ∷ []) (start levels)

begun-waiting : begun.waiting ≡ gen ∷ []
unfolding runs
begun-waiting = refl

begun-Reached : Reached diamond 2 levels begun
begun-Reached = after at_start (begins (gen ∷ []) _ refl (refl, refl, refl) refl refl)

gen-enters : Next diamond 2 begun (enter gen begun)
unfolding runs
gen-enters = enters gen refl (omega arith)

running-bounded_example :
    (slots (enter gen begun) ≡ (enter gen begun).sem)
    × ((enter gen begun).sem ≤ 2)
    × Apart (mutex_of diamond) (enter gen begun).running
    × (Stopped (enter gen begun)
        ⊎ ((t : Group) × Next diamond 2 (enter gen begun) t
            × (t.ctx_done ≡ (enter gen begun).ctx_done)))
running-bounded_example =
    running-bounded diamond 2 levels (enter gen begun) (omega arith)
      (after begun-Reached gen-enters)

work-decreases_example : work (enter gen begun) < work begun
work-decreases_example = work-decreases diamond 2 begun (enter gen begun) gen-enters

validate-diamond : validate diamond ≡ []
unfolding runs
validate-diamond = refl

waiting-DepsIn_example : All (DepsIn diamond begun.finished) begun.waiting
unfolding runs
waiting-DepsIn_example =
    waiting-DepsIn diamond rank test (needs test (build ∷ gen ∷ [])) levels 2 begun validate-diamond
      diamond-IsRanked refl level_order-diamond begun-Reached

-- A Bakefile of one target, run to the end.
abbrev lone : File
lone = record diamond { targets = needs gen [] ∷ [] }

abbrev lone_end : Group
lone_end =
    return gen none
      (lock gen (enter_pool gen (enter gen (begin lone (gen ∷ []) [] (start ((gen ∷ []) ∷ []))))))

lone_end-Reached : Reached lone 1 ((gen ∷ []) ∷ []) lone_end
unfolding runs
lone_end-Reached =
    after
      (after
        (after
          (after (after at_start (begins (gen ∷ []) [] refl (refl, refl, refl) refl refl))
            (enters gen refl (omega arith)))
          (pools gen refl refl))
        (locks gen refl refl))
      (returns gen none refl)

lone_end-Stopped : Stopped lone_end
unfolding runs
lone_end-Stopped = done refl (refl, refl, refl) refl refl

levels-finished_example : All (All (Has lone_end.finished)) ((gen ∷ []) ∷ [])
unfolding runs
levels-finished_example =
    levels-finished lone gen (needs gen []) ((gen ∷ []) ∷ []) 1 lone_end refl refl refl
      lone_end-Reached lone_end-Stopped refl
