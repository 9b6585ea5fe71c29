-- ===== src/Runner/Levels/Tests.antt =====
-- LevelOrder on the Bakefiles of Runner.Dag.Tests.
use go_bake.Base.{
  ◌≡◌, refl, ap, ◌∙◌, ℕ, ◌<◌, some, List, [], ◌∷◌, Text, All, contains, ◌==◌, lookup, insert,
  collect,
}
use go_bake.Config.{target_by_name, find_target}
use go_bake.Config.Validate.{validate}
use go_bake.Runner.Dag.{ok, ◌>>=◌}
use go_bake.Runner.Dag.Tests.{
  needs, build, gen, test, diamond, rank, diamond-IsRanked, topo_order-diamond, cyclic,
}
use go_bake.Runner.Levels.{level_order, levels_of}
use go_bake.Runner.Levels.Place.{in_level}
use go_bake.Runner.Levels.Groups.{InLevel, Groups, level_order-Groups, level_order-above}

levels_of-diamond :
    levels_of diamond (gen ∷ build ∷ test ∷ [])
    ≡ some ((gen ∷ []) ∷ (build ∷ []) ∷ (test ∷ []) ∷ [])
unfolding levels_of contains ◌==◌ lookup insert
levels_of-diamond = refl

-- On a cycle a dependency that has no level yet counts as one of level 0, which stays empty.
levels_of-cyclic : levels_of cyclic (gen ∷ build ∷ []) ≡ some ([] ∷ (gen ∷ []) ∷ (build ∷ []) ∷ [])
unfolding levels_of contains ◌==◌ lookup insert
levels_of-cyclic = refl

validate-diamond : validate diamond ≡ []
unfolding validate lookup insert collect contains ◌==◌ target_by_name find_target
validate-diamond = refl

level_order-diamond :
    level_order diamond test ≡ ok (some ((gen ∷ []) ∷ (build ∷ []) ∷ (test ∷ []) ∷ []))
unfolding level_order
level_order-diamond =
    ap (λ o. o >>= λ ns. ok (levels_of diamond ns)) topo_order-diamond ∙ ap ok levels_of-diamond

level_order-Groups_example :
    (levels : List (List Text)) × (level_order diamond test ≡ ok (some levels))
    × Groups (gen ∷ build ∷ test ∷ []) levels
level_order-Groups_example =
    level_order-Groups diamond test (gen ∷ build ∷ test ∷ []) topo_order-diamond

test-InLevel : InLevel ((gen ∷ []) ∷ (build ∷ []) ∷ (test ∷ []) ∷ []) 2 test
unfolding in_level contains ◌==◌
test-InLevel = refl

target_by_name-test : target_by_name diamond test ≡ some (needs test (build ∷ gen ∷ []))
unfolding target_by_name find_target ◌==◌
target_by_name-test = refl

level_order-above_example :
    All
      (λ d. (j : ℕ) × (j < 2) × InLevel ((gen ∷ []) ∷ (build ∷ []) ∷ (test ∷ []) ∷ []) j d)
      (build ∷ gen ∷ [])
level_order-above_example =
    level_order-above diamond rank test ((gen ∷ []) ∷ (build ∷ []) ∷ (test ∷ []) ∷ [])
      validate-diamond diamond-IsRanked level_order-diamond 2 test (needs test (build ∷ gen ∷ []))
      test-InLevel target_by_name-test
