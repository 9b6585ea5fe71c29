-- ===== src/Runner/Run/Tests.antt =====
-- Run on a small Bakefile, with the machine of the tests.
use go_bake.Base.{
  ◌≢◌, ◌⊎◌, ◌≡◌, refl, true, false, none, some, [], ◌∷◌, bytes, contains, lookup, insert, collect,
  ◌==◌, Has, overlay,
}
use go_bake.Config.{File, Target, target_by_name, find_target}
use go_bake.Config.Validate.{validate}
use go_bake.System.Tests.{machine, codec, fresh}
use go_bake.Runner.Dag.{topo_order, visit, visit_all}
use go_bake.Runner.Dag.Tests.{build, gen, test, needs, diamond, rank, diamond-IsRanked}
use go_bake.Runner.Steps.{
  RunOptions, Done, docker_required, dep_failed, run_start, target_start, target_end, run_end,
  run_target_steps,
}
use go_bake.Runner.Cached.{run_target_with_cache}
use go_bake.Runner.Run.{run, load_env}
use go_bake.Runner.Run.Trace.{Ready, finish}
use go_bake.Runner.Run.Ordered.{run-Ready}
use go_bake.Runner.Run.Unregistered.{IsContained, run-Unregistered}

runs : Unit {0}
unfolding run load_env run_target_with_cache run_target_steps topo_order visit visit_all
    target_by_name find_target contains lookup insert collect overlay ◌==◌ validate
runs = tt

abbrev plain : RunOptions
plain = record {
  root_dir = [];
  target_env = none;
  cli_env = [];
  data_args = record { declared = []; live = [] };
  passthrough_by_step = [];
  preset = none;
  has_registry = false;
}

abbrev done : Done machine
done = run machine codec true diamond test plain (fresh [])

run-diamond :
    done.events
    ≡ run_start test
      ∷ target_start gen
      ∷ target_end gen none
      ∷ target_start build
      ∷ target_end build none
      ∷ target_start test
      ∷ target_end test none
      ∷ run_end none
      ∷ []
unfolding runs
run-diamond = refl

validate-diamond : validate diamond ≡ []
unfolding runs
validate-diamond = refl

run-Ready_example :
    Ready diamond [] done.events × ((done.error ≢ none) ⊎ Has (finish done.events []) test)
run-Ready_example =
    run-Ready machine codec true diamond rank test plain (fresh []) validate-diamond
      diamond-IsRanked

-- `test` needs `build`, which is to run in a container.
abbrev boxed : Target
boxed = record (needs build []) { image = bytes "alpine" }

abbrev contained : File
contained = record diamond { targets = needs test (build ∷ []) ∷ boxed ∷ [] }

boxed-IsContained : IsContained boxed
unfolding bytes
boxed-IsContained = record {
  image = refl;
  safe = refl;
  when_cmd = refl;
  when_env = refl;
  inputs = refl;
}

run-Unregistered_example :
    (run machine codec true contained test (record plain { has_registry = true }) (fresh [])).error
    ≡ some (dep_failed build (docker_required build (bytes "alpine")))
unfolding runs
run-Unregistered_example =
    run-Unregistered machine codec true contained test build (test ∷ []) (needs test (build ∷ []))
      boxed [] (record plain { has_registry = true }) (fresh []) refl refl refl refl
      boxed-IsContained refl
