-- ===== src/Runner/Contained/Tests.antt =====
-- A target in a container, with a Docker that fails to start it.
use go_bake.Base.{◌≡◌, refl, true, some, [], bytes, lookup, insert, overlay, ◌==◌, decimal}
use go_bake.Config.{Target}
use go_bake.Env.{merge}
use go_bake.System.Tests.{machine, fresh}
use go_bake.Container.{ensure_network}
use go_bake.Container.Executor.{run}
use go_bake.Container.Tests.{docker, engine}
use go_bake.Runner.Steps.{container_failed, run_target_steps}
use go_bake.Runner.Cached.Tests.{copy, plain}
use go_bake.Runner.Contained.{Place, with_docker}

abbrev apart : Place machine docker
apart = record { engine = λ m. engine; put = λ e m. m }

abbrev boxed : Target
boxed = record copy { image = bytes "alpine" }

runs : Unit {0}
unfolding run_target_steps run ensure_network merge lookup insert overlay bytes ◌==◌ decimal
runs = tt

boxed-failed :
    (run_target_steps
      (with_docker machine docker apart)
      boxed
      []
      (record plain { has_registry = true })
      (fresh [])).error
    ≡ some (container_failed (bytes "no"))
unfolding runs
boxed-failed = refl
