-- ===== src/Runner/Steps/Tests.antt =====
-- Three steps, the second of which fails, on the host and for a container.
use go_bake.Base.{
  false, ◌≡◌, refl, none, some, List, [], ◌∷◌, Text, bytes, lookup, insert, overlay, collect, ◌==◌,
  contains,
}
use go_bake.Config.{Target, Step, new_target}
use go_bake.System.Tests.{machine, fresh}
use go_bake.Runner.Steps.{step_failed, RunOptions, host_steps, exec_steps}
use go_bake.Runner.Steps.Resolved.{HostRuns, Lists}
use go_bake.Runner.Steps.Host.{steps-Resolves}

abbrev step_of : List Text → Step
step_of argv = record {
  runner = [];
  argv = argv;
  cwd = [];
  env = [];
  timeout = [];
  ok_exit_codes = [];
}

abbrev three_steps : List Step
three_steps =
    step_of (bytes "out" ∷ []) ∷ step_of (bytes "false" ∷ []) ∷ step_of (bytes "more" ∷ []) ∷ []

abbrev tgt : Target
tgt = new_target (bytes "t") false

abbrev opts : RunOptions
opts = record {
  root_dir = [];
  target_env = none;
  cli_env = [];
  data_args = record { declared = []; live = [] };
  passthrough_by_step = [];
  preset = none;
  has_registry = false;
}

steps : Unit {0}
unfolding host_steps exec_steps lookup insert overlay collect contains ◌==◌
steps = tt

-- The third step is not run.
host_steps-failing :
    (host_steps machine tgt opts [] 3 1 three_steps (fresh [])).error
    ≡ some (step_failed 2 (bytes "false"))
unfolding steps
host_steps-failing = refl

steps-Resolves_example :
    HostRuns machine tgt opts [] 3 1 three_steps
      (fresh [])
      (host_steps machine tgt opts [] 3 1 three_steps (fresh []))
    × Lists machine tgt opts [] 3 1 three_steps (exec_steps machine tgt opts [] 3 1 three_steps)
steps-Resolves_example = steps-Resolves machine tgt opts [] 3 1 three_steps (fresh [])
