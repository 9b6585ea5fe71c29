-- ===== src/Runner/Steps.antt =====
-- runTargetSteps of internal/runner/runner.go: the steps of one target, on
-- the host or in one container. A run appends its events to a log, without the times; a caller
-- without an EventWriter does not look at it. Printing the commands and the writers of the steps'
-- output are left out.
pub mod Resolved
pub mod Host
mod Tests
use go_bake.Base.{
  ◌⊎◌, inl, inr, ℕ, zero, suc, Bool, true, false, ◌&&◌, not, Option, none, some, List, [], ◌∷◌,
  ◌++◌, Text, TextMap, bytes, lookup, insert, overlay, length, nat_eq, ltb, ◌==◌, if◌then◌else◌,
}
use go_bake.Config.{Target, Preset, Step}
use go_bake.Env.{merge}
use go_bake.Resolve.Args.{StepMap, step_args}
use go_bake.Resolve.Expand.{Data, is_empty, has_data, expand_argv_if, expand_env_if, expand_env}
use go_bake.Runner.SearchPath.{strip_bake_bin_from_path}
use go_bake.Runner.Shell.{join_argv}
use go_bake.System.{System, Process, ContainerRun}

pub data RunError : Type 0 where
  unknown_target : (name : Text) → RunError
  unknown_dependency : (name : Text) → RunError
  dotenv_failed : (path : Text) → RunError
  dep_failed : (name : Text) → RunError → RunError
  env_template : RunError
  step_template step_env_template : (step : ℕ) → RunError
  step_failed : (step : ℕ) (message : Text) → RunError
  docker_required : (target image : Text) → RunError
  container_failed cache_failed : (message : Text) → RunError
  out_of_fuel : RunError

-- RunEvent; `none` is Ok.
pub data RunEvent : Type 0 where
  run_start target_start when_skip cache_skip : (target : Text) → RunEvent
  run_end : Option RunError → RunEvent
  target_end : (target : Text) → Option RunError → RunEvent
  step_start : (target : Text) (step : ℕ) → RunEvent
  step_end : (target : Text) (step : ℕ) → Option Text → RunEvent

-- RunOptions, less what only prints or reports. A nil TargetEnv is `none`.
pub record RunOptions : Type 0 where
  pub root_dir : Text
  pub target_env : Option (TextMap Text)
  pub cli_env : TextMap Text
  pub data_args : Data
  pub passthrough_by_step : StepMap
  pub preset : Option Preset
  pub has_registry : Bool

abbrev pub base_env : Target → Option (TextMap Text) → TextMap Text
base_env tgt none = tgt.env
base_env tgt (some env) = env

abbrev preset_env : Option Preset → TextMap Text
preset_env none = []
preset_env (some p) = p.env

-- TargetEnv, with the preset's variables over it.
unfoldable pub target_env : Target → RunOptions → TextMap Text
unfolding overlay
target_env tgt opts = overlay (preset_env opts.preset) (base_env tgt opts.target_env)

-- The steps, whether the preset's argv is appended, and to which step.
abbrev pub preset_steps : Target → Option Preset → List Step
preset_steps tgt none = tgt.steps
preset_steps tgt (some p) = if is_empty p.steps then tgt.steps else p.steps

abbrev pub preset_argv : Option Preset → List Text
preset_argv none = []
preset_argv (some p) = if is_empty p.steps then p.argv else []

abbrev first_slot : Target → ℕ
first_slot tgt = elim tgt.passthrough [ [] ↦ tgt.passthrough_step | slot ∷ slots ↦ slot.step ]

unfoldable pub passthrough_step : Target → List Step → ℕ
passthrough_step tgt steps = if ltb 0 (first_slot tgt) then first_slot tgt else length steps

pub record Command : Type 0 where
  pub step : ℕ
  pub runner : Text
  pub argv : List Text
  pub cwd : Text
  pub env : TextMap Text

-- What becomes of a step of the host path before it is run.
pub data Planned : Type 0 where
  refused : RunError → Planned
  empty : Planned
  command : Command → Planned

module _ (sys : System) where
  -- The environment of the steps; the target's own variables are expanded.
  unfoldable pub merged_env : Target → TextMap Text → RunOptions → Option (TextMap Text)
  unfolding merge target_env expand_env_if strip_bake_bin_from_path
  merged_env tgt dotenv opts =
      elim (expand_env_if sys.expand opts.data_args (target_env tgt opts)) [
        | none ↦ none
        | some expanded ↦ some (
            strip_bake_bin_from_path sys (merge sys.environ dotenv expanded opts.cli_env)
              opts.root_dir)
      ]

  abbrev pub cwd_in : Text → Text → Text → Text
  cwd_in root default dir = if is_empty dir then default else sys.join root dir

  module _ (tgt : Target) (opts : RunOptions) (env : TextMap Text) (last : ℕ) where
    -- A step of the host path: its expanded arguments, with the preset's and those passed through
    -- behind them.
    unfoldable pub plan_step : ℕ → Step → Planned
    unfolding step_args expand_argv_if expand_env_if overlay
    plan_step n step = elim (expand_argv_if sys.expand opts.data_args step.argv) [
      | none ↦ refused (step_template n)
      | some argv ↦
          elim (argv
            ++ (if nat_eq n last then preset_argv opts.preset else [])
            ++ step_args opts.passthrough_by_step n) [
              | [] ↦ empty
              | a ∷ rest ↦ elim (expand_env_if sys.expand opts.data_args step.env) [
                | none ↦ refused (step_env_template n)
                | some step_env ↦ command (record {
                  step = n;
                  runner = step.runner;
                  argv = a ∷ rest;
                  cwd = cwd_in opts.root_dir (cwd_in opts.root_dir opts.root_dir tgt.cwd) step.cwd;
                  env = overlay step_env env;
                })
              ]
            ]
    ]

    -- A step of the container path, with its runner before the arguments; none without arguments.
    unfoldable pub exec_step : ℕ → Step → RunError ⊎ Option Process
    unfolding step_args expand_argv_if expand_env_if overlay
    exec_step n step = elim (expand_argv_if sys.expand opts.data_args step.argv) [
      | none ↦ inl (step_template n)
      | some argv ↦
          elim (argv
            ++ (if nat_eq n last then preset_argv opts.preset else [])
            ++ step_args opts.passthrough_by_step n) [
              | [] ↦ inr none
              | a ∷ rest ↦ elim (expand_env_if sys.expand opts.data_args step.env) [
                | none ↦ inl (step_env_template n)
                | some step_env ↦ inr (
                    some (record {
                      argv = if is_empty step.runner then a ∷ rest else step.runner ∷ a ∷ rest;
                      cwd =
                          cwd_in opts.root_dir (cwd_in opts.root_dir opts.root_dir tgt.cwd)
                            step.cwd;
                      env = overlay step_env env;
                    }))
              ]
            ]
    ]

  -- runStep: a runner gets the arguments as one command line.
  unfoldable pub process : Command → Process
  unfolding join_argv bytes
  process c = record {
    argv = if is_empty c.runner then c.argv else c.runner ∷ bytes "-c" ∷ join_argv c.argv ∷ [];
    cwd = c.cwd;
    env = c.env;
  }

  -- What a part of a run returns: its error if any, the state of the machine, and its events.
  pub record Done : Type 0 where
    pub error : Option RunError
    pub world : sys.World
    pub events : List RunEvent

  abbrev pub log : List RunEvent → Done → Done
  log events d = record d { events = events ++ d.events }

  -- The event of the end, and the steps behind unless there is an error.
  unfoldable pub after_command :
      Text → Command → (sys.World → Done) → Option Text × sys.World → Done
  after_command name c next (some message, w) = record {
    error = some (step_failed c.step message);
    world = w;
    events = step_start name c.step ∷ step_end name c.step (some message) ∷ [];
  }
  after_command name c next (none, w) =
      log (step_start name c.step ∷ step_end name c.step none ∷ []) (next w)

  unfoldable pub host_step : Text → Planned → (sys.World → Done) → sys.World → Done
  unfolding after_command process
  host_step name (refused e) next w = record { error = some e; world = w; events = [] }
  host_step name empty next w = next w
  host_step name (command c) next w = after_command name c next (sys.exec (process c) w)

  unfoldable pub add_step :
      RunError ⊎ Option Process → RunError ⊎ List Process → RunError ⊎ List Process
  add_step (inl e) rest = inl e
  add_step (inr none) rest = rest
  add_step (inr (some p)) (inl e) = inl e
  add_step (inr (some p)) (inr steps) = inr (p ∷ steps)

  abbrev container_error : Option Text → Option RunError
  container_error none = none
  container_error (some message) = some (container_failed message)

  module _ (tgt : Target) (opts : RunOptions) (env : TextMap Text) (last : ℕ) where
    -- The loop of the host path.
    unfoldable pub host_steps : ℕ → List Step → sys.World → Done
    unfolding plan_step host_step
    host_steps n [] w = record { error = none; world = w; events = [] }
    host_steps n (s ∷ steps) w =
        host_step tgt.name (plan_step tgt opts env last n s) (λ w'. host_steps (suc n) steps w') w

    -- The loop of the container path: the commands, or the first error.
    unfoldable pub exec_steps : ℕ → List Step → RunError ⊎ List Process
    unfolding exec_step add_step
    exec_steps n [] = inr []
    exec_steps n (s ∷ steps) = add_step (exec_step tgt opts env last n s) (exec_steps (suc n) steps)

  unfoldable pub in_container : Target → RunOptions → RunError ⊎ List Process → sys.World → Done
  in_container tgt opts (inl e) w = record { error = some e; world = w; events = [] }
  in_container tgt opts (inr steps) w =
      let (result, w') =
        sys.run_container
          (record {
            image = tgt.image;
            root_dir = opts.root_dir;
            target_cwd = tgt.cwd;
            networks = tgt.networks;
            volumes = tgt.volumes;
            steps = steps;
          })
          w in
      record { error = container_error result; world = w'; events = [] }

  -- runTargetSteps from where the environment is known.
  unfoldable pub run_steps : Target → RunOptions → TextMap Text → sys.World → Done
  unfolding passthrough_step host_steps exec_steps in_container
  run_steps tgt opts env w =
      let steps = preset_steps tgt opts.preset in
      let last = passthrough_step tgt steps in
      if not (is_empty tgt.image) && not tgt.unsafe
      then if opts.has_registry
        then in_container tgt opts (exec_steps tgt opts env last 1 steps) w
        else record { error = some (docker_required tgt.name tgt.image); world = w; events = [] }
      else host_steps tgt opts env last 1 steps w

  unfoldable pub run_target_steps : Target → TextMap Text → RunOptions → sys.World → Done
  unfolding merged_env run_steps
  run_target_steps tgt dotenv opts w = elim (merged_env tgt dotenv opts) [
    | none ↦ record { error = some env_template; world = w; events = [] }
    | some env ↦ run_steps tgt opts env w
  ]
