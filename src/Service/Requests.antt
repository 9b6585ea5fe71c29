-- ===== src/Service/Requests.antt =====
-- internal/baked/run.go, and runRequest, replayQueue and handleConn of cmd/baked/main.go: what the
-- service does for a request. Messages are values; what is only printed is left out. `docker` says
-- whether a client for Docker can be opened. A state file is a Go map, whose order is left open: it
-- is here the order of the list.
pub mod Known
use go_bake.Base.{
  Result, ok, err, ℕ, Bool, true, false, Option, none, some, List, [], ◌∷◌, ◌++◌, Text, TextMap,
  bytes, lookup, ◌==◌, if◌then◌else◌,
}
use go_bake.Config.{
  File, Target, Preset, Suite, Daemon, target_by_name, suite_by_name, preset_by_name, find_daemon,
}
use go_bake.Config.Validate.{parse_suite_entry}
use go_bake.Cache.{Codec}
use go_bake.Env.{Dotenv}
use go_bake.Resolve.Expand.{is_empty}
use go_bake.System.{System}
use go_bake.Lifecycle.{DaemonEntry, State, StateCodec, load, add_daemon, remove_daemon}
use go_bake.Lifecycle.Start.{Processes, StartError, Started, start_daemon}
use go_bake.Runner.Steps.{RunError, RunOptions, Done}
use go_bake.Runner.Run.{load_env, run}
use go_bake.Service.Queue.{
  Request, QueueEntry, QueueCodec, Queue, Queued, enqueue, dequeue, pending,
}

pub data ServiceError : Type 0 where
  unknown_target unknown_suite : (name : Text) → ServiceError
  target_failed : RunError → ServiceError
  -- The error of a suite's entry, and of a target of the workflow.
  entry_failed workflow_failed : (name : Text) → RunError → ServiceError
  no_up : ServiceError
  no_workflow : ServiceError
  dotenv_failed : (path : Text) → ServiceError
  unknown_name : (name : Text) → ServiceError
  start_failed : (daemon : Text) → StartError → ServiceError
  save_failed load_failed remove_failed : (message : Text) → ServiceError
  not_running : (daemon : Text) → ServiceError
  stop_failed : (daemon message : Text) → ServiceError
  missing_request : ServiceError
  no_config : ServiceError

-- RunOptions of the service, which runs one target at a time.
abbrev pub options : Text → Target → Option Preset → RunOptions
options root tgt preset = record {
  root_dir = root;
  target_env = some tgt.env;
  cli_env = [];
  data_args = record { declared = []; live = [] };
  passthrough_by_step = [];
  preset = preset;
  has_registry = false;
}

abbrev pub wrap : (RunError → ServiceError) → Option RunError → Option ServiceError
wrap f none = none
wrap f (some e) = some (f e)

-- What a part returns: its error if any, and the state of the machine.
abbrev pub Service : System → Type 0
Service sys = sys.World → Option ServiceError × sys.World

module _ (sys : System) where
  abbrev pub fails : ServiceError → Service sys
  fails e w = (some e, w)

  -- What comes behind a part that returns no error.
  unfoldable pub next :
      Option ServiceError × sys.World → Service sys → Option ServiceError × sys.World
  next (some e, w) f = (some e, w)
  next (none, w) f = f w

  module _ (json : Codec) (docker : Bool) (cfg : File) where
    -- runner.Run, with its error under a name.
    unfoldable pub run_as : (RunError → ServiceError) → Text → RunOptions → Service sys
    unfolding run
    run_as f name opts w = let d = run sys json docker cfg name opts w in (wrap f d.error, d.world)

    unfoldable pub run_target : Text → Service sys
    unfolding run_as target_by_name
    run_target name w = elim (target_by_name cfg name) [
      | none ↦ (some (unknown_target name), w)
      | some tgt ↦ run_as target_failed name (options cfg.root_dir tgt none) w
    ]

    abbrev pub entry_preset : Target → Text → Option Preset
    entry_preset tgt name = if is_empty name then none else preset_by_name tgt name

    unfoldable pub run_entry : Text → Text × Text → Option Target → Service sys
    unfolding run_as preset_by_name
    run_entry entry (name, preset) none w = (none, w)
    run_entry entry (name, preset) (some tgt) w =
        run_as (entry_failed entry) name (options cfg.root_dir tgt (entry_preset tgt preset)) w

    unfoldable pub run_entries : List Text → Service sys
    unfolding run_entry next parse_suite_entry target_by_name
    run_entries [] w = (none, w)
    run_entries (entry ∷ entries) w =
        let p = parse_suite_entry entry in
        next (run_entry entry p (target_by_name cfg p.0) w) (run_entries entries)

    unfoldable pub run_suite : Text → Service sys
    unfolding run_entries suite_by_name
    run_suite name w = elim (suite_by_name cfg name) [
      | none ↦ (some (unknown_suite name), w)
      | some su ↦ run_entries su.targets w
    ]

  module _ (state : StateCodec) (procs : Processes sys) where
    -- The entry of a daemon that has been started.
    unfoldable pub saved : Text → Text → Started × sys.World → Option ServiceError × sys.World
    unfolding add_daemon
    saved root name (Started.failed e, w) = (some (ServiceError.start_failed name e), w)
    saved root name (Started.host pid, w) =
        let r = add_daemon sys state root name pid [] w in
        (elim r.0 [ none ↦ none | some message ↦ some (save_failed message) ], r.1)
    saved root name (Started.boxed id, w) =
        let r = add_daemon sys state root name 0 id w in
        (elim r.0 [ none ↦ none | some message ↦ some (save_failed message) ], r.1)

    module _ (json : Codec) (docker : Bool) (cfg : File) where
      unfoldable pub up_daemon : Target → TextMap Text → Text → Option Daemon → Service sys
      unfolding saved start_daemon
      up_daemon tgt dotenv name none w = (some (unknown_name name), w)
      up_daemon tgt dotenv name (some d) w =
          saved cfg.root_dir d.name (start_daemon sys procs cfg.root_dir d dotenv [] [] w)

      unfoldable pub up_name : Target → TextMap Text → Text → Option Target → Service sys
      unfolding run_as up_daemon find_daemon
      up_name tgt dotenv name none w = up_daemon tgt dotenv name (find_daemon tgt.daemons name) w
      up_name tgt dotenv name (some run_tgt) w =
          run_as json docker cfg (workflow_failed name) name (options cfg.root_dir run_tgt none) w

      -- The loop over the workflow.
      unfoldable pub up_names : Target → TextMap Text → List Text → Service sys
      unfolding up_name next target_by_name
      up_names tgt dotenv [] w = (none, w)
      up_names tgt dotenv (name ∷ names) w =
          next (up_name tgt dotenv name (target_by_name cfg name) w) (up_names tgt dotenv names)

      unfoldable pub up_loaded : Target → Dotenv → Service sys
      unfolding up_names
      up_loaded tgt (Dotenv.load_failed path) w = (some (ServiceError.dotenv_failed path), w)
      up_loaded tgt (Dotenv.loaded dotenv) w = up_names tgt dotenv tgt.workflow w

      unfoldable pub up_target : Option Target → Service sys
      unfolding up_loaded load_env
      up_target none w = (some no_up, w)
      up_target (some tgt) w =
          if is_empty tgt.workflow
          then (some no_workflow, w)
          else up_loaded tgt (load_env sys cfg.root_dir cfg.dotenv w) w

      unfoldable pub run_up : Service sys
      unfolding up_target target_by_name bytes
      run_up w = up_target (target_by_name cfg (bytes "up")) w
