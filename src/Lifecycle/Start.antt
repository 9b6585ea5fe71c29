-- ===== src/Lifecycle/Start.antt =====
-- StartDaemon of internal/lifecycle/daemon.go. Starting a detached process and stopping one are
-- parameters, as is StartDaemonContainer with its client. The file's joinArgv is that of
-- internal/runner/runner.go, byte for byte; ToSlash changes nothing on Unix. The backend for tests
-- is left out.
use go_bake.Base.{
  Result, ok, err, ℕ, ◌&&◌, not, Option, List, [], ◌∷◌, ◌++◌, Text, TextMap, bytes, overlay,
  if◌then◌else◌,
}
use go_bake.Config.{Step, Daemon}
use go_bake.Env.{merge}
use go_bake.Resolve.Expand.{is_empty}
use go_bake.Runner.Shell.{join_argv}
use go_bake.System.{System, Process}
use go_bake.Container.Executor.{DaemonRun, workspace}

-- Processes that outlive the program. `start` returns the PID, and `start_container` the name of the
-- container; `stop` and `stop_container` return their error.
pub record Processes (sys : System) : Type 0 where
  pub start : Process → sys.World → Result ℕ × sys.World
  pub start_container : DaemonRun → sys.World → Result Text × sys.World
  pub stop : ℕ → sys.World → Option Text × sys.World
  pub stop_container : Text → sys.World → Option Text × sys.World

pub data StartError : Type 0 where
  no_steps : (daemon : Text) → StartError
  empty_argv : (daemon : Text) → StartError
  start_failed : (daemon message : Text) → StartError
  container_failed : (daemon message : Text) → StartError

-- What StartDaemon returns.
pub data Started : Type 0 where
  host : (pid : ℕ) → Started
  boxed : (id : Text) → Started
  failed : StartError → Started

-- The environment of the daemon, with a profile's over it.
unfoldable pub daemon_env : Daemon → TextMap Text → TextMap Text
unfolding overlay
daemon_env d env_overlay = overlay env_overlay d.env

abbrev daemon_working_dir : Text → Text
daemon_working_dir cwd = if is_empty cwd then workspace else workspace ++ b'/' ∷ cwd

module _ (sys : System) (procs : Processes sys) (root : Text) (d : Daemon) where
  unfoldable pub container_started : Result Text × sys.World → Started × sys.World
  container_started (ok id, w) = (Started.boxed id, w)
  container_started (err message, w) =
      (Started.failed (StartError.container_failed d.name message), w)

  unfoldable pub process_started : Result ℕ × sys.World → Started × sys.World
  process_started (ok pid, w) = (Started.host pid, w)
  process_started (err message, w) = (Started.failed (StartError.start_failed d.name message), w)

  -- The path with an image.
  unfoldable pub start_in_container : TextMap Text → Step → sys.World → Started × sys.World
  unfolding container_started bytes
  start_in_container env step w = container_started (
      procs.start_container
        (record {
          image = d.image;
          root_dir = root;
          networks = d.networks;
          volumes = d.volumes;
          cmd = step.argv;
          env = env;
          working_dir = daemon_working_dir d.cwd;
        })
        w)

  -- The command line, unless there is none.
  unfoldable pub host_argv : Step → List Text
  unfolding join_argv bytes
  host_argv step =
      if is_empty step.runner
      then step.argv
      else step.runner ∷ bytes "-c" ∷ join_argv step.argv ∷ []

  unfoldable pub start_argv : TextMap Text → List Text → sys.World → Started × sys.World
  unfolding process_started
  start_argv env [] w = (Started.failed (StartError.empty_argv d.name), w)
  start_argv env (a ∷ argv) w = process_started (
      procs.start
        (record {
          argv = a ∷ argv;
          cwd = if is_empty d.cwd then root else sys.join root d.cwd;
          env = env;
        })
        w)

  unfoldable pub start_step : TextMap Text → List Step → sys.World → Started × sys.World
  unfolding start_in_container host_argv start_argv
  start_step env [] w = (Started.failed (StartError.no_steps d.name), w)
  start_step env (step ∷ steps) w =
      if not (is_empty d.image) && not d.unsafe
      then start_in_container env step w
      else start_argv env (host_argv step) w

  unfoldable pub start_daemon :
      (dotenv cli_env env_overlay : TextMap Text) → sys.World → Started × sys.World
  unfolding start_step merge daemon_env
  start_daemon dotenv cli_env env_overlay w =
      start_step (merge sys.environ dotenv (daemon_env d env_overlay) cli_env) d.steps w
