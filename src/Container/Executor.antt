-- ===== src/Container/Executor.antt =====
-- Run, StartDaemonContainer, StopContainer and maybePullImage of
-- internal/runner/container/executor.go, over the API of Docker; opening a client for it is
-- left out. Errors are passed on without the words that Run puts before them.
use go_bake.Base.{
  Result, ok, err, ℕ, Bool, true, false, ◌&&◌, none, some, List, [], ◌∷◌, ◌++◌, Text, TextMap,
  bytes, decimal, nat_eq, ◌==◌, if◌then◌else◌,
}
use go_bake.Config.{VolumeRef}
use go_bake.System.{Process, ContainerRun}
use go_bake.Resolve.Expand.{is_empty}
use go_bake.Container.{
  Docker, Mount, Config, inspected, pulled, created, removed, started, connected, executed,
  attached, copied, exec_inspected, Answer, Api, pure, fail, behind, bind, ask, or_fail,
  ensure_network, ensure_volume,
}

abbrev pub workspace : Text
workspace = bytes "/workspace"

-- DaemonContainerOptions
pub record DaemonRun : Type 0 where
  pub image : Text
  pub root_dir : Text
  pub networks : List Text
  pub volumes : List VolumeRef
  pub cmd : List Text
  pub env : TextMap Text
  pub working_dir : Text

abbrev pub tail : List Text → List Text
tail [] = []
tail (n ∷ ns) = ns

abbrev pub run_config : ContainerRun → Text × List Mount → Config
run_config opts p = record {
  image = opts.image;
  cmd = bytes "sleep" ∷ bytes "infinity" ∷ [];
  env = [];
  working_dir = workspace;
  mounts = p.1;
  network_mode = p.0;
  auto_remove = true;
}

abbrev pub daemon_config : DaemonRun → Text × List Mount → Config
daemon_config opts p = record {
  image = opts.image;
  cmd = opts.cmd;
  env = opts.env;
  working_dir = opts.working_dir;
  mounts = p.1;
  network_mode = p.0;
  auto_remove = false;
}

module _ (d : Docker) where
  abbrev pub image_there : Text → Api d Bool
  image_there image e =
      let r = d.image_inspect image e.world in
      record { result = ok r.0; engine = record e { world = r.1 }; calls = inspected image ∷ [] }

  abbrev pub unless : Bool → Api d (Unit {0}) → Api d (Unit {0})
  unless true m = pure d tt
  unless false m = m

  unfoldable pub pull_missing : Text → Text → Bool → Api d (Unit {0})
  unfolding bytes ◌==◌
  pull_missing image policy there =
      unless (there && policy == bytes "if-not-present") (ask d (pulled image) (d.image_pull image))

  unfoldable pub pull_as : Text → Text → Api d (Unit {0})
  unfolding bytes ◌==◌ behind pull_missing
  pull_as image policy =
      unless (policy == bytes "never") (bind d (image_there image) (pull_missing image policy))

  abbrev pub policy_or_default : Text
  policy_or_default = if is_empty d.pull_policy then bytes "if-not-present" else d.pull_policy

  unfoldable pub maybe_pull_image : Text → Api d (Unit {0})
  unfolding pull_as bytes
  maybe_pull_image image = pull_as image policy_or_default

  -- The network that a container is created with.
  unfoldable pub first_network : List Text → Api d Text
  unfolding ensure_network
  first_network [] = pure d []
  first_network (n ∷ ns) = ensure_network d n

  unfoldable pub volume_mounts : List VolumeRef → Text → Api d (List Mount)
  unfolding ensure_volume behind
  volume_mounts [] root = pure d []
  volume_mounts (ref ∷ refs) root = bind d (ensure_volume d ref root) (λ v.
      bind d (volume_mounts refs root) (λ mounts. pure d (
        record {
          is_bind = if is_empty ref.host_path then false else true;
          source = v.0;
          target = v.1;
        }
        ∷ mounts)))

  -- The image, the network and the mounts.
  unfoldable pub prepare : Text → List Text → Text → List VolumeRef → Api d (Text × List Mount)
  unfolding maybe_pull_image first_network volume_mounts behind
  prepare image networks root volumes = bind d (maybe_pull_image image) (λ _.
      bind d (first_network networks) (λ mode. bind d (or_fail d root (d.abs root)) (λ root_abs.
        bind d (volume_mounts volumes root) (λ mounts.
          pure d
            (mode, record { is_bind = true; source = root_abs; target = workspace } ∷ mounts)))))

  abbrev pub created_as : Result Text × d.World → Api d Text
  created_as (err message, w) e = record {
    result = err message;
    engine = record e { world = w };
    calls = [];
  }
  created_as (ok id, w) e = record {
    result = ok id;
    engine = record e { world = w };
    calls = created id ∷ [];
  }

  unfoldable pub create : Config → Api d Text
  create config e = created_as (d.container_create config e.world) e

  unfoldable pub connect_all : Text → List Text → Api d (Unit {0})
  unfolding ensure_network behind
  connect_all id [] = pure d tt
  connect_all id (n ∷ ns) =
      bind d (ensure_network d n) (λ net.
        bind d (ask d (connected net id) (d.network_connect net id)) (λ _. connect_all id ns))

  -- The directory of a step in the container.
  abbrev pub step_cwd : Text → Text → Text → Text
  step_cwd root default dir =
      if is_empty dir
      then default
      else elim (d.rel root dir) [ none ↦ d.join workspace dir | some r ↦ d.join workspace r ]

  abbrev pub exit_status : ℕ → Api d (Unit {0})
  exit_status code =
      if nat_eq code 0 then pure d tt else fail d (bytes "exited with code " ++ decimal code)

  unfoldable pub exec_step : Text → Process → Api d (Unit {0})
  unfolding bytes decimal behind
  exec_step id p = bind d (ask d (executed id) (d.exec_create id p)) (λ exec_id.
      bind d (ask d (attached exec_id) (d.exec_attach exec_id)) (λ _.
        bind d (ask d (copied exec_id) (d.copy_output exec_id))
          (λ _. bind d (ask d (exec_inspected exec_id) (d.exec_inspect exec_id)) exit_status)))

  unfoldable pub exec_all : Text → Text → Text → List Process → Api d (Unit {0})
  unfolding exec_step bytes
  exec_all id root cwd [] = pure d tt
  exec_all id root cwd (p ∷ ps) =
      let rest = exec_all id root cwd ps in
      if is_empty p.argv
      then rest
      else bind d (exec_step id (record p { cwd = step_cwd root cwd p.cwd })) (λ _. rest)

  abbrev pub is_done : {A : Type 0} → Result A → Bool
  is_done (ok x) = true
  is_done (err message) = false

  -- ContainerRemove; its error is passed over.
  unfoldable pub removed_after : {A : Type 0} → Text → Answer d A → Answer d A
  removed_after id a =
      let r = d.container_remove id a.engine.world in
      record a {
        engine = record a.engine { world = r.1 };
        calls = a.calls ++ removed id (is_done r.0) ∷ [];
      }

  unfoldable pub removed_on_error : {A : Type 0} → Text → Answer d A → Answer d A
  unfolding removed_after
  removed_on_error id a = elim a.result [ ok x ↦ a | err message ↦ removed_after id a ]

  -- From the created container on.
  unfoldable pub run_in : ContainerRun → Text → Api d (Unit {0})
  unfolding connect_all exec_all behind bytes
  run_in opts id = bind d (connect_all id (tail opts.networks)) (λ _.
      bind d (ask d (started id) (d.container_start id)) (λ _.
        exec_all id opts.root_dir
          (if is_empty opts.target_cwd then workspace else d.join workspace opts.target_cwd)
          opts.steps))

  unfoldable pub run : ContainerRun → Api d (Unit {0})
  unfolding prepare create run_in removed_after bytes behind
  run opts =
      bind d (prepare opts.image opts.networks opts.root_dir opts.volumes)
        (λ p. bind d (create (run_config opts p)) (λ id e. removed_after id (run_in opts id e)))

  unfoldable pub start_in : DaemonRun → Text → Api d Text
  unfolding connect_all behind
  start_in opts id =
      bind d (connect_all id (tail opts.networks))
        (λ _. bind d (ask d (started id) (d.container_start id)) (λ _. pure d id))

  unfoldable pub start_daemon_container : DaemonRun → Api d Text
  unfolding prepare create start_in removed_on_error bytes behind
  start_daemon_container opts =
      if is_empty opts.cmd
      then fail d (bytes "daemon container: Cmd is required")
      else bind d (prepare opts.image opts.networks opts.root_dir opts.volumes) (λ p.
        bind d (create (daemon_config opts p)) (λ id e. removed_on_error id (start_in opts id e)))

  -- StopContainer
  unfoldable pub stop_container : Text → Api d (Unit {0})
  stop_container id e =
      let r = d.container_remove id e.world in
      record {
        result = r.0;
        engine = record e { world = r.1 };
        calls = removed id (is_done r.0) ∷ [];
      }
