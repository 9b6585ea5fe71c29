-- ===== src/Container/Tests.antt =====
-- A Docker that creates containers and fails to start them.
use go_bake.Base.{
  ◌++◌, ok, err, ◌≡◌, refl, true, some, [], ◌∷◌, bytes, lookup, insert, ◌==◌, decimal,
}
use go_bake.System.{ContainerRun}
use go_bake.Container.{
  Docker, Engine, created, removed, started, inspected, network, ensure_network,
}
use go_bake.Container.Executor.{DaemonRun, run, start_daemon_container}
use go_bake.Container.Quiet.{opened, left_by, unremoved}
use go_bake.Container.Created.{with_stop, refused, executor-opened}

abbrev pub docker : Docker
docker = record {
  World = Unit {0};
  image_inspect = λ image w. (true, w);
  image_pull = λ image w. (ok tt, w);
  network_create = λ name w. (ok name, w);
  volume_create = λ name w. (ok name, w);
  container_create = λ config w. (ok (bytes "box"), w);
  network_connect = λ net id w. (ok tt, w);
  container_start = λ id w. (err (bytes "no"), w);
  container_remove = λ id w. (ok tt, w);
  exec_create = λ id p w. (ok id, w);
  exec_attach = λ id w. (ok tt, w);
  copy_output = λ id w. (ok tt, w);
  exec_inspect = λ id w. (ok 0, w);
  abs = λ path. some path;
  rel = λ root path. some path;
  join = λ root path. path;
  pull_policy = [];
}

abbrev pub engine : Engine docker
engine = record { world = tt; registry = record { net_ids = []; vol_ids = [] } }

abbrev opts : ContainerRun
opts = record {
  image = bytes "alpine";
  root_dir = [];
  target_cwd = [];
  networks = bytes "n" ∷ [];
  volumes = [];
  steps = [];
}

abbrev daemon : DaemonRun
daemon = record {
  image = bytes "alpine";
  root_dir = [];
  networks = [];
  volumes = [];
  cmd = bytes "serve" ∷ [];
  env = [];
  working_dir = [];
}

runs : Unit {0}
unfolding run start_daemon_container ensure_network lookup insert bytes ◌==◌ decimal
runs = tt

run-calls :
    (run docker opts engine).calls
    ≡ inspected (bytes "alpine")
      ∷ network (bytes "n")
      ∷ created (bytes "box")
      ∷ started (bytes "box")
      ∷ removed (bytes "box") true
      ∷ []
unfolding runs
run-calls = refl

start_daemon_container-failed :
    (start_daemon_container docker daemon engine).result ≡ err (bytes "no")
unfolding runs
start_daemon_container-failed = refl

executor-opened_example :
    (opened (run docker opts engine).calls (bytes "other" ∷ [])
      ≡ unremoved (run docker opts engine).calls ++ bytes "other" ∷ [])
    × (opened (start_daemon_container docker daemon engine).calls (bytes "other" ∷ [])
        ≡ left_by
            (start_daemon_container docker daemon engine).result
            (unremoved (start_daemon_container docker daemon engine).calls)
            (bytes "other" ∷ []))
    × (opened (with_stop docker (start_daemon_container docker daemon engine)) (bytes "other" ∷ [])
        ≡ refused docker (start_daemon_container docker daemon engine) ++ bytes "other" ∷ [])
executor-opened_example = executor-opened docker opts daemon engine (bytes "other" ∷ [])
