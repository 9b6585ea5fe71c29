-- ===== src/Service/Tests.antt =====
-- A reload on the machine of the tests.
use go_bake.Base.{
  ok, err, ℕ, ◌≡◌, ◌≢◌, refl, map, true, false, Option, none, some, List, [], ◌∷◌, Text, bytes,
  lookup, insert, overlay, contains, collect, ◌==◌,
}
use go_bake.Config.Validate.{validate}
use go_bake.Config.{File, Daemon, new_target, new_step, target_by_name, find_target, find_daemon}
use go_bake.System.Tests.{Machine, machine, codec, fresh}
use go_bake.Service.Queue.{new_queue, enqueue, dequeue}
use go_bake.Service.Queue.Kept.{view}
use go_bake.Service.Queue.Tests.{
  queue_codec, queue_file, clock, request, held, held-Reached, waiting,
}
use go_bake.Service.Requests.{ServiceError, unknown_name, run_up}
use go_bake.Service.Requests.Known.{run_up-known}
use go_bake.Service.Serve.{run_down, replay_queue, serve}
use go_bake.Service.Serve.Down.{Downed, stop_result, run_down-Downed}
use go_bake.Service.Serve.Replay.{drained, replay_queue-drained}
use go_bake.Lifecycle.{
  DaemonEntry, State, load, save, delete, state_path, add_daemon, remove_daemon,
}
use go_bake.Lifecycle.Start.{Processes, start_daemon}
use go_bake.Lifecycle.Tests.{state_codec, files}
use go_bake.Runner.Run.{load_env}
use go_bake.Service.Reload.{up_daemons, daemon_diff, apply_daemon_diff}
use go_bake.Service.Reload.Recorded.{Undisturbed}
use go_bake.Service.Reload.Applied.{Reloaded, apply_daemon_diff-Reloaded}

abbrev pub procs : Processes machine
procs = record {
  start = λ p m. (ok 9, m);
  start_container = λ c m. (err (bytes "no"), m);
  stop = λ pid m. (none, m);
  stop_container = λ id m. (none, m);
}

pub undisturbed : Undisturbed machine procs
undisturbed = record {
  start = λ path p w. refl;
  start_container = λ path c w. refl;
  stop = λ path pid w. refl;
  stop_container = λ path id w. refl;
}

abbrev pub api : Text
api = bytes "api"

abbrev pub db : Text
db = bytes "db"

abbrev pub web : Text
web = bytes "web"

abbrev pub daemon : Text → Text → Daemon
daemon name command = record {
  name = name;
  steps = new_step [] (command ∷ []) ∷ [];
  env = [];
  cwd = [];
  image = [];
  unsafe = false;
  networks = [];
  volumes = [];
  line = 0;
  column = 0;
}

abbrev pub file_of : List Daemon → File
file_of ds = record {
  dotenv = [];
  imports = [];
  profiles = [];
  targets = record (new_target (bytes "up") false) { daemons = ds } ∷ [];
  suites = [];
  root_dir = [];
  bake_path = [];
}

abbrev old_file : File
old_file = file_of (daemon api (bytes "a") ∷ daemon db (bytes "b") ∷ [])

abbrev new_file : File
new_file = file_of (daemon api (bytes "a") ∷ daemon web (bytes "c") ∷ [])

abbrev pub entry_of : ℕ → DaemonEntry
entry_of pid = record { pid = pid; container_id = [] }

abbrev pub running : State
running = (api, entry_of 7) ∷ (db, entry_of 8) ∷ []

abbrev pub before : Machine
before = (save machine state_codec [] running (fresh [])).1

runs : Unit {0}
unfolding validate save load delete state_path add_daemon remove_daemon lookup insert bytes contains
    collect ◌==◌ daemon_diff apply_daemon_diff target_by_name find_target start_daemon load_env
    overlay run_down run_up replay_queue new_queue enqueue dequeue
runs = tt

before-loaded : load machine state_codec [] before ≡ ok running
unfolding runs
before-loaded = refl

validate-old_file : validate old_file ≡ []
unfolding runs
validate-old_file = refl

validate-new_file : validate new_file ≡ []
unfolding runs
validate-new_file = refl

-- `api` stays, `db` is stopped and `web` is started.
apply_daemon_diff-before :
    load machine state_codec [] (
      apply_daemon_diff machine state_codec procs [] new_file
        (daemon_diff (some old_file) (some new_file))
        before)
    ≡ ok ((api, entry_of 7) ∷ (web, entry_of 9) ∷ [])
unfolding runs
apply_daemon_diff-before = refl

apply_daemon_diff-Reloaded_example :
    (t : State) × (load machine state_codec [] (
        apply_daemon_diff machine state_codec procs [] new_file
          (daemon_diff (some old_file) (some new_file))
          before)
      ≡ ok t)
    × ((name : Text)
        → Reloaded machine procs [] []
            (find_daemon (up_daemons (some old_file)) name)
            (find_daemon (up_daemons (some new_file)) name)
            (lookup name running)
            (lookup name t))
apply_daemon_diff-Reloaded_example =
    apply_daemon_diff-Reloaded machine state_codec procs [] old_file new_file running before files
      undisturbed validate-old_file validate-new_file before-loaded

-- Both daemons are stopped, and then `api` alone.
run_down-before :
    load machine state_codec [] (run_down machine state_codec procs [] [] before).1 ≡ ok []
unfolding runs
run_down-before = refl

run_down-Downed_example :
    let one : Option ServiceError × Machine = run_down machine state_codec procs [] api before in
    let all : Option ServiceError × Machine = run_down machine state_codec procs [] [] before in
    ((t : State) × (load machine state_codec [] one.1 ≡ ok t)
      × Downed api
          (lookup api running)
          (stop_result machine state_codec procs (lookup api running) before)
          running
          one.0
          t)
    × (all.0 ≡ none)
    × ((t : State) × (load machine state_codec [] all.1 ≡ ok t)
        × ((other : Text) → lookup other t ≡ none))
unfolding bytes
run_down-Downed_example =
    run_down-Downed machine state_codec procs [] b'a' (bytes "pi") running before files undisturbed
      before-loaded

-- The workflow starts `api`, and then a daemon that is not there is asked for.
abbrev up_file : List Text → File
up_file workflow = record new_file {
  targets =
      record (new_target (bytes "up") false) {
        workflow = workflow;
        daemons = record (daemon api (bytes "a")) { line = 3 } ∷ [];
      }
      ∷ [];
}

run_up-unknown :
    (run_up machine state_codec procs codec true (up_file (api ∷ web ∷ [])) (fresh [])).0
    ≡ some (unknown_name web)
unfolding runs
run_up-unknown = refl

run_up-running :
    load machine state_codec []
      (run_up machine state_codec procs codec true (up_file (api ∷ [])) (fresh [])).1
    ≡ ok ((api, entry_of 9) ∷ [])
unfolding runs
run_up-running = refl

validate-up_file : validate (up_file (api ∷ [])) ≡ []
unfolding runs
validate-up_file = refl

run_up-known_example :
    (run_up machine state_codec procs codec true (up_file (api ∷ [])) (fresh [])).0
    ≢ some (unknown_name web)
run_up-known_example =
    run_up-known machine state_codec procs codec true (up_file (api ∷ [])) web (fresh [])
      validate-up_file

-- The targets of the requests are missing: both fail, and the queue is empty.
replay_queue-held :
    (replay_queue machine state_codec procs codec true [] queue_codec clock (some new_file) held).0
    ≡ record held.0 { entries = [] }
unfolding runs
replay_queue-held = refl

replay_queue-drained_example :
    (replay_queue machine state_codec procs codec true [] queue_codec clock
        (some new_file)
        (held.0, held.1)
      ≡ (
        record held.0 { entries = [] },
        drained machine state_codec procs codec true [] queue_codec clock new_file held.0
            held.0.entries held.1,
      ))
    × (map view
          (serve machine state_codec procs codec true [] queue_codec clock
            (some new_file)
            (request (bytes "a"))
            held.0
            held.1).1.entries
        ≡ waiting)
replay_queue-drained_example =
    replay_queue-drained machine state_codec procs codec true [] queue_codec clock new_file
      (request (bytes "a")) waiting held.0 held.1 queue_file held-Reached
