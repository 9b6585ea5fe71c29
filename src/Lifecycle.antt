-- ===== src/Lifecycle.antt =====
-- internal/lifecycle/state.go: the daemons that are running, kept in .bake/state.json, and the
-- health check of internal/baked/health.go. JSON is a parameter, and so is whether a process or a
-- container is there. A PID is a positive number; 0 is none.
pub mod Files
pub mod Health
pub mod Start
pub mod Tests
use go_bake.Base.{
  Result, ok, err, or_err, ℕ, ◌≡◌, refl, Bool, true, false, Option, none, some, List, [], ◌∷◌, Text,
  TextMap, bytes, insert, nat_eq, not, ◌==◌, if◌then◌else◌,
}
use go_bake.System.{System, FileRead}
use go_bake.Resolve.Expand.{is_empty}

pub record DaemonEntry : Type 0 where
  pub pid : ℕ
  pub container_id : Text

abbrev pub State : Type 0
State = TextMap DaemonEntry

-- encoding/json on states.
pub record StateCodec : Type 0 where
  pub marshal : State → Text
  pub unmarshal : Text → Option State

-- `delete(s.Daemons, name)`
unfoldable pub delete : Text → State → State
unfolding ◌==◌
delete name [] = []
delete name ((n, e) ∷ s) = let rest = delete name s in if n == name then rest else (n, e) ∷ rest

module _ (sys : System) (json : StateCodec) where
  unfoldable pub state_path : Text → Text
  unfolding bytes
  state_path root = sys.join root (sys.join (bytes ".bake") (bytes "state.json"))

  unfoldable pub read_state : Text → FileRead → Result State
  read_state root FileRead.not_exist = ok []
  read_state root (FileRead.failed e) = err e
  read_state root (FileRead.contents c) = or_err root (json.unmarshal c)

  unfoldable pub load : Text → sys.World → Result State
  unfolding read_state
  load root w = read_state root (sys.read_file (state_path root) w)

  unfoldable pub write_state : Text → State → Option Text × sys.World → Option Text × sys.World
  write_state root s (some message, w) = (some message, w)
  write_state root s (none, w) = sys.write_file (state_path root) (json.marshal s) w

  unfoldable pub save : Text → State → sys.World → Option Text × sys.World
  unfolding write_state bytes
  save root s w = write_state root s (sys.make_dirs (sys.join root (bytes ".bake")) w)

  -- What AddDaemon and RemoveDaemon share: the state is loaded, changed and saved.
  unfoldable pub change :
      (State → State) → Text → Result State → sys.World → Option Text × sys.World
  unfolding save
  change f root (err message) w = (some message, w)
  change f root (ok s) w = save root (f s) w

  unfoldable pub add_daemon : Text → Text → ℕ → Text → sys.World → Option Text × sys.World
  unfolding change load insert
  add_daemon root name pid container_id w =
      change (insert name (record { pid = pid; container_id = container_id })) root (load root w) w

  unfoldable pub remove_daemon : Text → Text → sys.World → Option Text × sys.World
  unfolding change load delete
  remove_daemon root name w = change (delete name) root (load root w) w

  -- Whether a process takes a signal, and whether a container is running.
  module _ (process_there : ℕ → sys.World → Bool) (container_there : Text → sys.World → Bool) where
    unfoldable pub is_daemon_alive : DaemonEntry → sys.World → Bool
    is_daemon_alive e w =
        if is_empty e.container_id
        then if nat_eq e.pid 0 then false else process_there e.pid w
        else container_there e.container_id w

    -- The loop of `check`; an error of RemoveDaemon is passed over.
    unfoldable pub check_entries : Text → State → sys.World → sys.World
    unfolding is_daemon_alive remove_daemon
    check_entries root [] w = w
    check_entries root ((n, e) ∷ s) w =
        check_entries root s (if is_daemon_alive e w then w else (remove_daemon root n w).1)

    unfoldable pub check_loaded : Text → Result State → sys.World → sys.World
    unfolding check_entries
    check_loaded root (err message) w = w
    check_loaded root (ok s) w = check_entries root s w

    unfoldable pub check : Text → sys.World → sys.World
    unfolding check_loaded load
    check root w = check_loaded root (load root w) w
