-- ===== src/Service/Reload.antt =====
-- internal/baked/hotreload.go: the daemons that a change of the Bakefile starts and stops. The loop
-- of DaemonDiff that fills two slices is here one function for each. What is only printed is left
-- out.
pub mod Diff
pub mod Recorded
pub mod Applied
use go_bake.Base.{
  Result, ok, err, ℕ, Bool, true, false, ◌&&◌, not, Option, none, some, List, [], ◌∷◌, Text,
  TextMap, bytes, lookup, insert, nat_eq, ltb, ◌==◌, if◌then◌else◌,
}
use go_bake.Config.{File, Target, Step, Daemon, target_by_name}
use go_bake.Env.{Dotenv}
use go_bake.Resolve.Expand.{is_empty}
use go_bake.System.{System}
use go_bake.Runner.Run.{load_env}
use go_bake.Lifecycle.{DaemonEntry, State, StateCodec, load, add_daemon, remove_daemon}
use go_bake.Lifecycle.Start.{Processes, Started, start_daemon}

abbrev pub daemons_of : Option Target → List Daemon
daemons_of none = []
daemons_of (some t) = t.daemons

-- A nil file is `none`.
unfoldable pub up_daemons : Option File → List Daemon
unfolding target_by_name bytes
up_daemons none = []
up_daemons (some cfg) = daemons_of (target_by_name cfg (bytes "up"))

unfoldable pub argv_equal : List Text → List Text → Bool
unfolding ◌==◌
argv_equal [] [] = true
argv_equal [] (b ∷ bs) = false
argv_equal (a ∷ as') [] = false
argv_equal (a ∷ as') (b ∷ bs) = a == b && argv_equal as' bs

unfoldable pub steps_equal : List Step → List Step → Bool
unfolding argv_equal
steps_equal [] [] = true
steps_equal [] (b ∷ bs) = false
steps_equal (a ∷ as') [] = false
steps_equal (a ∷ as') (b ∷ bs) = argv_equal a.argv b.argv && steps_equal as' bs

unfoldable pub daemon_equal : Daemon → Daemon → Bool
unfolding steps_equal ◌==◌
daemon_equal a b = a.image == b.image && steps_equal a.steps b.steps

-- `oldMap` and `newMap`.
unfoldable pub daemon_map : List Daemon → TextMap Daemon → TextMap Daemon
unfolding insert
daemon_map [] m = m
daemon_map (d ∷ ds) m = daemon_map ds (insert d.name d m)

abbrev pub is_absent : Option Daemon → Bool
is_absent none = true
is_absent (some d) = false

abbrev pub differs_from : Option Daemon → Daemon → Bool
differs_from none d = false
differs_from (some old) d = not (daemon_equal old d)

-- The daemons that a map does not have, and those that it has otherwise.
unfoldable pub missing_from : TextMap Daemon → List Daemon → List Daemon
unfolding lookup
missing_from m [] = []
missing_from m (d ∷ ds) =
    let rest = missing_from m ds in if is_absent (lookup d.name m) then d ∷ rest else rest

unfoldable pub changed_from : TextMap Daemon → List Daemon → List Daemon
unfolding lookup daemon_equal
changed_from m [] = []
changed_from m (d ∷ ds) =
    let rest = changed_from m ds in if differs_from (lookup d.name m) d then d ∷ rest else rest

pub record DaemonDiff : Type 0 where
  pub added : List Daemon
  pub removed : List Daemon
  pub changed : List Daemon

unfoldable pub daemon_diff : Option File → Option File → DaemonDiff
unfolding up_daemons daemon_map missing_from changed_from
daemon_diff old_cfg new_cfg = record {
  added = missing_from (daemon_map (up_daemons old_cfg) []) (up_daemons new_cfg);
  removed = missing_from (daemon_map (up_daemons new_cfg) []) (up_daemons old_cfg);
  changed = changed_from (daemon_map (up_daemons old_cfg) []) (up_daemons new_cfg);
}

-- A file that cannot be read leaves an empty map.
abbrev pub loaded_or_empty : Dotenv → TextMap Text
loaded_or_empty (Dotenv.loaded m) = m
loaded_or_empty (Dotenv.load_failed path) = []

module _ (sys : System) (json : StateCodec) (procs : Processes sys) (root : Text) where
  -- The error of a stop is passed over.
  unfoldable pub stop_running : DaemonEntry → sys.World → sys.World
  stop_running e w =
      if is_empty e.container_id
      then if nat_eq e.pid 0 then w else (procs.stop e.pid w).1
      else (procs.stop_container e.container_id w).1

  unfoldable pub stop_entry : Text → Option DaemonEntry → sys.World → sys.World
  unfolding stop_running remove_daemon
  stop_entry name none w = w
  stop_entry name (some e) w = (remove_daemon sys json root name (stop_running e w)).1

  unfoldable pub stop_loaded : Text → Result State → sys.World → sys.World
  unfolding stop_entry lookup
  stop_loaded name (err message) w = w
  stop_loaded name (ok s) w = stop_entry name (lookup name s) w

  unfoldable pub stop_and_remove : Text → sys.World → sys.World
  unfolding stop_loaded load
  stop_and_remove name w = stop_loaded name (load sys json root w) w

  unfoldable pub record_started : Text → Started × sys.World → sys.World
  unfolding add_daemon
  record_started name (Started.host pid, w) = (add_daemon sys json root name pid [] w).1
  record_started name (Started.boxed id, w) = (add_daemon sys json root name 0 id w).1
  record_started name (Started.failed e, w) = w

  unfoldable pub start_and_record : List Text → Daemon → sys.World → sys.World
  unfolding record_started start_daemon load_env
  start_and_record dotenv d w =
      record_started d.name
        (start_daemon sys procs root d (loaded_or_empty (load_env sys root dotenv w)) [] [] w)

  -- A loop over daemons.
  unfoldable pub each : (Daemon → sys.World → sys.World) → List Daemon → sys.World → sys.World
  each f [] w = w
  each f (d ∷ ds) w = each f ds (f d w)

  unfoldable pub stop_old : Daemon → sys.World → sys.World
  unfolding stop_and_remove
  stop_old d w = stop_and_remove d.name w

  unfoldable pub restart : List Text → Daemon → sys.World → sys.World
  unfolding stop_and_remove start_and_record
  restart dotenv d w = start_and_record dotenv d (stop_and_remove d.name w)

  unfoldable pub apply_daemon_diff : File → DaemonDiff → sys.World → sys.World
  unfolding each stop_old restart start_and_record
  apply_daemon_diff cfg diff w =
      each (start_and_record cfg.dotenv) diff.added
        (each (restart cfg.dotenv) diff.changed (each stop_old diff.removed w))
