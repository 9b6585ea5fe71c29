-- ===== src/Runner/Run.antt =====
-- Run of internal/runner/runner.go with one target at a time. Opening a Docker client is a
-- parameter: `docker` says whether it succeeds.
pub mod Trace
pub mod Runs
pub mod Ordered
pub mod Unregistered
mod Tests
use go_bake.Base.{
  ℕ, zero, suc, Bool, true, false, ◌||◌, Option, none, some, List, [], ◌∷◌, ◌++◌, map, Text,
  TextMap, nat_eq, drop_last, ◌==◌, if◌then◌else◌,
}
use go_bake.Config.{File, Target, target_by_name}
use go_bake.Env.{FileText, Dotenv, load_dotenv, last_byte}
use go_bake.Resolve.Expand.{Data, is_empty}
use go_bake.System.{System, FileRead}
use go_bake.Cache.{Codec}
use go_bake.Runner.Dag.{Outcome, topo_order}
use go_bake.Runner.Steps.{
  RunError, unknown_target, unknown_dependency, dotenv_failed, dep_failed, out_of_fuel, RunEvent,
  run_start, run_end, RunOptions, Done, log,
}
use go_bake.Runner.Cached.{run_target_with_cache}

-- bufio.ScanLines: a carriage return before the end of a line is dropped.
abbrev drop_return : Text → Text
drop_return l = if nat_eq (last_byte l) 13 then drop_last l else l

abbrev in_line : ℕ → List Text → List Text
in_line c [] = (c ∷ []) ∷ []
in_line c (l ∷ ls) = (c ∷ l) ∷ ls

unfoldable pub split_lines : Text → List Text
split_lines [] = []
split_lines (c ∷ s) = let ls = split_lines s in if nat_eq c 10 then [] ∷ ls else in_line c ls

abbrev file_text : FileRead → FileText
file_text FileRead.not_exist = FileText.not_exist
file_text (FileRead.failed e) = FileText.failed
file_text (FileRead.contents c) = FileText.lines (map drop_return (split_lines c))

-- RunOptions of a dependency: it has no registry.
abbrev pub dep_options : RunOptions → Target → RunOptions
dep_options opts dep = record {
  root_dir = opts.root_dir;
  target_env = some dep.env;
  cli_env = opts.cli_env;
  data_args = record { declared = []; live = [] };
  passthrough_by_step = [];
  preset = none;
  has_registry = false;
}

module _ (sys : System) where
  unfoldable pub load_env : Text → List Text → sys.World → Dotenv
  unfolding load_dotenv split_lines
  load_env root names w =
      load_dotenv (sys.join root) (λ path. file_text (sys.read_file path w)) names

  -- An error of a dependency ends the run; otherwise the run goes on.
  unfoldable pub after_dep : Text → Done sys → (sys.World → Done sys) → Done sys
  after_dep name d next = elim d.error [
    | some e ↦ record d {
      error = some (dep_failed name e);
      events = d.events ++ run_end (some e) ∷ [];
    }
    | none ↦ log sys d.events (next d.world)
  ]

  abbrev pub finish_run : Done sys → Done sys
  finish_run d = record d { events = d.events ++ run_end d.error ∷ [] }

  abbrev pub stopped : RunError → sys.World → Done sys
  stopped e w = record { error = some e; world = w; events = run_end (some e) ∷ [] }

module _ (sys : System) (json : Codec) where
  module _ (cfg : File) (tgt : Target) (target_name : Text) (dotenv : TextMap Text)
      (opts : RunOptions) where
    -- The loop over the order, and the target itself behind it.
    unfoldable pub run_order : List Text → sys.World → Done sys
    unfolding target_by_name run_target_with_cache after_dep ◌==◌
    run_order [] w = finish_run sys (run_target_with_cache sys json tgt dotenv opts w)
    run_order (n ∷ ns) w =
        let here = finish_run sys (run_target_with_cache sys json tgt dotenv opts w) in
        let rest : Done sys = elim (target_by_name cfg n) [
          | none ↦ run_order ns w
          | some dep ↦
              after_dep sys n (run_target_with_cache sys json dep dotenv (dep_options opts dep) w)
                (λ w'. run_order ns w')
        ] in
        if n == target_name then here else rest

  unfoldable pub run_ordered :
      File → Target → Text → TextMap Text → RunOptions → Outcome (List Text) → sys.World → Done sys
  unfolding run_order
  run_ordered cfg tgt name dotenv opts (Outcome.ok order) w =
      run_order cfg tgt name dotenv opts order w
  run_ordered cfg tgt name dotenv opts (Outcome.unknown_dependency d) w =
      stopped sys (unknown_dependency d) w
  run_ordered cfg tgt name dotenv opts Outcome.out_of_fuel w = stopped sys out_of_fuel w

  unfoldable pub run_found :
      Bool → File → Target → Text → RunOptions → Dotenv → sys.World → Done sys
  unfolding run_ordered
  run_found docker cfg tgt name opts (Dotenv.load_failed path) w =
      stopped sys (dotenv_failed path) w
  run_found docker cfg tgt name opts (Dotenv.loaded dotenv) w =
      run_ordered cfg tgt name dotenv (record opts { has_registry = opts.has_registry || docker })
        (topo_order cfg name) w

  unfoldable pub run : Bool → File → Text → RunOptions → sys.World → Done sys
  unfolding run_found load_env target_by_name
  run docker cfg name opts w = log sys (run_start name ∷ []) (elim (target_by_name cfg name) [
    | none ↦ stopped sys (unknown_target name) w
    | some tgt ↦ run_found docker cfg tgt name opts (load_env sys opts.root_dir cfg.dotenv w) w
  ])
