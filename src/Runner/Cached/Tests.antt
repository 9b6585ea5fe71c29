-- ===== src/Runner/Cached/Tests.antt =====
-- A target that copies its input, run twice on the machine of the tests.
use mathlib.Core.Path.{subst}
use go_bake.Base.{
  Result, ok, err, if◌then◌else◌, lookup-insert, ==_refl, ◌≡◌, refl, sym, ap, ◌∙◌, false, none,
  some, List, [], ◌∷◌, Text, bytes, map, lookup, insert, collect, ◌==◌, contains, sort_by, overlay,
  decimal, append-nil,
}
use go_bake.Config.{Target, Step, new_target}
use go_bake.Env.{merge}
use go_bake.System.Tests.{Machine, machine, codec, fresh, read_of}
use go_bake.Cache.{
  Manifest, resolve_globs, hash_files_map, save_manifest, load_manifest, manifest_path, cache_dir,
  write_behind,
}
use go_bake.Runner.Steps.{
  RunOptions, Done, target_start, target_end, step_start, step_end, cache_skip, run_target_steps,
}
use go_bake.Runner.Cached.{
  Prepared, prepare, run_target_with_cache, run_incremental, new_manifest, step_signature,
}
use go_bake.Runner.Cached.Found.{ReadsBack}
use go_bake.Runner.Cached.Skips.{ManifestReads, Settles, run_target_with_cache-again}
use go_bake.Runner.Cached.Signature.{SameBytes, step_signature_unseen}

pub run_cached : Unit {0}
unfolding run_target_with_cache run_incremental prepare new_manifest save_manifest load_manifest
    resolve_globs hash_files_map step_signature run_target_steps merge overlay lookup insert collect
    contains ◌==◌ sort_by bytes decimal manifest_path cache_dir write_behind
run_cached = tt

abbrev pub step_of : List Text → Step
step_of argv = record {
  runner = [];
  argv = argv;
  cwd = [];
  env = [];
  timeout = [];
  ok_exit_codes = [];
}

abbrev pub copy : Target
copy = record (new_target (bytes "copy") false) {
  steps = step_of (bytes "out" ∷ bytes "in" ∷ []) ∷ [];
  inputs = bytes "in" ∷ [];
  outputs = bytes "out" ∷ [];
}

abbrev pub plain : RunOptions
plain = record {
  root_dir = [];
  target_env = none;
  cli_env = [];
  data_args = record { declared = []; live = [] };
  passthrough_by_step = [];
  preset = none;
  has_registry = false;
}

abbrev pub before : Machine
before = fresh ((bytes "in", bytes "x") ∷ [])

abbrev pub first_run : Done machine
first_run = run_target_with_cache machine codec copy [] plain before

first_run-events :
    first_run.events
    ≡ target_start copy.name
      ∷ step_start copy.name 1
      ∷ step_end copy.name 1 none
      ∷ target_end copy.name none
      ∷ []
unfolding run_cached
first_run-events = refl

abbrev second_run : Done machine
second_run = run_target_with_cache machine codec copy [] plain first_run.world

machine-ReadsBack : ReadsBack machine
machine-ReadsBack path text w e =
    let here : (if path == path then some text else lookup path w.files) ≡ some text =
      rw (==_refl path) refl in
    ap read_of (lookup-insert path path text w.files ∙ here)

abbrev prepared : Prepared
prepared = record {
  input_hash = bytes "inx";
  input_hashes = (bytes "in", bytes "x") ∷ [];
  cache_key = bytes "copyinxstep:0outin";
  manifest = none;
}

abbrev or_prepared : Result Prepared → Prepared
or_prepared (ok p) = p
or_prepared (err m) = prepared

prepare-before : prepare machine codec copy [] plain before ≡ ok prepared
unfolding run_cached
prepare-before = refl

abbrev Reads : Prepared → Type 0
Reads p =
    let m : Manifest =
      new_manifest machine codec copy plain p
        (run_target_steps machine copy [] plain before).world in
    codec.unmarshal (codec.marshal m) ≡ some m

prepared-Reads : Reads prepared
unfolding run_cached
prepared-Reads = refl

copied-Reads : ManifestReads machine codec copy [] plain before
copied-Reads p e = subst Reads (ap or_prepared (sym prepare-before ∙ e)) prepared-Reads

copied-Settles : Settles machine codec copy [] plain before first_run.world
unfolding run_cached
copied-Settles = record { inputs = refl; paths = bytes "out" ∷ []; outputs = refl; there = refl }

run_target_with_cache-again_example :
    run_target_with_cache machine codec copy [] plain first_run.world ≡ record {
      error = none;
      world = first_run.world;
      events = target_start copy.name ∷ cache_skip copy.name ∷ [];
    }
unfolding run_cached
run_target_with_cache-again_example =
    run_target_with_cache-again machine codec copy [] plain before refl refl refl machine-ReadsBack
      copied-Reads refl copied-Settles

-- Another runner and another gap between the arguments.
abbrev regroup : Step → Step
regroup s = record s { runner = bytes "sh"; argv = collect (λ a. a) s.argv ∷ [] }

regroup-SameBytes : SameBytes machine plain.data_args regroup
unfolding run_cached
regroup-SameBytes s = (append-nil _, refl)

step_signature_unseen_example :
    step_signature machine
      (record copy { steps = map regroup copy.steps; image = bytes "alpine"; cwd = bytes "sub" })
      []
      (record plain { passthrough_by_step = (1, bytes "more" ∷ []) ∷ [] })
    ≡ step_signature machine copy [] plain
unfolding run_cached
step_signature_unseen_example =
    step_signature_unseen machine copy [] plain regroup (bytes "alpine") (bytes "sub")
      ((1, bytes "more" ∷ []) ∷ []) regroup-SameBytes
