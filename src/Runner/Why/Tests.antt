-- ===== src/Runner/Why/Tests.antt =====
-- Why the copy of the tests of Runner.Cached runs, and why it does not run again.
use go_bake.Base.{
  ok, ◌≡◌, refl, true, [], ◌∷◌, bytes, lookup, insert, collect, ◌==◌, contains, sort_by, overlay,
  decimal,
}
use go_bake.Env.{merge}
use go_bake.System.Tests.{machine, codec}
use go_bake.Cache.{
  resolve_globs, hash_files_map, save_manifest, load_manifest, manifest_path, cache_dir,
  write_behind,
}
use go_bake.Runner.Steps.{run_target_steps}
use go_bake.Runner.Cached.{
  prepare, run_target_with_cache, run_guarded, run_incremental, new_manifest, step_signature,
}
use go_bake.Runner.Cached.Tests.{copy, plain, before, first_run}
use go_bake.Runner.Why.{no_entry, up_to_date, why_reasons}
use go_bake.Runner.Why.Agrees.{decision, Follows, why_reasons-Agrees}

runs : Unit {0}
unfolding why_reasons run_target_with_cache run_incremental prepare new_manifest save_manifest
    load_manifest manifest_path cache_dir write_behind resolve_globs hash_files_map step_signature
    run_target_steps merge overlay lookup insert collect contains ◌==◌ sort_by bytes decimal
runs = tt

why_reasons-before : why_reasons machine codec copy [] plain before ≡ ok no_entry
unfolding runs
why_reasons-before = refl

why_reasons-after : why_reasons machine codec copy [] plain first_run.world ≡ ok up_to_date
unfolding runs
why_reasons-after = refl

why_reasons-Agrees_example :
    Follows machine codec copy [] plain first_run.world
      (decision up_to_date)
      (run_guarded machine codec copy [] plain (true, first_run.world))
unfolding runs
why_reasons-Agrees_example =
    why_reasons-Agrees machine codec copy [] plain first_run.world up_to_date (bytes "out" ∷ [])
      refl why_reasons-after
