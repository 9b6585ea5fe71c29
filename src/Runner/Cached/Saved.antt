-- ===== src/Runner/Cached/Saved.antt =====
-- A run that finds the manifest of an earlier one, and one that saves its own.
use mathlib.Core.Path.{subst}
use go_bake.Base.{
  Result, ok, err, ◌≢◌, ◌≡◌, refl, ap, ◌∙◌, true, false, Option, none, some, List, [], ◌∷◌, Text,
  TextMap, if◌then◌else◌,
}
use go_bake.Config.{Target}
use go_bake.System.{System}
use go_bake.Cache.{Manifest, Codec, resolve_globs, load_manifest, save_manifest, outputs_exist}
use go_bake.Runner.Steps.{RunError, RunOptions, Done, cache_skip, cache_failed, run_target_steps}
use go_bake.Runner.Cached.{
  Prepared, expanded, look_up, prepare, up_to_date, or_none, new_manifest, cache_error, save_run,
  run_prepared, run_incremental,
}
use go_bake.Runner.Cached.Found.{
  input_state, key_of, prepare_again, look_up_found, look_up_key, up_to_date-found,
}

module _ (sys : System) (json : Codec) (tgt : Target) (dotenv : TextMap Text)
    (opts : RunOptions) where
  pub failed_some : {e : RunError} → some e ≢ none
  failed_some h = cc

  abbrev pub skip : sys.World → Done sys
  skip w = record { error = none; world = w; events = cache_skip tgt.name ∷ [] }

  pub run_incremental-prepared :
      (w : sys.World) (r : Result Prepared)
      → prepare sys json tgt dotenv opts w ≡ r
      → run_incremental sys json tgt dotenv opts w ≡ run_prepared sys json tgt dotenv opts w r
  unfolding run_incremental
  run_incremental-prepared w r e = ap (run_prepared sys json tgt dotenv opts w) e

  pub run_prepared-err :
      (w : sys.World) (m : Text)
      → (run_prepared sys json tgt dotenv opts w (err m)).error ≡ some (cache_failed m)
  unfolding run_prepared
  run_prepared-err w m = refl

  pub run_prepared-skip :
      (w : sys.World) (p : Prepared)
      → up_to_date sys json opts.root_dir p w ≡ true
      → run_prepared sys json tgt dotenv opts w (ok p) ≡ skip w
  unfolding run_prepared
  run_prepared-skip w p u =
      ap
        (λ b.
          if b
          then skip w
          else save_run sys json tgt opts p (run_target_steps sys tgt dotenv opts w))
        u

  pub run_prepared-run :
      (w : sys.World) (p : Prepared)
      → up_to_date sys json opts.root_dir p w ≡ false
      → run_prepared sys json tgt dotenv opts w (ok p)
        ≡ save_run sys json tgt opts p (run_target_steps sys tgt dotenv opts w)
  unfolding run_prepared
  run_prepared-run w p u =
      ap
        (λ b.
          if b
          then skip w
          else save_run sys json tgt opts p (run_target_steps sys tgt dotenv opts w))
        u

  -- A run that saves its manifest without an error.
  pub save_run-ok :
      (p : Prepared) (d : Done sys)
      → (save_run sys json tgt opts p d).error ≡ none
      → let m : Manifest = new_manifest sys json tgt opts p d.world in
        let saved : Option Text × sys.World =
          save_manifest sys json opts.root_dir p.cache_key m d.world in
        (saved.0 ≡ none) × ((save_run sys json tgt opts p d).world ≡ saved.1)
  unfolding save_run
  save_run-ok p d =
      elim d.error
        as (λ e.
          (save_run sys json tgt opts p (record d { error = e })).error ≡ none
          → let m : Manifest = new_manifest sys json tgt opts p d.world in
            let saved : Option Text × sys.World =
              save_manifest sys json opts.root_dir p.cache_key m d.world in
            (saved.0 ≡ none)
            × ((save_run sys json tgt opts p (record d { error = e })).world ≡ saved.1)) [
              | some e ↦ λ h. cc
              | none ↦ λ h. (no_error _ h, refl)
            ]
    where
      no_error : (o : Option Text) → cache_error sys json o ≡ none → o ≡ none
      no_error none h = refl
      no_error (some m) h = cc

  abbrev pub steps_run : sys.World → Done sys
  steps_run w = run_target_steps sys tgt dotenv opts w

  manifest_hash :
      (p : Prepared) (d : Done sys) (x : Text)
      → p.input_hash ≡ x
      → (new_manifest sys json tgt opts p d.world).input_hash ≡ sys.hex x
  unfolding new_manifest
  manifest_hash p d x e = ap sys.hex e

  pub manifest_outputs :
      (p : Prepared) (w : sys.World)
      → (new_manifest sys json tgt opts p w).output_paths
        ≡ or_none sys json (resolve_globs sys opts.root_dir (expanded sys opts tgt.outputs) w)
  unfolding new_manifest
  manifest_outputs p w = refl

  -- A run of the steps, and after it a run that finds the manifest of the first.
  pub prepared-again :
      (w w' : sys.World) (p : Prepared) (h : Text × TextMap Text) (paths : List Text)
      → let m : Manifest = new_manifest sys json tgt opts p (steps_run w).world in
        prepare sys json tgt dotenv opts w ≡ ok p
        → input_state sys tgt opts w ≡ ok h
        → look_up sys json tgt dotenv opts w h ≡ ok p
        → input_state sys tgt opts w' ≡ input_state sys tgt opts w
        → resolve_globs sys opts.root_dir (expanded sys opts tgt.outputs) w' ≡ ok paths
        → load_manifest sys json opts.root_dir p.cache_key w' ≡ ok (some m)
        → outputs_exist sys opts.root_dir m.output_paths w' ≡ true
        → run_incremental sys json tgt dotenv opts w' ≡ skip w'
  prepared-again w w' p h paths e same looked inputs outputs loaded there =
      let m : Manifest = new_manifest sys json tgt opts p (steps_run w).world in
      let (hash, k) = look_up_key sys json tgt dotenv opts w h p looked in
      let found : Prepared = record {
        input_hash = h.0;
        input_hashes = h.1;
        cache_key = key_of sys json tgt dotenv opts h.0;
        manifest = some m;
      } in
      run_incremental-prepared w' (ok found) (
        prepare_again sys json tgt dotenv opts w' h paths (inputs ∙ same) outputs
        ∙ look_up_found sys json tgt dotenv opts w' h m
            (subst (λ x. load_manifest sys json opts.root_dir x w' ≡ ok (some m)) k loaded))
      ∙ run_prepared-skip w' found (
          up_to_date-found sys json tgt dotenv opts found m w' refl
            (manifest_hash p (steps_run w) h.0 hash) there)
