-- ===== src/Runner/Cached.antt =====
-- runTargetWithCache and stepSignature of internal/runner/runner.go. Pools and mutexes are taken at
-- the start and given back at the end; one target at a time never waits for them. Reports of times
-- and artifacts are left out.
pub mod Found
pub mod Saved
pub mod Skips
pub mod Signature
pub mod Tests
use mathlib.Core.Option
use go_bake.Base.{
  Result, ok, err, ◌>>=◌, decimal, ℕ, zero, suc, Bool, true, false, ◌&&◌, ◌||◌, not, Option, none,
  some, List, [], ◌∷◌, ◌++◌, map, Text, TextMap, bytes, overlay, lookup, sort_by, sort_texts,
  collect, ◌==◌, if◌then◌else◌, equals,
}
use go_bake.Config.{Target, Preset, Step}
use go_bake.Env.{merge}
use go_bake.Resolve.Expand.{
  Data, is_empty, has_data, expand_argv, expand_argv_if, expand_env, expand_env_if,
}
use go_bake.System.{System, Process}
use go_bake.Cache.{
  Codec, Manifest, key, hash_files_map, resolve_globs, load_manifest, save_manifest, outputs_exist,
  record_output_mtimes,
}
use go_bake.Runner.SearchPath.{strip_bake_bin_from_path}
use go_bake.Runner.Steps.{
  RunError, cache_failed, RunEvent, target_start, target_end, when_skip, cache_skip, RunOptions,
  base_env, target_env, preset_steps, cwd_in, Done, log, run_target_steps,
}

abbrev or_nil {ℓ} : {A : Type ℓ} → Option (List A) → List A
or_nil none = []
or_nil (some xs) = xs

abbrev or_text : Option Text → Text
or_text none = []
or_text (some s) = s

-- What is known of the inputs before the target is run.
pub record Prepared : Type 0 where
  pub input_hash : Text
  pub input_hashes : TextMap Text
  pub cache_key : Text
  pub manifest : Option Manifest

module _ (sys : System) where
  -- A value that cannot be expanded counts as empty.
  abbrev signed_value : Data → Text → Text
  signed_value d v = if has_data d then or_text (sys.expand d v) else v

  abbrev sort_pairs : TextMap Text → TextMap Text
  sort_pairs = sort_by (λ p. p.0)

  -- What a step adds to the hash.
  unfoldable pub step_bytes : Data → ℕ → Step → Text
  unfolding expand_argv_if collect sort_by bytes decimal
  step_bytes d n step =
      bytes "step:"
      ++ decimal n
      ++ collect (λ a. a) (or_nil (expand_argv_if sys.expand d step.argv))
      ++ collect (λ p. p.0 ++ signed_value d p.1) (sort_pairs step.env)

  unfoldable pub steps_bytes : Data → ℕ → List Step → Text
  unfolding step_bytes
  steps_bytes d n [] = []
  steps_bytes d n (s ∷ steps) = step_bytes d n s ++ steps_bytes d (suc n) steps

  unfoldable pub preset_bytes : Option Preset → Text
  unfolding collect bytes
  preset_bytes none = []
  preset_bytes (some p) =
      (bytes "preset:" ++ p.name) ++ (if is_empty p.steps then collect (λ a. a) p.argv else [])

  abbrev assignments : TextMap Text → List Text
  assignments = map (λ p. p.0 ++ equals ∷ p.1)

  -- The hash of what is known of the steps, with the preset and the environment around it; an
  -- environment that cannot be expanded counts as empty.
  unfoldable pub sign : Target → TextMap Text → RunOptions → Text → Text
  unfolding preset_bytes target_env merge expand_env_if sort_by collect
  sign tgt dotenv opts steps =
      let env =
        merge sys.environ dotenv
          (or_nil (expand_env_if sys.expand opts.data_args (target_env tgt opts))) opts.cli_env in
      sys.sha256
        (preset_bytes opts.preset ++ steps ++ collect (λ a. a) (sort_texts (assignments env)))

  unfoldable pub step_signature : Target → TextMap Text → RunOptions → Text
  unfolding sign steps_bytes
  step_signature tgt dotenv opts =
      sign tgt dotenv opts (steps_bytes opts.data_args 0 (preset_steps tgt opts.preset))

  -- The guard: the command succeeds, or the variable is not empty.
  unfoldable pub when_holds : Target → TextMap Text → RunOptions → sys.World → Bool × sys.World
  unfolding merge strip_bake_bin_from_path
  when_holds tgt dotenv opts w = elim tgt.when_cmd [
    | a ∷ argv ↦
        let (result, w') =
          sys.exec
            (record {
              argv = a ∷ argv;
              cwd = cwd_in sys opts.root_dir opts.root_dir tgt.cwd;
              env =
                  strip_bake_bin_from_path sys
                    (merge sys.environ dotenv (base_env tgt opts.target_env) opts.cli_env)
                    opts.root_dir;
            })
            w in
        (elim result [ none ↦ true | some message ↦ false ], w')
    | [] ↦
        if is_empty tgt.when_env then (true, w) else (not (is_empty (sys.getenv tgt.when_env)), w)
  ]

  abbrev pub expanded : RunOptions → List Text → List Text
  expanded opts paths = or_nil (expand_argv sys.expand paths opts.data_args)

  abbrev pub ended : Text → Option RunError → Done sys → Done sys
  ended name e d = record d { error = e; events = d.events ++ target_end name e ∷ [] }

  unfoldable pub run_uncached : Target → TextMap Text → RunOptions → sys.World → Done sys
  unfolding run_target_steps
  run_uncached tgt dotenv opts w =
      let d = run_target_steps sys tgt dotenv opts w in ended tgt.name d.error d

  module _ (json : Codec) where
    -- The manifest under the key that the hash of the inputs gives.
    unfoldable pub look_up :
        Target → TextMap Text → RunOptions → sys.World → Text × TextMap Text → Result Prepared
    unfolding key step_signature load_manifest
    look_up tgt dotenv opts w hashed = do
      let k = key sys tgt.name hashed.0 (step_signature tgt dotenv opts)
      found ← load_manifest sys json opts.root_dir k w
      ok (record {
        input_hash = hashed.0;
        input_hashes = hashed.1;
        cache_key = k;
        manifest = found;
      })

    unfoldable pub prepare : Target → TextMap Text → RunOptions → sys.World → Result Prepared
    unfolding resolve_globs hash_files_map look_up expand_argv
    prepare tgt dotenv opts w = do
      files ← resolve_globs sys opts.root_dir (expanded opts tgt.inputs) w
      outputs ← resolve_globs sys opts.root_dir (expanded opts tgt.outputs) w
      hashed ← hash_files_map sys opts.root_dir files w
      look_up tgt dotenv opts w hashed

    unfoldable pub up_to_date : Text → Prepared → sys.World → Bool
    unfolding outputs_exist ◌==◌
    up_to_date root p w = elim p.manifest [
      | none ↦ false
      | some m ↦ m.input_hash == sys.hex p.input_hash && outputs_exist sys root m.output_paths w
    ]

    abbrev or_none : Result (List Text) → List Text
    or_none (ok paths) = paths
    or_none (err e) = []

    -- The manifest of a run; a glob or a time that cannot be had is left out.
    unfoldable pub new_manifest : Target → RunOptions → Prepared → sys.World → Manifest
    unfolding resolve_globs record_output_mtimes expand_argv
    new_manifest tgt opts p w =
        let outputs = or_none (resolve_globs sys opts.root_dir (expanded opts tgt.outputs) w) in
        record {
          target_name = tgt.name;
          input_hash = sys.hex p.input_hash;
          input_hashes = p.input_hashes;
          output_paths = outputs;
          output_mtimes = or_nil (record_output_mtimes sys opts.root_dir outputs [] w);
        }

    abbrev pub cache_error : Option Text → Option RunError
    cache_error none = none
    cache_error (some message) = some (cache_failed message)

    -- The steps have run: their error, or the manifest is saved.
    unfoldable pub save_run : Target → RunOptions → Prepared → Done sys → Done sys
    unfolding new_manifest save_manifest
    save_run tgt opts p d = elim d.error [
      | some e ↦ ended tgt.name (some e) d
      | none ↦
          let (failure, w') =
            save_manifest sys json opts.root_dir p.cache_key (new_manifest tgt opts p d.world)
              d.world in
          record {
            error = cache_error failure;
            world = w';
            events = d.events ++ target_end tgt.name none ∷ [];
          }
    ]

    unfoldable pub run_prepared :
        Target → TextMap Text → RunOptions → sys.World → Result Prepared → Done sys
    unfolding up_to_date save_run run_target_steps
    run_prepared tgt dotenv opts w (err message) =
        ended tgt.name (some (cache_failed message))
          (record { error = none; world = w; events = [] })
    run_prepared tgt dotenv opts w (ok p) =
        if up_to_date opts.root_dir p w
        then record { error = none; world = w; events = cache_skip tgt.name ∷ [] }
        else save_run tgt opts p (run_target_steps sys tgt dotenv opts w)

    unfoldable pub run_incremental : Target → TextMap Text → RunOptions → sys.World → Done sys
    unfolding prepare run_prepared
    run_incremental tgt dotenv opts w = run_prepared tgt dotenv opts w (prepare tgt dotenv opts w)

    unfoldable pub run_guarded : Target → TextMap Text → RunOptions → Bool × sys.World → Done sys
    unfolding run_uncached run_incremental
    run_guarded tgt dotenv opts (false, w) = record {
      error = none;
      world = w;
      events = when_skip tgt.name ∷ [];
    }
    run_guarded tgt dotenv opts (true, w) =
        if is_empty tgt.inputs || is_empty tgt.outputs
        then run_uncached tgt dotenv opts w
        else run_incremental tgt dotenv opts w

    unfoldable pub run_target_with_cache : Target → TextMap Text → RunOptions → sys.World → Done sys
    unfolding when_holds run_guarded
    run_target_with_cache tgt dotenv opts w =
        log sys (target_start tgt.name ∷ [])
          (run_guarded tgt dotenv opts (when_holds tgt dotenv opts w))
