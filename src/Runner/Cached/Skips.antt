-- ===== src/Runner/Cached/Skips.antt =====
-- A target that has run is up to date: runTargetWithCache of internal/runner/runner.go twice in a
-- row.
use mathlib.Core.Path.{subst}
use go_bake.Base.{
  Result, ok, err, ◌≡◌, refl, sym, ap, ◌∙◌, true, false, ◌||◌, Bool-cases, inl, inr, none, some,
  List, [], ◌∷◌, Text, TextMap, if◌then◌else◌,
}
use go_bake.Config.{Target}
use go_bake.System.{System}
use go_bake.Resolve.Expand.{is_empty}
use go_bake.Cache.{Manifest, Codec, resolve_globs, load_manifest, outputs_exist}
use go_bake.Runner.Steps.{log, RunOptions, Done, target_start, cache_skip}
use go_bake.Runner.Cached.{
  Prepared, expanded, prepare, up_to_date, or_none, new_manifest, save_run, run_uncached,
  run_incremental, run_guarded, when_holds, run_target_with_cache,
}
use go_bake.Runner.Cached.Found.{input_state, ReadsBack, prepare_inputs, load-save}
use go_bake.Runner.Cached.Saved.{
  steps_run, skip, prepared-again, save_run-ok, run_incremental-prepared, run_prepared-skip,
  run_prepared-run, run_prepared-err, manifest_outputs, failed_some,
}

module _ (sys : System) (json : Codec) (tgt : Target) (dotenv : TextMap Text)
    (opts : RunOptions) where
  -- What a run leaves as it is, and finds again.
  pub record Settles (w w' : sys.World) : Type 0 where
    -- The inputs have the same paths and contents.
    pub inputs : input_state sys tgt opts w' ≡ input_state sys tgt opts w
    -- The patterns of the outputs can be resolved.
    pub paths : List Text
    pub outputs : resolve_globs sys opts.root_dir (expanded sys opts tgt.outputs) w' ≡ ok paths
    -- What the outputs were behind the steps is there.
    pub there :
        outputs_exist sys opts.root_dir
          (or_none sys json (
            resolve_globs sys opts.root_dir
              (expanded sys opts tgt.outputs)
              (steps_run sys json tgt dotenv opts w).world))
          w'
        ≡ true

  -- JSON gives back the manifest of a run.
  abbrev pub ManifestReads : sys.World → Type 0
  ManifestReads w =
      (p : Prepared)
      → prepare sys json tgt dotenv opts w ≡ ok p
      → let m : Manifest =
          new_manifest sys json tgt opts p (steps_run sys json tgt dotenv opts w).world in
        json.unmarshal (json.marshal m) ≡ some m

  saved-again :
      (w : sys.World) (p : Prepared)
      → ReadsBack sys
      → ManifestReads w
      → prepare sys json tgt dotenv opts w ≡ ok p
      → let d : Done sys = save_run sys json tgt opts p (steps_run sys json tgt dotenv opts w) in
        d.error ≡ none
        → Settles w d.world
        → run_incremental sys json tgt dotenv opts d.world ≡ skip sys json tgt dotenv opts d.world
  saved-again w p law reads e none_failed settled =
      let m : Manifest =
        new_manifest sys json tgt opts p (steps_run sys json tgt dotenv opts w).world in
      let d : Done sys = save_run sys json tgt opts p (steps_run sys json tgt dotenv opts w) in
      let (h, same, looked) = prepare_inputs sys json tgt dotenv opts w p e in
      let (saved, world) =
        save_run-ok sys json tgt dotenv opts p (steps_run sys json tgt dotenv opts w) none_failed in
      prepared-again sys json tgt dotenv opts w d.world p h settled.paths e same looked
        settled.inputs settled.outputs
        (subst (λ u. load_manifest sys json opts.root_dir p.cache_key u ≡ ok (some m)) (sym world)
          (load-save sys json tgt dotenv opts p.cache_key m
            (steps_run sys json tgt dotenv opts w).world law (reads p e) saved))
        (subst (λ o. outputs_exist sys opts.root_dir o d.world ≡ true)
          (sym (
            manifest_outputs sys json tgt dotenv opts p
              (steps_run sys json tgt dotenv opts w).world))
          settled.there)

  run_incremental-again :
      (w : sys.World)
      → ReadsBack sys
      → ManifestReads w
      → let d : Done sys = run_incremental sys json tgt dotenv opts w in
        d.error ≡ none
        → Settles w d.world
        → run_incremental sys json tgt dotenv opts d.world ≡ skip sys json tgt dotenv opts d.world
  run_incremental-again w law reads = by_result (prepare sys json tgt dotenv opts w) refl
    where
      Again : Done sys → Type 0
      Again d =
          d.error ≡ none
          → Settles w d.world
          → run_incremental sys json tgt dotenv opts d.world ≡ skip sys json tgt dotenv opts d.world

      by_check :
          (p : Prepared) (e : prepare sys json tgt dotenv opts w ≡ ok p)
          → Again (run_incremental sys json tgt dotenv opts w)
      by_check p e = elim (Bool-cases (up_to_date sys json opts.root_dir p w)) [
        | inl fresh ↦
            let skips : run_incremental sys json tgt dotenv opts w
                ≡ skip sys json tgt dotenv opts w =
              run_incremental-prepared sys json tgt dotenv opts w (ok p) e
              ∙ run_prepared-skip sys json tgt dotenv opts w p fresh in
            subst Again (sym skips) (λ _ _. skips)
        | inr stale ↦
            subst Again
              (sym (
                run_incremental-prepared sys json tgt dotenv opts w (ok p) e
                ∙ run_prepared-run sys json tgt dotenv opts w p stale))
              (saved-again w p law reads e)
      ]

      by_result :
          (r : Result Prepared)
          → prepare sys json tgt dotenv opts w ≡ r
          → Again (run_incremental sys json tgt dotenv opts w)
      by_result (err m) e =
          subst Again (sym (run_incremental-prepared sys json tgt dotenv opts w (err m) e)) (λ h.
            absurd (
              failed_some sys json tgt dotenv opts
                (sym (run_prepared-err sys json tgt dotenv opts w m) ∙ h)))
      by_result (ok p) e = by_check p e

  pub when_holds-none :
      (w : sys.World)
      → tgt.when_cmd ≡ []
      → tgt.when_env ≡ []
      → when_holds sys tgt dotenv opts w ≡ (true, w)
  unfolding when_holds
  when_holds-none w c e = rw c (rw e refl)

  pub run_guarded-cached :
      (w : sys.World)
      → (is_empty tgt.inputs || is_empty tgt.outputs) ≡ false
      → run_guarded sys json tgt dotenv opts (true, w) ≡ run_incremental sys json tgt dotenv opts w
  unfolding run_guarded
  run_guarded-cached w e =
      ap
        (λ b.
          if b
          then run_uncached sys tgt dotenv opts w
          else run_incremental sys json tgt dotenv opts w)
        e

  run_target_with_cache-cached :
      (w : sys.World)
      → tgt.when_cmd ≡ []
      → tgt.when_env ≡ []
      → (is_empty tgt.inputs || is_empty tgt.outputs) ≡ false
      → run_target_with_cache sys json tgt dotenv opts w
        ≡ log sys (target_start tgt.name ∷ []) (run_incremental sys json tgt dotenv opts w)
  unfolding run_target_with_cache
  run_target_with_cache-cached w c v e =
      ap (λ r. log sys (target_start tgt.name ∷ []) (run_guarded sys json tgt dotenv opts r))
        (when_holds-none w c v)
      ∙ ap (log sys (target_start tgt.name ∷ [])) (run_guarded-cached w e)

-- A target with inputs and outputs and without a `when` that has run without an error is up to
-- date: if its inputs have the same contents, the patterns of its outputs resolve, and the outputs
-- that the run left are there, then the next run reports a cache_skip, runs nothing and leaves the
-- machine as it is. A file reads as it was written, and JSON gives back the manifest of the run.
pub run_target_with_cache-again :
    (sys : System) (json : Codec) (tgt : Target) (dotenv : TextMap Text) (opts : RunOptions)
    (w : sys.World)
    → tgt.when_cmd ≡ []
    → tgt.when_env ≡ []
    → (is_empty tgt.inputs || is_empty tgt.outputs) ≡ false
    → ReadsBack sys
    → ManifestReads sys json tgt dotenv opts w
    → let d : Done sys = run_target_with_cache sys json tgt dotenv opts w in
      d.error ≡ none
      → Settles sys json tgt dotenv opts w d.world
      → run_target_with_cache sys json tgt dotenv opts d.world ≡ record {
        error = none;
        world = d.world;
        events = target_start tgt.name ∷ cache_skip tgt.name ∷ [];
      }
run_target_with_cache-again sys json tgt dotenv opts w c v e law reads =
    let start : (u : sys.World) → _ =
      λ u. run_target_with_cache-cached sys json tgt dotenv opts u c v e in
    subst Again (sym (start w)) (λ none_failed settled.
      start _
      ∙ ap (log sys (target_start tgt.name ∷ []))
          (run_incremental-again sys json tgt dotenv opts w law reads none_failed settled))
  where
    Again : Done sys → Type 0
    Again d =
        d.error ≡ none
        → Settles sys json tgt dotenv opts w d.world
        → run_target_with_cache sys json tgt dotenv opts d.world ≡ record {
          error = none;
          world = d.world;
          events = target_start tgt.name ∷ cache_skip tgt.name ∷ [];
        }
