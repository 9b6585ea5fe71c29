-- ===== src/Runner/Why/Agrees.antt =====
-- What --why says against what the runner does.
use mathlib.Core.Path.{subst}
use go_bake.Base.{
  Bool-cases, inl, inr, ok-injective, Result, ok, err, ◌>>=◌, >>=-eq-ok, if_both, ◌≡◌, refl, sym,
  ap, ◌∙◌, Bool, true, false, ◌&&◌, ◌||◌, Option, none, some, List, [], ◌∷◌, Text, TextMap, ◌==◌,
  if◌then◌else◌,
}
use go_bake.Config.{Target}
use go_bake.System.{System}
use go_bake.Resolve.Expand.{is_empty}
use go_bake.Cache.{
  Manifest, Codec, key, hash_files_map, resolve_globs, load_manifest, missing_outputs,
  outputs_exist,
}
use go_bake.Runner.Steps.{RunOptions, Done, cache_skip, run_target_steps}
use go_bake.Runner.Cached.{
  Prepared, expanded, step_signature, look_up, prepare, up_to_date, run_prepared, run_incremental,
  run_guarded, save_run, ended, run_uncached,
}
use go_bake.Runner.Cached.Found.{input_state, prepare_again}
use go_bake.Runner.Cached.Skips.{run_guarded-cached}
use go_bake.Runner.Why.{
  Reasons, always_runs, no_entry, hash_mismatch, inputs_changed, outputs_missing, because,
  of_missing, without_entry, changed_inputs, judge, why_cached, why_reasons,
}

-- What is decided for a reason: the steps run outside of the cache, nothing runs, or the steps run
-- and a manifest is saved.
pub data Decision : Type 0 where
  uncached skipped saved : Decision

abbrev pub decision : Reasons → Decision
decision always_runs = uncached
decision no_entry = saved
decision hash_mismatch = saved
decision Reasons.up_to_date = skipped
decision (inputs_changed ps) = saved
decision (outputs_missing ps) = saved

abbrev skipped_if : Bool → Decision
skipped_if hit = if hit then skipped else saved

because-saved :
    (ps : List Text) (r : Reasons) → decision r ≡ saved → decision (because ps r) ≡ saved
because-saved [] r h = h
because-saved (p ∷ ps) r h = refl

without_entry-saved :
    (r : Result (Option Manifest)) (cur : TextMap Text) → decision (without_entry r cur) ≡ saved
unfolding without_entry
without_entry-saved (err e) cur = refl
without_entry-saved (ok none) cur = refl
without_entry-saved (ok (some m)) cur =
    if_both (λ r. decision r ≡ saved) (is_empty m.input_hashes) refl
      (because-saved (changed_inputs m.input_hashes cur) no_entry refl)

decision-choice :
    (same : Bool) (missing : List Text) (other : Reasons)
    → decision other ≡ saved
    → decision (if same then of_missing missing else other)
      ≡ skipped_if (same && (elim missing as (λ _. Bool) [ [] ↦ true | p ∷ ps ↦ false ]))
decision-choice true [] other h = refl
decision-choice true (p ∷ ps) other h = refl
decision-choice false missing other h = h

module _ (sys : System) (json : Codec) (tgt : Target) (dotenv : TextMap Text) (opts : RunOptions)
    (w : sys.World) where
  abbrev prepared : Text × TextMap Text → Option Manifest → Prepared
  prepared h found = record {
    input_hash = h.0;
    input_hashes = h.1;
    cache_key = key sys tgt.name h.0 (step_signature sys tgt dotenv opts);
    manifest = found;
  }

  judge-decision :
      (h : Text × TextMap Text) (found : Option Manifest)
      → decision (judge sys json tgt opts w h found)
        ≡ skipped_if (up_to_date sys json opts.root_dir (prepared h found) w)
  unfolding judge up_to_date outputs_exist
  judge-decision h none = without_entry-saved _ h.1
  judge-decision h (some m) =
      decision-choice (m.input_hash == sys.hex h.0)
        (missing_outputs sys opts.root_dir m.output_paths w) _
        (because-saved (changed_inputs m.input_hashes h.1) hash_mismatch refl)

  look_up-prepared :
      (h : Text × TextMap Text) (found : Option Manifest)
      → load_manifest sys json opts.root_dir
          (key sys tgt.name h.0 (step_signature sys tgt dotenv opts))
          w
        ≡ ok found
      → look_up sys json tgt dotenv opts w h ≡ ok (prepared h found)
  unfolding look_up
  look_up-prepared h found e = ap (λ r. r >>= λ m. ok (prepared h m)) e

  run_prepared-choice :
      (p : Prepared)
      → run_prepared sys json tgt dotenv opts w (ok p) ≡ (
          if up_to_date sys json opts.root_dir p w
          then record { error = none; world = w; events = cache_skip tgt.name ∷ [] }
          else save_run sys json tgt opts p (run_target_steps sys tgt dotenv opts w))
  unfolding run_prepared
  run_prepared-choice p = refl

  run_incremental-prepared :
      (p : Prepared)
      → prepare sys json tgt dotenv opts w ≡ ok p
      → run_incremental sys json tgt dotenv opts w ≡ run_prepared sys json tgt dotenv opts w (ok p)
  unfolding run_incremental
  run_incremental-prepared p e = ap (run_prepared sys json tgt dotenv opts w) e

  -- What the runner does; `p` is what it has prepared.
  abbrev pub Follows : Decision → Done sys → Type 0
  Follows uncached d =
      d ≡ (let s = run_target_steps sys tgt dotenv opts w in ended sys tgt.name s.error s)
  Follows skipped d = d ≡ record { error = none; world = w; events = cache_skip tgt.name ∷ [] }
  Follows saved d =
      (p : Prepared) × (prepare sys json tgt dotenv opts w ≡ ok p)
      × (d ≡ save_run sys json tgt opts p (run_target_steps sys tgt dotenv opts w))

  run_incremental-Follows :
      (p : Prepared)
      → prepare sys json tgt dotenv opts w ≡ ok p
      → Follows
          (skipped_if (up_to_date sys json opts.root_dir p w))
          (run_incremental sys json tgt dotenv opts w)
  run_incremental-Follows p e =
      let same = run_incremental-prepared p e ∙ run_prepared-choice p in
      elim (Bool-cases (up_to_date sys json opts.root_dir p w)) [
        | inl hit ↦ rw hit (rw hit at same)
        | inr miss ↦ rw miss (p, e, rw miss at same)
      ]

  why_cached-Follows :
      (r : Reasons) (paths : List Text)
      → resolve_globs sys opts.root_dir (expanded sys opts tgt.outputs) w ≡ ok paths
      → why_cached sys json tgt dotenv opts w ≡ ok r
      → Follows (decision r) (run_incremental sys json tgt dotenv opts w)
  unfolding why_cached
  why_cached-Follows r paths outputs e =
      let sig : Text × TextMap Text → Text =
        λ h. key sys tgt.name h.0 (step_signature sys tgt dotenv opts) in
      let load : Text × TextMap Text → Result (Option Manifest) =
        λ h. load_manifest sys json opts.root_dir (sig h) w in
      let judged : Text × TextMap Text → Result Reasons =
        λ h. load h >>= λ found. ok (judge sys json tgt opts w h found) in
      let (files, e₁, rest₁) =
        >>=-eq-ok (resolve_globs sys opts.root_dir (expanded sys opts tgt.inputs) w)
          (λ files. hash_files_map sys opts.root_dir files w >>= judged) e in
      let (h, e₂, rest₂) = >>=-eq-ok (hash_files_map sys opts.root_dir files w) judged rest₁ in
      let (found, e₃, rest₃) =
        >>=-eq-ok (load h) (λ found. ok (judge sys json tgt opts w h found)) rest₂ in
      let inputs : input_state sys tgt opts w ≡ ok h =
        ap (λ r. r >>= λ files. hash_files_map sys opts.root_dir files w) e₁ ∙ e₂ in
      subst (λ x. Follows x (run_incremental sys json tgt dotenv opts w))
        (sym (judge-decision h found) ∙ ap decision (ok-injective rest₃))
        (run_incremental-Follows (prepared h found) (
          prepare_again sys json tgt dotenv opts w h paths inputs outputs
          ∙ look_up-prepared h found e₃))

  why_reasons-cached :
      (is_empty tgt.inputs || is_empty tgt.outputs) ≡ false
      → why_reasons sys json tgt dotenv opts w ≡ why_cached sys json tgt dotenv opts w
  unfolding why_reasons
  why_reasons-cached e =
      ap (λ b. if b then ok always_runs else why_cached sys json tgt dotenv opts w) e

  why_reasons-always :
      (r : Reasons)
      → (is_empty tgt.inputs || is_empty tgt.outputs) ≡ true
      → why_reasons sys json tgt dotenv opts w ≡ ok r
      → Follows (decision r) (run_guarded sys json tgt dotenv opts (true, w))
  unfolding why_reasons run_guarded run_uncached
  why_reasons-always r always e =
      let because_empty : always_runs ≡ r = ok-injective (rw always at e) in
      rw always
        (subst (λ x. Follows (decision x) (run_uncached sys tgt dotenv opts w)) because_empty refl)

-- Where --why gives a reason and the patterns of the outputs can be resolved, the runner does what
-- the reason says, from the decision on to run the target or not: with the reason that it always
-- runs it runs the steps and saves nothing; with the reason that it is up to date it reports a
-- cache_skip and leaves the machine as it is; with every other reason it runs the steps and saves a
-- manifest if they succeed.
pub why_reasons-Agrees :
    (sys : System) (json : Codec) (tgt : Target) (dotenv : TextMap Text) (opts : RunOptions)
    (w : sys.World) (r : Reasons) (paths : List Text)
    → resolve_globs sys opts.root_dir (expanded sys opts tgt.outputs) w ≡ ok paths
    → why_reasons sys json tgt dotenv opts w ≡ ok r
    → Follows sys json tgt dotenv opts w
        (decision r)
        (run_guarded sys json tgt dotenv opts (true, w))
why_reasons-Agrees sys json tgt dotenv opts w r paths outputs e =
    elim (Bool-cases (is_empty tgt.inputs || is_empty tgt.outputs)) [
      | inl always ↦ why_reasons-always sys json tgt dotenv opts w r always e
      | inr cached ↦
          let same = sym (why_reasons-cached sys json tgt dotenv opts w cached) ∙ e in
          subst (Follows sys json tgt dotenv opts w (decision r))
            (sym (run_guarded-cached sys json tgt dotenv opts w cached))
            (why_cached-Follows sys json tgt dotenv opts w r paths outputs same)
    ]
