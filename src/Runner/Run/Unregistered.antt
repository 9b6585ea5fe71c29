-- ===== src/Runner/Run/Unregistered.antt =====
-- A dependency that is to run in a container, in Run of internal/runner/runner.go with one target
-- at a time.
use mathlib.Core.Path.{subst}
use go_bake.Base.{
  ◌≡◌, refl, ap, ◌∙◌, Bool, true, false, ◌||◌, none, some, List, [], ◌∷◌, Text, TextMap, ◌==◌,
  if◌then◌else◌,
}
use go_bake.Config.{File, Target, target_by_name}
use go_bake.Env.{Dotenv}
use go_bake.System.{System}
use go_bake.Resolve.Expand.{is_empty}
use go_bake.Cache.{Codec}
use go_bake.Runner.Dag.{Outcome, topo_order}
use go_bake.Runner.Steps.{
  RunError, unknown_target, dep_failed, docker_required, run_start, target_start, target_end,
  RunOptions, Done, log, merged_env, run_steps, run_target_steps,
}
use go_bake.Runner.Cached.{run_incremental, run_guarded, run_uncached, run_target_with_cache, ended}
use go_bake.Runner.Cached.Skips.{when_holds-none}
use go_bake.Runner.Run.{
  after_dep, dep_options, run_order, run_ordered, run_found, stopped, run, load_env,
}
use go_bake.Runner.Run.Ordered.{run_order-dep}
use go_bake.Runner.Run.Runs.{found_name}

-- A target that runs in a container, always, and is not cached.
pub record IsContained (dep : Target) : Type 0 where
  pub image : is_empty dep.image ≡ false
  pub safe : dep.unsafe ≡ false
  pub when_cmd : dep.when_cmd ≡ []
  pub when_env : dep.when_env ≡ []
  pub inputs : dep.inputs ≡ []

module _ (sys : System) (json : Codec) (dep : Target) (dotenv : TextMap Text) (opts : RunOptions)
    (c : IsContained dep) where
  run_steps-refused :
      (env : TextMap Text) (w : sys.World)
      → run_steps sys dep (dep_options opts dep) env w
        ≡ record { error = some (docker_required dep.name dep.image); world = w; events = [] }
  unfolding run_steps
  run_steps-refused env w = rw c.image (rw c.safe refl)

  run_target_steps-refused :
      (w : sys.World)
      → run_target_steps sys dep dotenv (dep_options opts dep) w
        ≡ record { error = some (docker_required dep.name dep.image); world = w; events = [] }
  unfolding run_target_steps merged_env
  run_target_steps-refused w = run_steps-refused _ w

  abbrev refusal : RunError
  refusal = docker_required dep.name dep.image

  run_uncached-refused :
      (w : sys.World)
      → run_uncached sys dep dotenv (dep_options opts dep) w
        ≡ ended sys dep.name (some refusal) (record { error = none; world = w; events = [] })
  unfolding run_uncached
  run_uncached-refused w = ap (λ d. ended sys dep.name d.error d) (run_target_steps-refused w)

  run_guarded-uncached :
      (w : sys.World)
      → (is_empty dep.inputs || is_empty dep.outputs) ≡ true
      → run_guarded sys json dep dotenv (dep_options opts dep) (true, w)
        ≡ run_uncached sys dep dotenv (dep_options opts dep) w
  unfolding run_guarded
  run_guarded-uncached w e =
      ap
        (λ b.
          if b
          then run_uncached sys dep dotenv (dep_options opts dep) w
          else run_incremental sys json dep dotenv (dep_options opts dep) w)
        e

  no_inputs : (is_empty dep.inputs || is_empty dep.outputs) ≡ true
  no_inputs = rw c.inputs refl

  refused : sys.World → Done sys
  refused w = record {
    error = some refusal;
    world = w;
    events = target_start dep.name ∷ target_end dep.name (some refusal) ∷ [];
  }

  run_target_with_cache-refused :
      (w : sys.World)
      → run_target_with_cache sys json dep dotenv (dep_options opts dep) w ≡ refused w
  unfolding run_target_with_cache refused
  run_target_with_cache-refused w =
      ap
        (λ r.
          log sys (target_start dep.name ∷ [])
            (run_guarded sys json dep dotenv (dep_options opts dep) r))
        (when_holds-none sys json dep dotenv (dep_options opts dep) w c.when_cmd c.when_env)
      ∙ ap (log sys (target_start dep.name ∷ []))
          (run_guarded-uncached w no_inputs ∙ run_uncached-refused w)

module _ (sys : System) (json : Codec) (cfg : File) (name : Text) (tgt : Target)
    (found : target_by_name cfg name ≡ some tgt) where
  run_order-refused :
      (n : Text) (order : List Text) (dep : Target) (dotenv : TextMap Text) (opts : RunOptions)
      (w : sys.World)
      → IsContained dep
      → (n == name) ≡ false
      → target_by_name cfg n ≡ some dep
      → (run_order sys json cfg tgt name dotenv opts (n ∷ order) w).error
        ≡ some (dep_failed n (docker_required dep.name dep.image))
  unfolding after_dep refused
  run_order-refused n order dep dotenv opts w c other known =
      let here : tgt.name ≡ name = found_name cfg name tgt found in
      subst
        (λ x.
          (n == x) ≡ false
          → (run_order sys json cfg tgt x dotenv opts (n ∷ order) w).error
            ≡ some (dep_failed n (docker_required dep.name dep.image)))
        here
        (λ o.
          ap (λ d. d.error) (run_order-dep sys cfg json tgt dotenv opts n order w dep o known)
          ∙ ap
              (λ d.
                (after_dep sys n d (run_order sys json cfg tgt tgt.name dotenv opts order)).error)
              (run_target_with_cache-refused sys json dep dotenv opts c w))
        other

  run_found-order :
      (docker : Bool) (opts : RunOptions) (dotenv : TextMap Text) (order : List Text)
      (w : sys.World)
      → topo_order cfg name ≡ Outcome.ok order
      → run_found sys json docker cfg tgt name opts (Dotenv.loaded dotenv) w
        ≡ run_order sys json cfg tgt name dotenv
            (record opts { has_registry = opts.has_registry || docker })
            order
            w
  unfolding run_found run_ordered
  run_found-order docker opts dotenv order w e =
      ap
        (λ o.
          run_ordered sys json cfg tgt name dotenv
            (record opts { has_registry = opts.has_registry || docker }) o w)
        e

  run-found :
      (docker : Bool) (opts : RunOptions) (dotenv : TextMap Text) (w : sys.World)
      → load_env sys opts.root_dir cfg.dotenv w ≡ Dotenv.loaded dotenv
      → run sys json docker cfg name opts w
        ≡ log sys
            (run_start name ∷ [])
            (run_found sys json docker cfg tgt name opts (Dotenv.loaded dotenv) w)
  unfolding run target_by_name
  run-found docker opts dotenv w e =
      ap
        (λ o. log sys (run_start name ∷ []) (elim o as (λ _. Done sys) [
          | none ↦ stopped sys (unknown_target name) w
          | some t ↦
              run_found sys json docker cfg t name opts (load_env sys opts.root_dir cfg.dotenv w) w
        ]))
        found
      ∙ ap (λ d. log sys (run_start name ∷ []) (run_found sys json docker cfg tgt name opts d w)) e

-- A Run of one target at a time with a dependency that is to run in a container fails at it for
-- want of Docker, also where the registry is there: the dependency is not given the registry. The
-- dependency comes first in the order, has no `when` and no inputs, and the .env files are read.
pub run-Unregistered :
    (sys : System) (json : Codec) (docker : Bool) (cfg : File) (name n : Text) (order : List Text)
    (tgt dep : Target) (dotenv : TextMap Text) (opts : RunOptions) (w : sys.World)
    → target_by_name cfg name ≡ some tgt
    → target_by_name cfg n ≡ some dep
    → topo_order cfg name ≡ Outcome.ok (n ∷ order)
    → (n == name) ≡ false
    → IsContained dep
    → load_env sys opts.root_dir cfg.dotenv w ≡ Dotenv.loaded dotenv
    → (run sys json docker cfg name opts w).error
      ≡ some (dep_failed n (docker_required dep.name dep.image))
run-Unregistered sys json docker cfg name n order tgt dep dotenv opts w found known e other c
      loaded =
    ap (λ d. d.error)
      (run-found sys json cfg name tgt found docker opts dotenv w loaded
        ∙ ap (log sys (run_start name ∷ []))
            (run_found-order sys json cfg name tgt found docker opts dotenv (n ∷ order) w e))
    ∙ run_order-refused sys json cfg name tgt found n order dep dotenv
        (record opts { has_registry = opts.has_registry || docker }) w c other known
