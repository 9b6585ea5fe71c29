-- ===== src/Runner/Run/Ordered.antt =====
-- A run starts a target when its dependencies have ended, and a run without an error has run the
-- target itself.
use mathlib.Core.Path.{subst}
use go_bake.Base.{
  ◌≢◌, ◌≡◌, ◌⊎◌, ◌∙◌, refl, sym, ap, ℕ, Bool, true, false, ◌||◌, Bool-cases, Option-cases, inl, inr,
  none, some, List, [], ◌∷◌, Text, TextMap, Has, contains-cons, contains-nil, ==_refl, ==_iff, ◌==◌,
  arith,
}
use go_bake.Config.{File, Target, target_by_name}
use go_bake.Config.Validate.{validate}
use go_bake.Config.Validate.Complete.{IsWellFormed, validate-nil_iff}
use go_bake.Env.{Dotenv}
use go_bake.System.{System}
use go_bake.Cache.{Codec}
use go_bake.Runner.Dag.{Outcome, topo_order}
use go_bake.Runner.Dag.Reach.{Settled, topo_order-Settled}
use go_bake.Runner.Dag.Validated.{found_IsKnown, Reaches-IsKnown, known_target}
use go_bake.Runner.Dag.Grows.{DepsIn}
use go_bake.Runner.Dag.Order.{IsRanked, DepsFirst, topo_order-DepsFirst}
use go_bake.Runner.Steps.{RunError, RunOptions, Done}
use go_bake.Runner.Cached.{run_target_with_cache}
use go_bake.Runner.Run.{
  after_dep, finish_run, run_order, run_ordered, run_found, run, dep_options, stopped, load_env,
}
use go_bake.Runner.Run.Trace.{finish, Ready}
use go_bake.Runner.Run.Runs.{
  finish-keeps, DepsIn-wide, found_name, Has-wider, Runs, finish_run-Runs,
  run_target_with_cache-Runs, after_dep-Runs,
}

module _ (sys : System) (cfg : File) where
  module _ (json : Codec) (tgt : Target) (dotenv : TextMap Text) (opts : RunOptions) where
    run_order-last :
        (n : Text) (order : List Text) (w : sys.World)
        → (n == tgt.name) ≡ true
        → run_order sys json cfg tgt tgt.name dotenv opts (n ∷ order) w
          ≡ finish_run sys (run_target_with_cache sys json tgt dotenv opts w)
    unfolding run_order
    run_order-last n order w e = rw e refl

    pub run_order-dep :
        (n : Text) (order : List Text) (w : sys.World) (dep : Target)
        → (n == tgt.name) ≡ false
        → target_by_name cfg n ≡ some dep
        → run_order sys json cfg tgt tgt.name dotenv opts (n ∷ order) w
          ≡ after_dep sys n
              (run_target_with_cache sys json dep dotenv (dep_options opts dep) w)
              (run_order sys json cfg tgt tgt.name dotenv opts order)
    unfolding run_order target_by_name
    run_order-dep n order w dep e f = rw e (
        ap
          (λ o. elim o as (λ _. Done sys) [
            | none ↦ run_order sys json cfg tgt tgt.name dotenv opts order w
            | some dep' ↦
                after_dep sys n
                  (run_target_with_cache sys json dep' dotenv (dep_options opts dep') w)
                  (λ w'. run_order sys json cfg tgt tgt.name dotenv opts order w')
          ])
          f)

    -- The step to the rest of the order behind a dependency.
    run_order_dep-Runs :
        (n : Text) (order fin : List Text) (w : sys.World) (dep : Target)
        → (n == tgt.name) ≡ false
        → target_by_name cfg n ≡ some dep
        → DepsIn cfg fin n
        → ((fin' : List Text) (w' : sys.World)
            → ((x : Text) → Has (n ∷ fin) x → Has fin' x)
            → Runs sys cfg tgt.name fin' (run_order sys json cfg tgt tgt.name dotenv opts order w'))
        → Runs sys cfg tgt.name fin (run_order sys json cfg tgt tgt.name dotenv opts (n ∷ order) w)
    run_order_dep-Runs n order fin w dep other found deps more =
        let d : Done sys = run_target_with_cache sys json dep dotenv (dep_options opts dep) w in
        let here : dep.name ≡ n = found_name cfg n dep found in
        let r : Runs sys cfg n fin d =
          subst (λ x. Runs sys cfg x fin d) here
            (run_target_with_cache-Runs sys cfg json dep dotenv (dep_options opts dep) fin w
              (subst (DepsIn cfg fin) (sym here) deps)) in
        rw (run_order-dep n order w dep other found) (
          after_dep-Runs sys cfg tgt.name n fin d
            (run_order sys json cfg tgt tgt.name dotenv opts order) r
            (λ e w'. more (finish d.events fin) w' (λ x h. elim (Bool-cases (n == x)) [
              | inl same ↦ subst (Has (finish d.events fin)) ((==_iff n x).0 same) (r.ends e)
              | inr new ↦ finish-keeps d.events fin x (ground (arith, contains-cons n fin x))
            ])))

    run_order-Runs :
        (before order fin : List Text) (w : sys.World)
        → DepsFirst cfg before order
        → ((x : Text) → Has before x → Has fin x)
        → ((x : Text) → Has order x → (t : Target) × (target_by_name cfg x ≡ some t))
        → Has order tgt.name
        → Runs sys cfg tgt.name fin (run_order sys json cfg tgt tgt.name dotenv opts order w)
    run_order-Runs before [] fin w first old known here =
        absurd (ground (arith, contains-nil tgt.name))
    run_order-Runs before (n ∷ order) fin w first old known here =
        let deps : DepsIn cfg fin n = DepsIn-wide cfg before fin n old first.0 in
        elim (Bool-cases (n == tgt.name)) [
          | inl same ↦ rw (run_order-last n order w same) (
              finish_run-Runs sys cfg tgt.name fin _ (
                run_target_with_cache-Runs sys cfg json tgt dotenv opts fin w
                  (subst (DepsIn cfg fin) ((==_iff n tgt.name).0 same) deps)))
          | inr other ↦
              let (dep, found) = known n (ground (arith, contains-cons n order n, ==_refl n)) in
              run_order_dep-Runs n order fin w dep other found deps (λ fin' w' wide.
                run_order-Runs (n ∷ before) order fin' w' first.1
                  (λ x h. wide x (Has-wider n before fin x old h))
                  (λ x m. known x (ground (arith, contains-cons n order x)))
                  (ground (arith, contains-cons n order tgt.name)))
        ]

  -- The result of a run that has not started a target and reports an error.
  stopped-Runs :
      (name : Text) (e : RunError) (w : sys.World) → Runs sys cfg name [] (stopped sys e w)
  stopped-Runs name e w = record { ready = tt; ends = λ h. cc }

  module _ (rank : Text → ℕ) (wf : IsWellFormed cfg) (ranked : IsRanked cfg rank)
      (json : Codec) where
    known_in :
        (name : Text) (tgt : Target) (order : List Text)
        → target_by_name cfg name ≡ some tgt
        → topo_order cfg name ≡ Outcome.ok order
        → (x : Text) → Has order x
        → (t : Target) × (target_by_name cfg x ≡ some t)
    known_in name tgt order found e x h =
        let s : Settled cfg name order = topo_order-Settled cfg name order e in
        elim (Option-cases (target_by_name cfg x)) [
          | inr unknown ↦ absurd (
              known_target cfg wf x
                (Reaches-IsKnown cfg wf name x (found_IsKnown cfg name tgt found) (s.reached x h))
                unknown)
          | inl known ↦ known
        ]

    run_ordered-Runs :
        (tgt : Target) (name : Text) (dotenv : TextMap Text) (opts : RunOptions)
        (o : Outcome (List Text)) (w : sys.World)
        → target_by_name cfg name ≡ some tgt
        → topo_order cfg name ≡ o
        → Runs sys cfg name [] (run_ordered sys json cfg tgt name dotenv opts o w)
    unfolding run_ordered
    run_ordered-Runs tgt name dotenv opts (Outcome.ok order) w found e =
        let s : Settled cfg name order = topo_order-Settled cfg name order e in
        let here : tgt.name ≡ name = found_name cfg name tgt found in
        subst (λ n. Runs sys cfg n [] (run_order sys json cfg tgt n dotenv opts order w)) here
          (run_order-Runs json tgt dotenv opts [] order [] w
            (topo_order-DepsFirst cfg rank name order ranked e) (λ x h. h)
            (known_in name tgt order found e) (subst (Has order) (sym here) s.target))
    run_ordered-Runs tgt name dotenv opts (Outcome.unknown_dependency d) w found e =
        stopped-Runs name _ w
    run_ordered-Runs tgt name dotenv opts Outcome.out_of_fuel w found e = stopped-Runs name _ w

    run_found-Runs :
        (docker : Bool) (tgt : Target) (name : Text) (opts : RunOptions) (env : Dotenv)
        (w : sys.World)
        → target_by_name cfg name ≡ some tgt
        → Runs sys cfg name [] (run_found sys json docker cfg tgt name opts env w)
    unfolding run_found
    run_found-Runs docker tgt name opts (Dotenv.load_failed path) w found = stopped-Runs name _ w
    run_found-Runs docker tgt name opts (Dotenv.loaded dotenv) w found =
        run_ordered-Runs tgt name dotenv
          (record opts { has_registry = opts.has_registry || docker }) (topo_order cfg name) w found
          refl

    run-Runs :
        (docker : Bool) (name : Text) (opts : RunOptions) (w : sys.World)
        → Runs sys cfg name [] (run sys json docker cfg name opts w)
    unfolding run
    run-Runs docker name opts w = elim (Option-cases (target_by_name cfg name)) [
      | inr unknown ↦ rw unknown (record { ready = tt; ends = λ h. cc })
      | inl (tgt, found) ↦
          let r : Runs sys cfg name [] (
              run_found sys json docker cfg tgt name opts (load_env sys opts.root_dir cfg.dotenv w)
                w) =
            run_found-Runs docker tgt name opts (load_env sys opts.root_dir cfg.dotenv w) w found in
          rw found (record { ready = r.ready; ends = r.ends })
    ]

-- On a Bakefile that Validate accepts and whose dependencies have no cycle, Run starts a target
-- only when each of its dependencies has ended without an error or has been skipped, whatever
-- fails on the way; and a Run reports an error, or it has ended the target that was asked for
-- without an error or has skipped it.
pub run-Ready :
    (sys : System) (json : Codec) (docker : Bool) (cfg : File) (rank : Text → ℕ) (name : Text)
    (opts : RunOptions) (w : sys.World)
    → validate cfg ≡ []
    → IsRanked cfg rank
    → Ready cfg [] (run sys json docker cfg name opts w).events
      × (((run sys json docker cfg name opts w).error ≢ none)
          ⊎ Has (finish (run sys json docker cfg name opts w).events []) name)
run-Ready sys json docker cfg rank name opts w v ranked =
    let r : Runs sys cfg name [] (run sys json docker cfg name opts w) =
      run-Runs sys cfg rank ((validate-nil_iff cfg).0 v) ranked json docker name opts w in
    (
      r.ready,
      elim (Option-cases (run sys json docker cfg name opts w).error) [
        | inl (e, failed) ↦ inl (λ h. some_none (sym failed ∙ h))
        | inr fine ↦ inr (r.ends fine)
      ],
    )
  where
    some_none : {e : RunError} → some e ≢ none
    some_none h = cc
