-- ===== src/Runner/Run/Runs.antt =====
-- What a part of a run starts, and what it has run when it ends without an error.
use go_bake.Base.{
  Result, ok, err, if_both, ◌≡◌, refl, sym, Bool, true, false, ◌||◌, Option, none, some, List, [],
  ◌∷◌, ◌++◌, Text, TextMap, All, Has, contains-cons, ==_refl, arith, All-map,
}
use go_bake.Config.{File, Target, target_by_name, find_target-name}
use go_bake.System.{System}
use go_bake.Resolve.Expand.{is_empty}
use go_bake.Cache.{Codec}
use go_bake.Runner.Dag.Grows.{DepsIn}
use go_bake.Runner.Steps.{
  RunError, cache_failed, RunEvent, run_start, target_start, when_skip, cache_skip, run_end,
  target_end, step_start, step_end, RunOptions, Done,
}
use go_bake.Runner.Cached.{
  Prepared, run_prepared, when_holds, run_guarded, run_uncached, run_incremental, prepare,
  up_to_date, save_run, run_target_with_cache,
}
use go_bake.Runner.Run.{after_dep, finish_run}
use go_bake.Runner.Run.Trace.{
  finish, Ready, finish-append, Ready-append, IsStepEvent, Ready-steps,
  run_target_steps-HasStepEvents,
}

pub finish-keeps :
    (es : List RunEvent) (fin : List Text) (x : Text) → Has fin x → Has (finish es fin) x
finish-keeps [] fin x h = h
finish-keeps (run_start n ∷ es) fin x h = finish-keeps es fin x h
finish-keeps (target_start n ∷ es) fin x h = finish-keeps es fin x h
finish-keeps (when_skip n ∷ es) fin x h =
    finish-keeps es (n ∷ fin) x (ground (arith, contains-cons n fin x))
finish-keeps (cache_skip n ∷ es) fin x h =
    finish-keeps es (n ∷ fin) x (ground (arith, contains-cons n fin x))
finish-keeps (run_end e ∷ es) fin x h = finish-keeps es fin x h
finish-keeps (target_end n none ∷ es) fin x h =
    finish-keeps es (n ∷ fin) x (ground (arith, contains-cons n fin x))
finish-keeps (target_end n (some e) ∷ es) fin x h = finish-keeps es fin x h
finish-keeps (step_start n k ∷ es) fin x h = finish-keeps es fin x h
finish-keeps (step_end n k e ∷ es) fin x h = finish-keeps es fin x h

pub found_name : (cfg : File) (n : Text) (t : Target) → target_by_name cfg n ≡ some t → t.name ≡ n
unfolding target_by_name
found_name cfg n t e = find_target-name cfg.targets n t e

pub Has-wider :
    (n : Text) (before fin : List Text) (x : Text)
    → ((y : Text) → Has before y → Has fin y)
    → Has (n ∷ before) x
    → Has (n ∷ fin) x
Has-wider n before fin x old h =
    ground (arith, contains-cons n before x, contains-cons n fin x, old x)

pub DepsIn-wide :
    (cfg : File) (before fin : List Text) (n : Text)
    → ((x : Text) → Has before x → Has fin x)
    → DepsIn cfg before n
    → DepsIn cfg fin n
DepsIn-wide cfg before fin n old h t e = All-map (Has before) (Has fin) t.deps old (h t e)

module _ (sys : System) (cfg : File) where
  -- What a part of a run does that starts no target but runs the one with a name.
  pub record Runs (name : Text) (fin : List Text) (d : Done sys) : Type 0 where
    pub ready : Ready cfg fin d.events
    pub ends : d.error ≡ none → Has (finish d.events fin) name

  closing :
      (name : Text) (fin : List Text) (es : List RunEvent) (e : Option RunError) (w : sys.World)
      → All IsStepEvent es
      → Runs name fin (record { error = e; world = w; events = es ++ target_end name e ∷ [] })
  closing name fin es none w h = record {
    ready = Ready-append cfg es (target_end name none ∷ []) fin (Ready-steps cfg es fin h) tt;
    ends = λ _.
        rw (finish-append es (target_end name none ∷ []) fin)
          (ground (arith, contains-cons name (finish es fin) name, ==_refl name));
  }
  closing name fin es (some e) w h = record {
    ready = Ready-append cfg es (target_end name (some e) ∷ []) fin (Ready-steps cfg es fin h) tt;
    ends = λ n. cc;
  }

  skipped : (name : Text) (fin : List Text) → Has (name ∷ fin) name
  skipped name fin = ground (arith, contains-cons name fin name, ==_refl name)

  module _ (json : Codec) (tgt : Target) (dotenv : TextMap Text) (opts : RunOptions)
      (fin : List Text) where
    save_run-Runs :
        (p : _) (d : Done sys)
        → All IsStepEvent d.events
        → Runs tgt.name fin (save_run sys json tgt opts p d)
    unfolding save_run
    save_run-Runs p d h =
        elim d.error
          as (λ e. Runs tgt.name fin (save_run sys json tgt opts p (record d { error = e }))) [
            | none ↦
                let c = closing tgt.name fin d.events none d.world h in
                record { ready = c.ready; ends = λ _. c.ends refl }
            | some e ↦ closing tgt.name fin d.events (some e) d.world h
          ]

    run_prepared-Runs :
        (w : sys.World) (r : Result Prepared)
        → Runs tgt.name fin (run_prepared sys json tgt dotenv opts w r)
    unfolding run_prepared
    run_prepared-Runs w (err message) = closing tgt.name fin [] (some (cache_failed message)) w tt
    run_prepared-Runs w (ok p) =
        if_both (Runs tgt.name fin) (up_to_date sys json opts.root_dir p w)
          (record { ready = tt; ends = λ _. skipped tgt.name fin })
          (save_run-Runs p _ (run_target_steps-HasStepEvents sys tgt dotenv opts w))

    run_guarded-Runs :
        (b : Bool × sys.World) → Runs tgt.name fin (run_guarded sys json tgt dotenv opts b)
    unfolding run_guarded run_uncached run_incremental
    run_guarded-Runs (false, w) = record { ready = tt; ends = λ _. skipped tgt.name fin }
    run_guarded-Runs (true, w) =
        if_both (Runs tgt.name fin) (is_empty tgt.inputs || is_empty tgt.outputs)
          (closing tgt.name fin _ _ _ (run_target_steps-HasStepEvents sys tgt dotenv opts w))
          (run_prepared-Runs w (prepare sys json tgt dotenv opts w))

    pub run_target_with_cache-Runs :
        (w : sys.World)
        → DepsIn cfg fin tgt.name
        → Runs tgt.name fin (run_target_with_cache sys json tgt dotenv opts w)
    unfolding run_target_with_cache
    run_target_with_cache-Runs w deps =
        let r : Runs tgt.name fin
            (run_guarded sys json tgt dotenv opts (when_holds sys tgt dotenv opts w)) =
          run_guarded-Runs (when_holds sys tgt dotenv opts w) in
        record { ready = (deps, r.ready); ends = r.ends }

  pub finish_run-Runs :
      (name : Text) (fin : List Text) (d : Done sys)
      → Runs name fin d
      → Runs name fin (finish_run sys d)
  finish_run-Runs name fin d r = record {
    ready = Ready-append cfg d.events (run_end d.error ∷ []) fin r.ready tt;
    ends = λ e. rw (finish-append d.events (run_end d.error ∷ []) fin) (r.ends e);
  }

  -- A dependency, and what is run behind it if it ends without an error.
  pub after_dep-Runs :
      (name dep : Text) (fin : List Text) (d : Done sys) (next : sys.World → Done sys)
      → Runs dep fin d
      → (d.error ≡ none → (w : sys.World) → Runs name (finish d.events fin) (next w))
      → Runs name fin (after_dep sys dep d next)
  unfolding after_dep
  after_dep-Runs name dep fin d next r more =
      elim d.error
          as (λ e.
            (e ≡ d.error) → Runs name fin (after_dep sys dep (record d { error = e }) next)) [
              | none ↦ λ e.
                  let m : Runs name (finish d.events fin) (next d.world) = more (sym e) d.world in
                  record {
                    ready = Ready-append cfg d.events (next d.world).events fin r.ready m.ready;
                    ends = λ h. rw (finish-append d.events (next d.world).events fin) (m.ends h);
                  }
              | some e ↦ λ _. record {
                ready = Ready-append cfg d.events (run_end (some e) ∷ []) fin r.ready tt;
                ends = λ h. cc;
              }
            ]
        refl
