-- ===== src/Runner/Run/Trace.antt =====
-- The events of a run, and the names of the targets that have ended well.
use go_bake.Base.{
  if_both, not, ◌&&◌, ◌≡◌, refl, ℕ, suc, inl, inr, Option, none, some, List, [], ◌∷◌, ◌++◌, Text,
  TextMap, All,
}
use go_bake.Config.{File, Target, Step}
use go_bake.Runner.Dag.Grows.{DepsIn}
use go_bake.System.{System}
use go_bake.Resolve.Expand.{is_empty}
use go_bake.Runner.Steps.{
  RunEvent, run_start, target_start, when_skip, cache_skip, run_end, target_end, step_start,
  step_end, RunOptions, Planned, refused, empty, command, Done, after_command, host_step,
  host_steps, in_container, merged_env, env_template, preset_steps, run_steps, run_target_steps,
}

-- The names that have ended without an error, the last one first.
abbrev pub finish : List RunEvent → List Text → List Text
finish [] fin = fin
finish (run_start n ∷ es) fin = finish es fin
finish (target_start n ∷ es) fin = finish es fin
finish (when_skip n ∷ es) fin = finish es (n ∷ fin)
finish (cache_skip n ∷ es) fin = finish es (n ∷ fin)
finish (run_end e ∷ es) fin = finish es fin
finish (target_end n none ∷ es) fin = finish es (n ∷ fin)
finish (target_end n (some e) ∷ es) fin = finish es fin
finish (step_start n k ∷ es) fin = finish es fin
finish (step_end n k e ∷ es) fin = finish es fin

-- Where a target starts, its dependencies have ended without an error.
abbrev pub Ready : File → List Text → List RunEvent → Type 0
Ready cfg fin [] = Unit
Ready cfg fin (run_start n ∷ es) = Ready cfg fin es
Ready cfg fin (target_start n ∷ es) = DepsIn cfg fin n × Ready cfg fin es
Ready cfg fin (when_skip n ∷ es) = Ready cfg (n ∷ fin) es
Ready cfg fin (cache_skip n ∷ es) = Ready cfg (n ∷ fin) es
Ready cfg fin (run_end e ∷ es) = Ready cfg fin es
Ready cfg fin (target_end n none ∷ es) = Ready cfg (n ∷ fin) es
Ready cfg fin (target_end n (some e) ∷ es) = Ready cfg fin es
Ready cfg fin (step_start n k ∷ es) = Ready cfg fin es
Ready cfg fin (step_end n k e ∷ es) = Ready cfg fin es

pub finish-append :
    (es fs : List RunEvent) (fin : List Text) → finish (es ++ fs) fin ≡ finish fs (finish es fin)
finish-append [] fs fin = refl
finish-append (run_start n ∷ es) fs fin = finish-append es fs fin
finish-append (target_start n ∷ es) fs fin = finish-append es fs fin
finish-append (when_skip n ∷ es) fs fin = finish-append es fs (n ∷ fin)
finish-append (cache_skip n ∷ es) fs fin = finish-append es fs (n ∷ fin)
finish-append (run_end e ∷ es) fs fin = finish-append es fs fin
finish-append (target_end n none ∷ es) fs fin = finish-append es fs (n ∷ fin)
finish-append (target_end n (some e) ∷ es) fs fin = finish-append es fs fin
finish-append (step_start n k ∷ es) fs fin = finish-append es fs fin
finish-append (step_end n k e ∷ es) fs fin = finish-append es fs fin

pub Ready-append :
    (cfg : File) (es fs : List RunEvent) (fin : List Text)
    → Ready cfg fin es
    → Ready cfg (finish es fin) fs
    → Ready cfg fin (es ++ fs)
Ready-append cfg [] fs fin r s = s
Ready-append cfg (run_start n ∷ es) fs fin r s = Ready-append cfg es fs fin r s
Ready-append cfg (target_start n ∷ es) fs fin r s = (r.0, Ready-append cfg es fs fin r.1 s)
Ready-append cfg (when_skip n ∷ es) fs fin r s = Ready-append cfg es fs (n ∷ fin) r s
Ready-append cfg (cache_skip n ∷ es) fs fin r s = Ready-append cfg es fs (n ∷ fin) r s
Ready-append cfg (run_end e ∷ es) fs fin r s = Ready-append cfg es fs fin r s
Ready-append cfg (target_end n none ∷ es) fs fin r s = Ready-append cfg es fs (n ∷ fin) r s
Ready-append cfg (target_end n (some e) ∷ es) fs fin r s = Ready-append cfg es fs fin r s
Ready-append cfg (step_start n k ∷ es) fs fin r s = Ready-append cfg es fs fin r s
Ready-append cfg (step_end n k e ∷ es) fs fin r s = Ready-append cfg es fs fin r s

-- The events of steps neither start nor end a target.
abbrev pub IsStepEvent : RunEvent → Type 0
IsStepEvent (run_start n) = ⊥
IsStepEvent (target_start n) = ⊥
IsStepEvent (when_skip n) = ⊥
IsStepEvent (cache_skip n) = ⊥
IsStepEvent (run_end e) = ⊥
IsStepEvent (target_end n e) = ⊥
IsStepEvent (step_start n k) = Unit
IsStepEvent (step_end n k e) = Unit

pub finish_steps : (es : List RunEvent) (fin : List Text) → All IsStepEvent es → finish es fin ≡ fin
finish_steps [] fin h = refl
finish_steps (run_start n ∷ es) fin h = absurd h.0
finish_steps (target_start n ∷ es) fin h = absurd h.0
finish_steps (when_skip n ∷ es) fin h = absurd h.0
finish_steps (cache_skip n ∷ es) fin h = absurd h.0
finish_steps (run_end e ∷ es) fin h = absurd h.0
finish_steps (target_end n e ∷ es) fin h = absurd h.0
finish_steps (step_start n k ∷ es) fin h = finish_steps es fin h.1
finish_steps (step_end n k e ∷ es) fin h = finish_steps es fin h.1

pub Ready-steps :
    (cfg : File) (es : List RunEvent) (fin : List Text) → All IsStepEvent es → Ready cfg fin es
Ready-steps cfg [] fin h = tt
Ready-steps cfg (run_start n ∷ es) fin h = absurd h.0
Ready-steps cfg (target_start n ∷ es) fin h = absurd h.0
Ready-steps cfg (when_skip n ∷ es) fin h = absurd h.0
Ready-steps cfg (cache_skip n ∷ es) fin h = absurd h.0
Ready-steps cfg (run_end e ∷ es) fin h = absurd h.0
Ready-steps cfg (target_end n e ∷ es) fin h = absurd h.0
Ready-steps cfg (step_start n k ∷ es) fin h = Ready-steps cfg es fin h.1
Ready-steps cfg (step_end n k e ∷ es) fin h = Ready-steps cfg es fin h.1

module _ (sys : System) where
  abbrev pub HasStepEvents : Done sys → Type 0
  HasStepEvents d = All IsStepEvent d.events

  after_command-HasStepEvents :
      (name : Text) (c : _) (next : sys.World → Done sys) (r : Option Text × sys.World)
      → ((w : sys.World) → HasStepEvents (next w))
      → HasStepEvents (after_command sys name c next r)
  unfolding after_command
  after_command-HasStepEvents name c next (some m, w) h = (tt, (tt, tt))
  after_command-HasStepEvents name c next (none, w) h = (tt, (tt, h w))

  host_step-HasStepEvents :
      (name : Text) (p : Planned) (next : sys.World → Done sys) (w : sys.World)
      → ((w' : sys.World) → HasStepEvents (next w'))
      → HasStepEvents (host_step sys name p next w)
  unfolding host_step
  host_step-HasStepEvents name (refused e) next w h = tt
  host_step-HasStepEvents name empty next w h = h w
  host_step-HasStepEvents name (command c) next w h = after_command-HasStepEvents name c next _ h

  module _ (tgt : Target) (opts : RunOptions) (env : TextMap Text) where
    host_steps-HasStepEvents :
        (last n : ℕ) (steps : List Step) (w : sys.World)
        → HasStepEvents (host_steps sys tgt opts env last n steps w)
    unfolding host_steps
    host_steps-HasStepEvents last n [] w = tt
    host_steps-HasStepEvents last n (s ∷ steps) w =
        host_step-HasStepEvents tgt.name _ _ w
          (λ w'. host_steps-HasStepEvents last (suc n) steps w')

    in_container-HasStepEvents :
        (o : _) (w : sys.World) → HasStepEvents (in_container sys tgt opts o w)
    unfolding in_container
    in_container-HasStepEvents (inl e) w = tt
    in_container-HasStepEvents (inr steps) w = tt

    run_steps-HasStepEvents : (w : sys.World) → HasStepEvents (run_steps sys tgt opts env w)
    unfolding run_steps
    run_steps-HasStepEvents w =
        if_both HasStepEvents (not (is_empty tgt.image) && not tgt.unsafe)
          (if_both HasStepEvents opts.has_registry (in_container-HasStepEvents _ w) tt)
          (host_steps-HasStepEvents _ 1 (preset_steps tgt opts.preset) w)

  pub run_target_steps-HasStepEvents :
      (tgt : Target) (dotenv : TextMap Text) (opts : RunOptions) (w : sys.World)
      → HasStepEvents (run_target_steps sys tgt dotenv opts w)
  unfolding run_target_steps
  run_target_steps-HasStepEvents tgt dotenv opts w =
      elim (merged_env sys tgt dotenv opts)
        as (λ o. HasStepEvents (elim o [
          | none ↦ record { error = some env_template; world = w; events = [] }
          | some env ↦ run_steps sys tgt opts env w
        ])) [ none ↦ tt | some env ↦ run_steps-HasStepEvents tgt opts env w ]
