-- ===== src/Runner/Cached/Signature.antt =====
-- What the cache does not look at: stepSignature of internal/runner/runner.go hashes the arguments
-- and the variables of the steps.
use go_bake.Base.{
  ◌≡◌, refl, ap, ℕ, suc, Option, none, some, List, [], ◌∷◌, map, Text, TextMap, collect,
}
use go_bake.Config.{Target, Preset, Step}
use go_bake.Resolve.Args.{StepMap}
use go_bake.Resolve.Expand.{Data, expand_argv_if}
use go_bake.System.{System}
use go_bake.Runner.Steps.{RunOptions, preset_steps}
use go_bake.Runner.Cached.{or_nil, steps_bytes, sign, step_signature}

-- The arguments of a step as the signature sees them, one after the other.
abbrev pub argv_bytes : System → Data → Step → Text
argv_bytes sys d s = collect (λ a. a) (or_nil (expand_argv_if sys.expand d s.argv))

-- The steps have the same environment, and arguments that are the same when written without a gap.
abbrev pub SameBytes : System → Data → (Step → Step) → Type 0
SameBytes sys d change =
    (s : Step) → (argv_bytes sys d (change s) ≡ argv_bytes sys d s) × ((change s).env ≡ s.env)

module _ (sys : System) (d : Data) (change : Step → Step) (same : SameBytes sys d change) where
  steps_bytes-map :
      (n : ℕ) (steps : List Step)
      → steps_bytes sys d n (map change steps) ≡ steps_bytes sys d n steps
  unfolding steps_bytes
  steps_bytes-map n [] = refl
  steps_bytes-map n (s ∷ steps) =
      rw (same s).0 (rw (same s).1 (rw (steps_bytes-map (suc n) steps) refl))

  steps_bytes-preset :
      (tgt : Target) (p : Option Preset)
      → steps_bytes sys d 0 (preset_steps (record tgt { steps = map change tgt.steps }) p)
        ≡ steps_bytes sys d 0 (preset_steps tgt p)
  steps_bytes-preset tgt none = steps_bytes-map 0 tgt.steps
  steps_bytes-preset tgt (some p) = go p.steps
    where
      go :
          (steps : List Step)
          → steps_bytes sys d 0 (
              preset_steps
                (record tgt { steps = map change tgt.steps })
                (some (record p { steps = steps })))
            ≡ steps_bytes sys d 0 (preset_steps tgt (some (record p { steps = steps })))
      go [] = steps_bytes-map 0 tgt.steps
      go (s ∷ ss) = refl

-- The signature of a target does not change with its image, its directory, the arguments passed
-- through to its steps, and a change of the steps that keeps their variables and the text that
-- their arguments make without gaps: their runners, their directories, and where one argument ends
-- and the next begins.
pub step_signature_unseen :
    (sys : System) (tgt : Target) (dotenv : TextMap Text) (opts : RunOptions) (change : Step → Step)
    (image cwd : Text) (extra : StepMap)
    → SameBytes sys opts.data_args change
    → step_signature sys
        (record tgt { steps = map change tgt.steps; image = image; cwd = cwd })
        dotenv
        (record opts { passthrough_by_step = extra })
      ≡ step_signature sys tgt dotenv opts
unfolding step_signature sign
step_signature_unseen sys tgt dotenv opts change image cwd extra same =
    ap (sign sys tgt dotenv opts)
      (steps_bytes-preset sys opts.data_args change same tgt opts.preset)
