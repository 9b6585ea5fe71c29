-- ===== src/Runner/Steps/Host.antt =====
-- The steps of a target on the host and in a container are what Runner.Steps.Resolved says.
use go_bake.Base.{
  ◌≡◌, ◌≢◌, refl, ℕ, suc, Bool-cases, Option-cases, true, false, Option, none, some, List, [], ◌∷◌,
  ◌++◌, ◌⊎◌, inl, inr, Text, TextMap, nat_eq, overlay, arith, if◌then◌else◌,
}
use go_bake.Config.{Target, Step}
use go_bake.System.{System, Process}
use go_bake.Resolve.Args.{step_args}
use go_bake.Resolve.Expand.{is_empty, expand_argv_if, expand_env_if}
use go_bake.Runner.Steps.{
  RunError, RunOptions, Command, Planned, refused, empty, command, preset_argv, plan_step, process,
  exec_step, Done, after_command, host_step, host_steps, exec_steps, add_step,
}
use go_bake.Runner.Steps.Resolved
use go_bake.Runner.Steps.Resolved.{OnHost, InContainer, at_last, elsewhere}

module _ (sys : System) (tgt : Target) (opts : RunOptions) (env : TextMap Text) (last : ℕ) where
  abbrev Resolves : ℕ → Step → Planned → Type 0
  Resolves = Resolved.Resolves sys tgt opts env last

  abbrev HostRuns : ℕ → List Step → sys.World → Done sys → Type 0
  HostRuns = Resolved.HostRuns sys tgt opts env last

  abbrev Lists : ℕ → List Step → RunError ⊎ List Process → Type 0
  Lists = Resolved.Lists sys tgt opts env last

  abbrev Words : ℕ → Step → List Text → Type 0
  Words = Resolved.Words sys tgt opts env last

  abbrev FromPreset : ℕ → List Text → Type 0
  FromPreset = Resolved.FromPreset sys tgt opts env last

  abbrev cwd_of : Step → Text
  cwd_of = Resolved.cwd_of sys tgt opts env last

  preset-FromPreset : (n : ℕ) → FromPreset n (if nat_eq n last then preset_argv opts.preset else [])
  preset-FromPreset n = elim (Bool-cases (nat_eq n last)) [
    | inl e ↦ rw e (at_last (ground (arith, e)))
    | inr e ↦ rw e (elsewhere (ground (arith, e)))
  ]

  words :
      (n : ℕ) (step : Step) {own argv : List Text}
      → expand_argv_if sys.expand opts.data_args step.argv ≡ some own
      → own
          ++ (if nat_eq n last then preset_argv opts.preset else [])
          ++ step_args opts.passthrough_by_step n
        ≡ argv
      → Words n step argv
  words n step {own} e f = record {
    own = own;
    extra = if nat_eq n last then preset_argv opts.preset else [];
    argv_expanded = e;
    preset = preset-FromPreset n;
    together = f;
  }

  List-cases : (xs : List Text) → (xs ≡ []) ⊎ ((a : Text) × (rest : List Text) × (xs ≡ a ∷ rest))
  List-cases [] = inl refl
  List-cases (a ∷ rest) = inr (a, rest, refl)

  cons_not_nil : {A : Type 0} {a : A} {rest : List A} → a ∷ rest ≢ []
  cons_not_nil e = cc

  abbrev all_words : ℕ → List Text → List Text
  all_words n own =
      own
      ++ (if nat_eq n last then preset_argv opts.preset else [])
      ++ step_args opts.passthrough_by_step n

  plan_step-Resolves :
      (n : ℕ) (step : Step) → Resolves n step (plan_step sys tgt opts env last n step)
  unfolding plan_step
  plan_step-Resolves n step =
      elim (Option-cases (expand_argv_if sys.expand opts.data_args step.argv)) [
        | inr e ↦ rw (e, plan_step) (Resolved.no_argv e)
        | inl (own, e) ↦
            rw (e, plan_step)
              (elim (List-cases (all_words n own)) [
                | inl f ↦ rw f (Resolved.no_words (words n step e f))
                | inr (a, rest, f) ↦
                    rw f (elim (Option-cases (expand_env_if sys.expand opts.data_args step.env)) [
                      | inr g ↦ rw g (Resolved.no_env (words n step e f) cons_not_nil g)
                      | inl (vars, g) ↦ rw g (Resolved.resolved (words n step e f) cons_not_nil g)
                    ])
              ])
      ]

  -- What a step of the container path is.
  abbrev Listed : ℕ → Step → RunError ⊎ Option Process → Type 0
  Listed n step (inl e) = Resolves n step (refused e)
  Listed n step (inr none) = Resolves n step empty
  Listed n step (inr (some p)) = (c : Command) × Resolves n step (command c) × InContainer c p

  is_empty-nil : (t : Text) → is_empty t ≡ true → t ≡ []
  is_empty-nil [] h = refl
  is_empty-nil (c ∷ t) h = cc

  is_empty-ne : (t : Text) → is_empty t ≡ false → t ≢ []
  is_empty-ne [] h e = cc
  is_empty-ne (c ∷ t) h e = cc

  container_process :
      (c : Command)
      → InContainer c (record {
        argv = if is_empty c.runner then c.argv else c.runner ∷ c.argv;
        cwd = c.cwd;
        env = c.env;
      })
  container_process c = elim (Bool-cases (is_empty c.runner)) [
    | inl e ↦ rw e (InContainer.plain (is_empty-nil c.runner e))
    | inr e ↦ rw e (InContainer.by_runner (is_empty-ne c.runner e))
  ]

  process-OnHost : (c : Command) → OnHost c (process sys c)
  unfolding process
  process-OnHost c = elim (Bool-cases (is_empty c.runner)) [
    | inl e ↦ rw e (OnHost.plain (is_empty-nil c.runner e))
    | inr e ↦ rw e (OnHost.by_runner (is_empty-ne c.runner e))
  ]

  exec_step-Listed : (n : ℕ) (step : Step) → Listed n step (exec_step sys tgt opts env last n step)
  unfolding exec_step
  exec_step-Listed n step =
      elim (Option-cases (expand_argv_if sys.expand opts.data_args step.argv)) [
        | inr e ↦ rw (e, exec_step) (Resolved.no_argv e)
        | inl (own, e) ↦
            rw (e, exec_step)
              (elim (List-cases (all_words n own)) [
                | inl f ↦ rw f (Resolved.no_words (words n step e f))
                | inr (a, rest, f) ↦
                    rw f (elim (Option-cases (expand_env_if sys.expand opts.data_args step.env)) [
                      | inr g ↦ rw g (Resolved.no_env (words n step e f) cons_not_nil g)
                      | inl (vars, g) ↦ rw g (
                        _,
                        Resolved.resolved (words n step e f) cons_not_nil g,
                        container_process (record {
                          step = n;
                          runner = step.runner;
                          argv = a ∷ rest;
                          cwd = cwd_of step;
                          env = overlay vars env;
                        }),
                      )
                    ])
              ])
      ]

  add_step-Lists :
      (n : ℕ) (s : Step) (ss : List Step) (r : RunError ⊎ Option Process)
      (rest : RunError ⊎ List Process)
      → Listed n s r
      → Lists (suc n) ss rest
      → Lists n (s ∷ ss) (add_step sys r rest)
  unfolding add_step
  add_step-Lists n s ss (inl e) rest h l = Resolved.refuses h
  add_step-Lists n s ss (inr none) rest h l = Resolved.skips h l
  add_step-Lists n s ss (inr (some p)) (inl e) (c, h, k) l = Resolved.refuses_later h l
  add_step-Lists n s ss (inr (some p)) (inr ps) (c, h, k) l = Resolved.adds h k l

  exec_steps-Lists :
      (n : ℕ) (steps : List Step) → Lists n steps (exec_steps sys tgt opts env last n steps)
  unfolding exec_steps
  exec_steps-Lists n [] = Resolved.Lists.at_end
  exec_steps-Lists n (s ∷ ss) =
      add_step-Lists n s ss (exec_step sys tgt opts env last n s)
        (exec_steps sys tgt opts env last (suc n) ss) (exec_step-Listed n s)
        (exec_steps-Lists (suc n) ss)

  after_command-HostRuns :
      (n : ℕ) (s : Step) (ss : List Step) (c : Command) (next : sys.World → Done sys)
      (w : sys.World) (r : Option Text × sys.World)
      → c.step ≡ n
      → Resolves n s (command c)
      → sys.exec (process sys c) w ≡ r
      → ((w' : sys.World) → HostRuns (suc n) ss w' (next w'))
      → HostRuns n (s ∷ ss) w (after_command sys tgt.name c next r)
  unfolding after_command
  after_command-HostRuns n s ss c next w (some message, w') same h e k =
      rw same (Resolved.fails h (process-OnHost c) e)
  after_command-HostRuns n s ss c next w (none, w') same h e k =
      rw same (Resolved.goes_on h (process-OnHost c) e (k w'))

  -- The number of a command is that of its step.
  Resolves-step :
      (n : ℕ) (s : Step) (p : Planned) → Resolves n s p → (c : Command) → p ≡ command c → c.step ≡ n
  Resolves-step n s (refused e) h c f = cc
  Resolves-step n s empty h c f = cc
  Resolves-step n s (command c') (Resolved.resolved x y z) c f = cc

  host_step-HostRuns :
      (n : ℕ) (s : Step) (ss : List Step) (p : Planned) (next : sys.World → Done sys)
      (w : sys.World)
      → Resolves n s p
      → ((w' : sys.World) → HostRuns (suc n) ss w' (next w'))
      → HostRuns n (s ∷ ss) w (host_step sys tgt.name p next w)
  unfolding host_step
  host_step-HostRuns n s ss (refused e) next w h k = Resolved.refuses h
  host_step-HostRuns n s ss empty next w h k = Resolved.skips h (k w)
  host_step-HostRuns n s ss (command c) next w h k =
      after_command-HostRuns n s ss c next w (sys.exec (process sys c) w)
        (Resolves-step n s (command c) h c refl) h refl k

  host_steps-HostRuns :
      (n : ℕ) (steps : List Step) (w : sys.World)
      → HostRuns n steps w (host_steps sys tgt opts env last n steps w)
  unfolding host_steps
  host_steps-HostRuns n [] w = Resolved.HostRuns.at_end
  host_steps-HostRuns n (s ∷ ss) w =
      host_step-HostRuns n s ss (plan_step sys tgt opts env last n s)
        (λ w'. host_steps sys tgt opts env last (suc n) ss w') w (plan_step-Resolves n s)
        (λ w'. host_steps-HostRuns (suc n) ss w')

-- The steps of a target on the host and in a container, against one account of what a step resolves
-- to: its expanded arguments, with the preset's behind them at one step, and those passed through to
-- it; no command without arguments; an error where a template cannot be expanded. On the host the
-- commands run one after the other, each from the state that the one before has left, up to the
-- first error, with the events of each; a runner gets the arguments as one command line. A container
-- gets all of the commands, with the runner before the arguments, or nothing but the first error.
pub steps-Resolves :
    (sys : System) (tgt : Target) (opts : RunOptions) (env : TextMap Text) (last n : ℕ)
    (steps : List Step) (w : sys.World)
    → Resolved.HostRuns sys tgt opts env last n steps w (host_steps sys tgt opts env last n steps w)
      × Resolved.Lists sys tgt opts env last n steps (exec_steps sys tgt opts env last n steps)
steps-Resolves sys tgt opts env last n steps w = (
  host_steps-HostRuns sys tgt opts env last n steps w,
  exec_steps-Lists sys tgt opts env last n steps,
)
