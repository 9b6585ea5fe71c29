-- ===== src/Runner/Steps/Resolved.antt =====
-- What the steps of a target are to be, as relations: what a step resolves to, the run of the steps on
-- the host, and the list of processes for a container.
use go_bake.Base.{
  ◌≡◌, ◌≢◌, ℕ, suc, none, some, List, [], ◌∷◌, ◌++◌, ◌⊎◌, inl, inr, Text, TextMap, bytes, overlay,
}
use go_bake.Config.{Target, Step}
use go_bake.System.{System, Process}
use go_bake.Resolve.Args.{step_args}
use go_bake.Resolve.Expand.{expand_argv_if, expand_env_if}
use go_bake.Runner.Shell.{join_argv}
use go_bake.Runner.Steps.{
  RunError, step_template, step_env_template, step_failed, step_start, step_end, RunOptions,
  Command, Planned, refused, empty, command, preset_argv, cwd_in, Done,
}

-- The process of a command on the host: a runner gets the arguments as one command line.
pub data OnHost (c : Command) : Process → Type 0 where
  plain : c.runner ≡ [] → OnHost c (record { argv = c.argv; cwd = c.cwd; env = c.env })
  by_runner :
      c.runner ≢ []
      → OnHost c (record {
        argv = c.runner ∷ bytes "-c" ∷ join_argv c.argv ∷ [];
        cwd = c.cwd;
        env = c.env;
      })

-- The process of a command in a container: a runner stands before the arguments.
pub data InContainer (c : Command) : Process → Type 0 where
  plain : c.runner ≡ [] → InContainer c (record { argv = c.argv; cwd = c.cwd; env = c.env })
  by_runner :
      c.runner ≢ [] → InContainer c (record { argv = c.runner ∷ c.argv; cwd = c.cwd; env = c.env })

module _ (sys : System) (tgt : Target) (opts : RunOptions) (env : TextMap Text) (last : ℕ) where
  -- The preset's arguments are for the step `last`.
  pub data FromPreset (n : ℕ) : List Text → Type 0 where
    at_last : n ≡ last → FromPreset n (preset_argv opts.preset)
    elsewhere : n ≢ last → FromPreset n []

  -- The arguments of a step: its own, expanded, the preset's, and those passed through.
  pub record Words (n : ℕ) (step : Step) (argv : List Text) : Type 0 where
    pub own : List Text
    pub extra : List Text
    pub argv_expanded : expand_argv_if sys.expand opts.data_args step.argv ≡ some own
    pub preset : FromPreset n extra
    pub together : own ++ extra ++ step_args opts.passthrough_by_step n ≡ argv

  abbrev pub cwd_of : Step → Text
  cwd_of step = cwd_in sys opts.root_dir (cwd_in sys opts.root_dir opts.root_dir tgt.cwd) step.cwd

  -- What a step resolves to: an error of its templates, nothing, or a command.
  pub data Resolves (n : ℕ) (step : Step) : Planned → Type 0 where
    no_argv :
        expand_argv_if sys.expand opts.data_args step.argv ≡ none
        → Resolves n step (refused (step_template n))
    no_words : Words n step [] → Resolves n step empty
    no_env :
        {argv : List Text}
        → Words n step argv
        → argv ≢ []
        → expand_env_if sys.expand opts.data_args step.env ≡ none
        → Resolves n step (refused (step_env_template n))
    resolved :
        {argv : List Text} {vars : TextMap Text}
        → Words n step argv
        → argv ≢ []
        → expand_env_if sys.expand opts.data_args step.env ≡ some vars
        → Resolves n step (
            command (record {
              step = n;
              runner = step.runner;
              argv = argv;
              cwd = cwd_of step;
              env = overlay vars env;
            }))

  -- The run of the steps on the host, from the number of the first and the state of the machine.
  pub data HostRuns : ℕ → List Step → sys.World → Done sys → Type 0 where
    at_end :
        {n : ℕ} {w : sys.World} → HostRuns n [] w (record { error = none; world = w; events = [] })
    refuses :
        {n : ℕ} {s : Step} {ss : List Step} {e : RunError} {w : sys.World}
        → Resolves n s (refused e)
        → HostRuns n (s ∷ ss) w (record { error = some e; world = w; events = [] })
    skips :
        {n : ℕ} {s : Step} {ss : List Step} {w : sys.World} {d : Done sys}
        → Resolves n s empty
        → HostRuns (suc n) ss w d
        → HostRuns n (s ∷ ss) w d
    fails :
        {n : ℕ} {s : Step} {ss : List Step} {c : Command} {p : Process} {w w' : sys.World}
        {message : Text}
        → Resolves n s (command c)
        → OnHost c p
        → sys.exec p w ≡ (some message, w')
        → HostRuns n (s ∷ ss) w (record {
          error = some (step_failed n message);
          world = w';
          events = step_start tgt.name n ∷ step_end tgt.name n (some message) ∷ [];
        })
    goes_on :
        {n : ℕ} {s : Step} {ss : List Step} {c : Command} {p : Process} {w w' : sys.World}
        {d : Done sys}
        → Resolves n s (command c)
        → OnHost c p
        → sys.exec p w ≡ (none, w')
        → HostRuns (suc n) ss w' d
        → HostRuns n (s ∷ ss) w (record {
          error = d.error;
          world = d.world;
          events = step_start tgt.name n ∷ step_end tgt.name n none ∷ d.events;
        })

  -- The processes of the steps in a container, or the first error of their templates.
  pub data Lists : ℕ → List Step → RunError ⊎ List Process → Type 0 where
    at_end : {n : ℕ} → Lists n [] (inr [])
    refuses :
        {n : ℕ} {s : Step} {ss : List Step} {e : RunError}
        → Resolves n s (refused e)
        → Lists n (s ∷ ss) (inl e)
    skips :
        {n : ℕ} {s : Step} {ss : List Step} {r : RunError ⊎ List Process}
        → Resolves n s empty
        → Lists (suc n) ss r
        → Lists n (s ∷ ss) r
    refuses_later :
        {n : ℕ} {s : Step} {ss : List Step} {c : Command} {e : RunError}
        → Resolves n s (command c)
        → Lists (suc n) ss (inl e)
        → Lists n (s ∷ ss) (inl e)
    adds :
        {n : ℕ} {s : Step} {ss : List Step} {c : Command} {p : Process} {ps : List Process}
        → Resolves n s (command c)
        → InContainer c p
        → Lists (suc n) ss (inr ps)
        → Lists n (s ∷ ss) (inr (p ∷ ps))
