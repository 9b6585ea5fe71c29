-- ===== src/Service/Requests/Known.antt =====
-- RunUp on a Bakefile that Validate accepts.
use go_bake.Base.{
  ◌≡◌, ◌≢◌, refl, Bool, true, false, Option, none, some, List, [], ◌∷◌, Text, TextMap, All, inl,
  inr, bytes, if◌then◌else◌,
}
use go_bake.Config.{
  File, Target, Daemon, find_daemon, find_target, target_by_name, find_target_cases,
}
use go_bake.Config.Validate.{validate}
use go_bake.Config.Validate.Checks.{UnitKnown, UnitsKnown}
use go_bake.Config.Validate.Complete.{validate-nil_iff}
use go_bake.Cache.{Codec}
use go_bake.Env.{Dotenv}
use go_bake.Resolve.Expand.{is_empty}
use go_bake.System.{System}
use go_bake.Lifecycle.{StateCodec, add_daemon}
use go_bake.Lifecycle.Start.{Processes, Started, start_daemon}
use go_bake.Runner.Dag.Validated.{find_target-All}
use go_bake.Runner.Steps.{RunError}
use go_bake.Runner.Run.{load_env}
use go_bake.Service.Requests.{
  ServiceError, unknown_name, workflow_failed, save_failed, no_workflow, wrap, next, Service,
  run_as, saved, up_daemon, up_name, up_names, up_loaded, up_target, run_up,
}

module _ (sys : System) (state : StateCodec) (procs : Processes sys) (json : Codec) (docker : Bool)
    (cfg : File) (x : Text) where
  -- Not the error for an unknown name.
  abbrev Knows : Option ServiceError → Type 0
  Knows e = e ≢ some (unknown_name x)

  next-Knows :
      (r : Option ServiceError × sys.World) (f : Service sys)
      → Knows r.0
      → ((w : sys.World) → Knows (f w).0)
      → Knows (next sys r f).0
  unfolding next
  next-Knows (some e, w) f h k = h
  next-Knows (none, w) f h k = k w

  wrap-Knows : (name : Text) (e : Option RunError) → Knows (wrap (workflow_failed name) e)
  wrap-Knows name none = λ p. cc
  wrap-Knows name (some e) = λ p. cc

  saved_error-Knows :
      (o : Option Text) → Knows (elim o [ none ↦ none | some message ↦ some (save_failed message) ])
  saved_error-Knows none = λ p. cc
  saved_error-Knows (some message) = λ p. cc

  saved-Knows :
      (root name : Text) (r : Started × sys.World) → Knows (saved sys state procs root name r).0
  unfolding saved
  saved-Knows root name (Started.failed e, w) = λ p. cc
  saved-Knows root name (Started.host pid, w) =
      saved_error-Knows (add_daemon sys state root name pid [] w).0
  saved-Knows root name (Started.boxed id, w) =
      saved_error-Knows (add_daemon sys state root name 0 id w).0

  up_daemon-Knows :
      (tgt : Target) (dotenv : TextMap Text) (name : Text) (o : Option Daemon) (w : sys.World)
      → o ≢ none
      → Knows (up_daemon sys state procs json docker cfg tgt dotenv name o w).0
  unfolding up_daemon
  up_daemon-Knows tgt dotenv name none w h = absurd (h refl)
  up_daemon-Knows tgt dotenv name (some d) w h =
      saved-Knows cfg.root_dir d.name (start_daemon sys procs cfg.root_dir d dotenv [] [] w)

  -- Nothing is found under a name, so a daemon is.
  daemon_found :
      (tgt : Target) (name : Text)
      → UnitKnown cfg tgt name
      → target_by_name cfg name ≡ none
      → find_daemon tgt.daemons name ≢ none
  unfolding target_by_name
  daemon_found tgt name (inr (d, found, _)) e = λ p. cc
  daemon_found tgt name (inl known) e = elim (find_target_cases cfg.targets name) [
    | inl (t, f, _) ↦ λ p. cc
    | inr (_, u) ↦ λ p. cc
  ]

  up_name-Knows :
      (tgt : Target) (dotenv : TextMap Text) (name : Text) (o : Option Target) (w : sys.World)
      → UnitKnown cfg tgt name
      → target_by_name cfg name ≡ o
      → Knows (up_name sys state procs json docker cfg tgt dotenv name o w).0
  unfolding up_name run_as
  up_name-Knows tgt dotenv name none w known e =
      up_daemon-Knows tgt dotenv name (find_daemon tgt.daemons name) w
        (daemon_found tgt name known e)
  up_name-Knows tgt dotenv name (some t) w known e = wrap-Knows name _

  up_names-Knows :
      (tgt : Target) (dotenv : TextMap Text) (names : List Text) (w : sys.World)
      → All (UnitKnown cfg tgt) names
      → Knows (up_names sys state procs json docker cfg tgt dotenv names w).0
  unfolding up_names
  up_names-Knows tgt dotenv [] w h = λ p. cc
  up_names-Knows tgt dotenv (name ∷ names) w h =
      next-Knows _ (up_names sys state procs json docker cfg tgt dotenv names)
        (up_name-Knows tgt dotenv name (target_by_name cfg name) w h.0 refl)
        (λ u. up_names-Knows tgt dotenv names u h.1)

  up_loaded-Knows :
      (tgt : Target) (d : Dotenv) (w : sys.World)
      → All (UnitKnown cfg tgt) tgt.workflow
      → Knows (up_loaded sys state procs json docker cfg tgt d w).0
  unfolding up_loaded
  up_loaded-Knows tgt (Dotenv.load_failed path) w h = λ p. cc
  up_loaded-Knows tgt (Dotenv.loaded dotenv) w h = up_names-Knows tgt dotenv tgt.workflow w h

  up_target-Knows :
      (o : Option Target) (w : sys.World)
      → ((t : Target) → o ≡ some t → All (UnitKnown cfg t) t.workflow)
      → Knows (up_target sys state procs json docker cfg o w).0
  unfolding up_target
  up_target-Knows none w h = λ p. cc
  up_target-Knows (some t) w h =
      elim (is_empty t.workflow)
        as (λ b.
          Knows
            (if b
              then (some no_workflow, w)
              else up_loaded sys state procs json docker cfg t
                  (load_env sys cfg.root_dir cfg.dotenv w) w).0) [
                    | true ↦ λ p. cc
                    | false ↦
                        up_loaded-Knows t (load_env sys cfg.root_dir cfg.dotenv w) w (h t refl)
                  ]

-- RunUp on a Bakefile that Validate accepts never fails for a name of the workflow that is neither a
-- target nor a daemon of the target "up".
pub run_up-known :
    (sys : System) (state : StateCodec) (procs : Processes sys) (json : Codec) (docker : Bool)
    (cfg : File) (name : Text) (w : sys.World)
    → validate cfg ≡ []
    → (run_up sys state procs json docker cfg w).0 ≢ some (unknown_name name)
unfolding run_up target_by_name
run_up-known sys state procs json docker cfg name w v =
    up_target-Knows sys state procs json docker cfg name (find_target cfg.targets (bytes "up")) w
      (λ t e.
        (find_target-All (UnitsKnown cfg) cfg.targets (bytes "up") t
          ((validate-nil_iff cfg).0 v).units e).2)
