-- ===== src/Dsl/Compile.antt =====
-- internal/dsl/parser.go: from the syntax tree to config.File. The functions there also return an
-- error, which none of them ever sets, so the model returns the value alone.
use go_bake.Base.{
  Bool, true, false, Option, none, some, List, [], ◌∷◌, ◌++◌, Text, TextMap, bytes, insert, map,
  nat_eq, ltb, ◌==◌, if◌then◌else◌,
}
use go_bake.Config
use go_bake.Config.{Target, Daemon, Preset, Profile, Suite, File, new_target, new_step}
use go_bake.Dsl.Ast.{
  Position, ExecElem, EnvPair, Step, PresetEntry, PresetBlock, ImageClause, ScheduleClause,
  WorkflowEntry, BodyEntry, Entries, to_list, TargetBlock, ProfileEntry, ProfileBlock,
}

abbrev pub values : List ExecElem → List Text
values = map (λ e. e.value)

-- `env[pair.Key] = string(pair.Value)` for each pair.
unfoldable pub add_pairs : List EnvPair → TextMap Text → TextMap Text
unfolding insert
add_pairs [] env = env
add_pairs (p ∷ ps) env = add_pairs ps (insert p.key p.value env)

unfoldable pub compile_step : Step → Config.Step
unfolding bytes
compile_step (Step.exec argv) = new_step [] (values argv)
compile_step (Step.cmd []) = new_step [] []
compile_step (Step.cmd (tok ∷ toks)) = new_step [] (tok ∷ toks)
compile_step (Step.shell runner script) = new_step runner (bytes "-c" ∷ script ∷ [])

abbrev compile_steps : List Step → List Config.Step
compile_steps = map compile_step

abbrev image_name : ImageClause → Text
image_name (ImageClause.ident v) = v
image_name (ImageClause.string v) = v

abbrev host_path : Option Text → Text
host_path none = []
host_path (some p) = p

abbrev pub compile_schedule : ScheduleClause → Config.WorkflowSchedule
compile_schedule (ScheduleClause.cron v) = record { cron = v; interval = [] }
compile_schedule (ScheduleClause.interval v) = record { cron = []; interval = v }

-- One entry of a preset block.
unfoldable pub compile_preset_entry : Preset → PresetEntry → Preset
unfolding add_pairs compile_step
compile_preset_entry v (PresetEntry.argv elems) = record v { argv = v.argv ++ values elems }
compile_preset_entry v (PresetEntry.env pairs) = record v { env = add_pairs pairs v.env }
compile_preset_entry v (PresetEntry.desc text) = record v { desc = text }
compile_preset_entry v (PresetEntry.steps ss) = record v { steps = v.steps ++ compile_steps ss }

unfoldable pub fold_entries {ℓ κ} : {A : Type ℓ} {B : Type κ} → (B → A → B) → B → List A → B
fold_entries f b [] = b
fold_entries f b (e ∷ es) = fold_entries f (f b e) es

unfoldable pub compile_preset : PresetBlock → Preset
unfolding compile_preset_entry fold_entries
compile_preset p =
    fold_entries compile_preset_entry
      (record { name = p.name; desc = []; steps = []; argv = []; env = [] }) p.body

unfoldable pub compile_daemon_entry : Daemon → BodyEntry → Daemon
unfolding add_pairs compile_step
compile_daemon_entry d (BodyEntry.steps ss) = record d { steps = d.steps ++ compile_steps ss }
compile_daemon_entry d (BodyEntry.step s) = record d { steps = d.steps ++ compile_step s ∷ [] }
compile_daemon_entry d (BodyEntry.env pairs) = record d { env = add_pairs pairs d.env }
compile_daemon_entry d (BodyEntry.cwd path) = record d { cwd = path }
compile_daemon_entry d (BodyEntry.image i) = record d { image = image_name i }
compile_daemon_entry d BodyEntry.unsafe = record d { unsafe = true }
compile_daemon_entry d (BodyEntry.net name) = record d { networks = d.networks ++ name ∷ [] }
compile_daemon_entry d (BodyEntry.vol name path) = record d {
  volumes = d.volumes ++ record { name = name; host_path = host_path path } ∷ [];
}
compile_daemon_entry d _ = d

-- compileDaemon, and the position that its caller sets if it is known.
unfoldable pub compile_daemon : Position → Text → Entries → Daemon
unfolding compile_daemon_entry fold_entries
compile_daemon pos name body =
    let d : Daemon =
      fold_entries compile_daemon_entry
        (record {
          name = name;
          steps = [];
          env = [];
          cwd = [];
          image = [];
          unsafe = false;
          networks = [];
          volumes = [];
          line = 0;
          column = 0;
        })
        (to_list body) in
    if ltb 0 pos.line then record d { line = pos.line; column = pos.column } else d

unfoldable pub compile_workflow_entry : Target → WorkflowEntry → Target
unfolding ◌==◌
compile_workflow_entry t (WorkflowEntry.ident name) =
    if name == [] then t else record t { workflow = t.workflow ++ name ∷ [] }
compile_workflow_entry t (WorkflowEntry.schedule s) = record t {
  workflow_schedule = some (compile_schedule s);
}

-- The body of compileTarget's loop, by the clause that the entry holds.
unfoldable pub compile_entry : Target → BodyEntry → Target
unfolding add_pairs compile_step compile_preset compile_daemon compile_workflow_entry fold_entries
compile_entry t (BodyEntry.deps names) = record t { deps = names }
compile_entry t (BodyEntry.steps ss) = record t { steps = t.steps ++ compile_steps ss }
compile_entry t (BodyEntry.step s) = record t { steps = t.steps ++ compile_step s ∷ [] }
compile_entry t (BodyEntry.env pairs) = record t { env = add_pairs pairs t.env }
compile_entry t (BodyEntry.args a) = record t {
  args =
      t.args
      ++ record {
        name = a.name;
        type = a.type;
        short = a.short;
        default = a.default;
        required = false;
        enum = [];
      }
        ∷ [];
}
compile_entry t (BodyEntry.cwd path) = record t { cwd = path }
compile_entry t (BodyEntry.desc text) = record t { desc = text }
compile_entry t (BodyEntry.tags tags) = record t { tags = tags }
compile_entry t (BodyEntry.passthrough step name) = record t {
  passthrough = t.passthrough ++ record { step = step; name = host_path name } ∷ [];
  passthrough_step = if nat_eq t.passthrough_step 0 then step else t.passthrough_step;
}
compile_entry t (BodyEntry.inputs paths) = record t { inputs = t.inputs ++ values paths }
compile_entry t (BodyEntry.outputs paths) = record t { outputs = t.outputs ++ values paths }
compile_entry t (BodyEntry.when_env var) = record t { when_env = var }
compile_entry t (BodyEntry.when_cmd argv) = record t { when_cmd = t.when_cmd ++ values argv }
compile_entry t BodyEntry.private = record t { private = true }
compile_entry t (BodyEntry.preset p) = record t { presets = t.presets ++ compile_preset p ∷ [] }
compile_entry t (BodyEntry.pool name) = record t { pool = name }
compile_entry t (BodyEntry.mutex name) = record t { mutex = name }
compile_entry t (BodyEntry.image i) = record t { image = image_name i }
compile_entry t BodyEntry.unsafe = record t { unsafe = true }
compile_entry t (BodyEntry.net name) = record t { networks = t.networks ++ name ∷ [] }
compile_entry t (BodyEntry.vol name path) = record t {
  volumes = t.volumes ++ record { name = name; host_path = host_path path } ∷ [];
}
compile_entry t (BodyEntry.workflow es) = fold_entries compile_workflow_entry t es
compile_entry t (BodyEntry.daemon pos name body) = record t {
  daemons = t.daemons ++ compile_daemon pos name body ∷ [];
}

unfoldable pub compile_body : Target → List BodyEntry → Target
unfolding compile_entry fold_entries
compile_body = fold_entries compile_entry

abbrev compile_cmd : Target → List Text → Target
compile_cmd t [] = t
compile_cmd t (tok ∷ toks) = record t { steps = t.steps ++ new_step [] (tok ∷ toks) ∷ [] }

abbrev body_entries : Option (List BodyEntry) → List BodyEntry
body_entries none = []
body_entries (some es) = es

unfoldable pub compile_target : TargetBlock → Bool → Target
unfolding compile_body
compile_target b file_private =
    compile_cmd (compile_body (new_target b.name file_private) (body_entries b.body)) b.cmd_tok

unfoldable pub compile_profile_entry : Profile → ProfileEntry → Profile
unfolding add_pairs
compile_profile_entry p (ProfileEntry.dotenv paths) = record p { dotenv = p.dotenv ++ values paths }
compile_profile_entry p (ProfileEntry.env pairs) = record p { env = add_pairs pairs p.env }

unfoldable pub compile_profile : ProfileBlock → Profile
unfolding compile_profile_entry fold_entries
compile_profile p =
    fold_entries compile_profile_entry (record { name = p.name; dotenv = []; env = [] }) p.body
