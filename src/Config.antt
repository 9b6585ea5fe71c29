-- ===== src/Config.antt =====
-- internal/config/config.go and internal/config/target.go: the compiled Bakefile and its lookups.
-- A pointer that may be nil is an `Option`; a nil map or slice reads as the empty one. A slice of
-- pointers holds no nil, since the compiler of the DSL never appends one. Line and column numbers
-- and step indices come from unsigned tokens, so they are natural numbers.
pub mod Find
pub mod Validate
use go_bake.Base.{
  ℕ, ◌≡◌, refl, Bool, true, false, Option, none, some, List, [], ◌∷◌, Text, TextMap, bytes, ◌==◌,
  ==_iff, Bool-cases, inl, inr, ◌⊎◌, arith, if◌then◌else◌, contains, map,
}

pub record VolumeRef : Type 0 where
  pub name : Text
  pub host_path : Text

pub record PassthroughSlot : Type 0 where
  pub step : ℕ
  pub name : Text

pub record Step : Type 0 where
  pub runner : Text
  pub argv : List Text
  pub cwd : Text
  pub env : TextMap Text
  pub timeout : Text
  pub ok_exit_codes : List ℕ

pub record ArgDecl : Type 0 where
  pub name : Text
  pub type : Text
  pub short : Text
  pub default : Text
  pub required : Bool
  pub enum : List Text

pub record Preset : Type 0 where
  pub name : Text
  pub desc : Text
  pub steps : List Step
  pub argv : List Text
  pub env : TextMap Text

pub record WorkflowSchedule : Type 0 where
  pub cron : Text
  pub interval : Text

pub record Daemon : Type 0 where
  pub name : Text
  pub steps : List Step
  pub env : TextMap Text
  pub cwd : Text
  pub image : Text
  pub unsafe : Bool
  pub networks : List Text
  pub volumes : List VolumeRef
  pub line : ℕ
  pub column : ℕ

pub record Target : Type 0 where
  pub name : Text
  pub line : ℕ
  pub column : ℕ
  pub deps : List Text
  pub steps : List Step
  pub env : TextMap Text
  pub args : List ArgDecl
  pub cwd : Text
  pub desc : Text
  pub private : Bool
  pub tags : List Text
  pub passthrough_step : ℕ
  pub passthrough : List PassthroughSlot
  pub inputs : List Text
  pub outputs : List Text
  pub when_env : Text
  pub when_cmd : List Text
  pub presets : List Preset
  pub pool : Text
  pub mutex : Text
  pub image : Text
  pub unsafe : Bool
  pub networks : List Text
  pub volumes : List VolumeRef
  pub workflow : List Text
  pub workflow_schedule : Option WorkflowSchedule
  pub daemons : List Daemon

pub record Profile : Type 0 where
  pub name : Text
  pub dotenv : List Text
  pub env : TextMap Text

pub record Suite : Type 0 where
  pub name : Text
  pub targets : List Text
  pub line : ℕ
  pub column : ℕ

pub record File : Type 0 where
  pub dotenv : List Text
  pub imports : List Text
  pub profiles : List Profile
  pub targets : List Target
  pub suites : List Suite
  pub root_dir : Text
  pub bake_path : Text

-- The zero value of Go's `Target{Name: name}`, to be filled by later assignments.
abbrev pub new_target : Text → Bool → Target
new_target name private = record {
  name = name;
  line = 0;
  column = 0;
  deps = [];
  steps = [];
  env = [];
  args = [];
  cwd = [];
  desc = [];
  private = private;
  tags = [];
  passthrough_step = 0;
  passthrough = [];
  inputs = [];
  outputs = [];
  when_env = [];
  when_cmd = [];
  presets = [];
  pool = [];
  mutex = [];
  image = [];
  unsafe = false;
  networks = [];
  volumes = [];
  workflow = [];
  workflow_schedule = none;
  daemons = [];
}

abbrev pub new_step : Text → List Text → Step
new_step runner argv = record {
  runner = runner;
  argv = argv;
  cwd = [];
  env = [];
  timeout = [];
  ok_exit_codes = [];
}

unfoldable pub find_target : List Target → Text → Option Target
find_target [] name = none
find_target (t ∷ ts) name = if t.name == name then some t else find_target ts name

unfoldable pub target_by_name : File → Text → Option Target
unfolding find_target
target_by_name cfg name = find_target cfg.targets name

unfoldable pub find_suite : List Suite → Text → Option Suite
find_suite [] name = none
find_suite (s ∷ ss) name = if s.name == name then some s else find_suite ss name

unfoldable pub suite_by_name : File → Text → Option Suite
unfolding find_suite
suite_by_name cfg name = find_suite cfg.suites name

unfoldable pub find_profile : List Profile → Text → Option Profile
find_profile [] name = none
find_profile (p ∷ ps) name = if p.name == name then some p else find_profile ps name

unfoldable pub profile_by_name : File → Text → Option Profile
unfolding find_profile
profile_by_name cfg name = find_profile cfg.profiles name

unfoldable pub find_preset : List Preset → Text → Option Preset
find_preset [] name = none
find_preset (p ∷ ps) name = if p.name == name then some p else find_preset ps name

unfoldable pub preset_by_name : Target → Text → Option Preset
unfolding find_preset
preset_by_name t name = find_preset t.presets name

unfoldable pub find_daemon : List Daemon → Text → Option Daemon
find_daemon [] name = none
find_daemon (d ∷ ds) name = if d.name == name then some d else find_daemon ds name

unfoldable pub daemon_in_targets : List Target → Text → Option Daemon
unfolding find_daemon
daemon_in_targets [] name = none
daemon_in_targets (t ∷ ts) name = elim (find_daemon t.daemons name) [
  | some d ↦ some d
  | none ↦ daemon_in_targets ts name
]

unfoldable pub daemon_by_name : File → Text → Option Daemon
unfolding daemon_in_targets
daemon_by_name cfg name = daemon_in_targets cfg.targets name

abbrev first_name : List Target → Text
first_name [] = []
first_name (t ∷ ts) = t.name

unfoldable pub default_target_name : File → Text
unfolding bytes contains
default_target_name cfg =
    if contains (map (λ t. t.name) cfg.targets) (bytes "default")
    then bytes "default"
    else first_name cfg.targets

-- What a lookup finds has the name that was asked for.
pub find_target-name :
    (ts : List Target) (name : Text) (t : Target) → find_target ts name ≡ some t → t.name ≡ name
unfolding find_target
find_target-name [] name t h = absurd (ground arith)
find_target-name (u ∷ ts) name t h = ground (arith, ==_iff u.name name, find_target-name ts name t)

abbrev pub IsKnown : File → Text → Type 0
IsKnown cfg name = contains (map (λ t. t.name) cfg.targets) name ≡ true

-- A target has the name and is found, or none has it.
pub find_target_cases :
    (ts : List Target) (name : Text)
    → ((t : Target) × (find_target ts name ≡ some t)
        × (contains (map (λ t. t.name) ts) name ≡ true))
      ⊎ ((find_target ts name ≡ none) × (contains (map (λ t. t.name) ts) name ≡ false))
unfolding find_target contains
find_target_cases [] name = inr (refl, refl)
find_target_cases (u ∷ ts) name = elim (Bool-cases (u.name == name)) [
  | inl e ↦ inl (u, rw e, rw e)
  | inr e ↦ rw e (find_target_cases ts name)
]
