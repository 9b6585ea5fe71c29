-- ===== src/Config/Validate.antt =====
-- internal/config/validate.go: the checks on a compiled Bakefile, loop by loop. A message is a
-- constructor for each format string with the values that are printed. The library functions
-- strings.SplitN and strings.TrimSpace, at the arguments that ParseSuiteEntry gives them, are
-- written out for ASCII texts.
pub mod Distinct
pub mod Checks
pub mod Complete
mod Tests
use go_bake.Base.{
  trim_left, trim_right, trim_space, ℕ, Bool, true, false, Option, none, some, List, [], ◌∷◌, ◌++◌,
  Text, TextMap, bytes, contains, lookup, insert, collect, nat_eq, ltb, leb, length, ◌==◌, ◌||◌,
  ◌&&◌, not, if◌then◌else◌,
}
use go_bake.Config.{
  File, Target, Daemon, Preset, Profile, Suite, PassthroughSlot, target_by_name, preset_by_name,
}

pub data Message : Type 0 where
  duplicate_target duplicate_profile duplicate_suite : (name : Text) (first : ℕ) → Message
  unknown_dependency : (dep : Text) → Message
  duplicate_preset : (target preset : Text) → Message
  duplicate_passthrough : (target : Text) (step : ℕ) → Message
  suite_unknown_target : (suite target : Text) → Message
  suite_no_preset : (suite target preset : Text) → Message
  duplicate_daemon : (daemon target : Text) (first : ℕ) → Message
  daemon_conflict : (daemon : Text) → Message
  workflow_unknown : (target name : Text) → Message

pub record ValidationError : Type 0 where
  pub filename : Text
  pub line : ℕ
  pub column : ℕ
  pub message : Message

-- strings.SplitN(entry, " ", 2): the text before the first space, and the text behind it.
unfoldable pub split_space : Text → Text × Option Text
split_space [] = ([], none)
split_space (c ∷ s) =
    let (before, after) = split_space s in if nat_eq c 32 then ([], some s) else (c ∷ before, after)

abbrev preset_part : Option Text → Text
preset_part none = []
preset_part (some p) = trim_space p

unfoldable pub parse_suite_entry : Text → Text × Text
unfolding split_space trim_left trim_right
parse_suite_entry entry =
    let (before, after) = split_space entry in (trim_space before, preset_part after)

-- The loops over targets, profiles and suites that look for a second one of the same name. `seen`
-- maps a name to the line of its first occurrence.
unfoldable pub check_names {ℓ} :
    {A : Type ℓ}
    → (A → Text)
    → (A → ℕ)
    → (A → ℕ → ValidationError)
    → TextMap ℕ
    → List A
    → List ValidationError
unfolding lookup insert
check_names name line err seen [] = []
check_names name line err seen (x ∷ xs) = elim (lookup (name x) seen) [
  | some first ↦ err x first ∷ check_names name line err seen xs
  | none ↦ check_names name line err (insert (name x) (line x) seen) xs
]

abbrev pub is_none {ℓ} : {A : Type ℓ} → Option A → Bool
is_none none = true
is_none (some a) = false

abbrev pub has_step : List ℕ → ℕ → Bool
has_step [] n = false
has_step (m ∷ ms) n = nat_eq m n || has_step ms n

-- `daemonByName`: the line of the first daemon of each name.
abbrev pub note_daemon : Daemon → TextMap ℕ → Option ℕ → TextMap ℕ
note_daemon d seen none = insert d.name d.line seen
note_daemon d seen (some first) = seen

pub daemon_lines : TextMap ℕ → List Daemon → TextMap ℕ
unfolding lookup insert
daemon_lines seen [] = seen
daemon_lines seen (d ∷ ds) = daemon_lines (note_daemon d seen (lookup d.name seen)) ds

-- A name that is missing in `daemonByName` reads as line 0.
abbrev pub line_of : Option ℕ → ℕ
line_of none = 0
line_of (some n) = n

module _ (cfg : File) (filename : Text) where
  abbrev at_target : Target → Message → ValidationError
  at_target t m = record { filename = filename; line = t.line; column = t.column; message = m }

  abbrev at_suite : Suite → Message → ValidationError
  at_suite s m = record { filename = filename; line = s.line; column = s.column; message = m }

  abbrev at_daemon : Daemon → Message → ValidationError
  at_daemon d m = record { filename = filename; line = d.line; column = d.column; message = m }

  abbrev at_start : Message → ValidationError
  at_start m = record { filename = filename; line = 0; column = 0; message = m }

  pub check_target_names : List ValidationError
  unfolding check_names
  check_target_names =
      check_names (λ (t : Target). t.name) (λ t. t.line)
        (λ t first. at_target t (duplicate_target t.name first)) [] cfg.targets

  pub check_profile_names : List ValidationError
  unfolding check_names
  check_profile_names =
      check_names (λ (p : Profile). p.name) (λ p. 0)
        (λ p first. at_start (duplicate_profile p.name first)) [] cfg.profiles

  pub check_suite_names : List ValidationError
  unfolding check_names
  check_suite_names =
      check_names (λ (s : Suite). s.name) (λ s. s.line)
        (λ s first. at_suite s (duplicate_suite s.name first)) [] cfg.suites

  pub check_dep : Target → Text → List ValidationError
  unfolding target_by_name
  check_dep t dep = elim (target_by_name cfg dep) [
    | none ↦ at_target t (unknown_dependency dep) ∷ []
    | some _ ↦ []
  ]

  pub check_deps : Target → List ValidationError
  unfolding check_dep collect
  check_deps t = collect (check_dep t) t.deps

  pub check_presets : Target → List Text → List Preset → List ValidationError
  unfolding contains
  check_presets t seen [] = []
  check_presets t seen (v ∷ vs) =
      (if contains seen v.name then at_target t (duplicate_preset t.name v.name) ∷ [] else [])
      ++ check_presets t (v.name ∷ seen) vs

  pub check_slots : Target → List ℕ → List PassthroughSlot → List ValidationError
  check_slots t seen [] = []
  check_slots t seen (slot ∷ slots) =
      (if has_step seen slot.step
        then at_target t (duplicate_passthrough t.name slot.step) ∷ []
        else [])
      ++ check_slots t (slot.step ∷ seen) slots

  pub check_passthrough : Target → List ValidationError
  unfolding check_slots
  check_passthrough t = if ltb (length t.passthrough) 2 then [] else check_slots t [] t.passthrough

  pub check_ref : Suite → Text × Text → List ValidationError
  unfolding target_by_name preset_by_name ◌==◌
  check_ref s (target, preset) = elim (target_by_name cfg target) [
    | none ↦ at_suite s (suite_unknown_target s.name target) ∷ []
    | some t ↦
        if not (preset == []) && is_none (preset_by_name t preset)
        then at_suite s (suite_no_preset s.name target preset) ∷ []
        else []
  ]

  pub check_refs : Suite → List ValidationError
  unfolding check_ref parse_suite_entry collect
  check_refs s = collect (λ entry. check_ref s (parse_suite_entry entry)) s.targets

  -- What one round of the loop over a target's daemons reports, and `daemonByName` after it.
  pub check_daemon_name : Target → Daemon → Option ℕ → List ValidationError
  check_daemon_name t d none = []
  check_daemon_name t d (some first) = at_daemon d (duplicate_daemon d.name t.name first) ∷ []

  pub check_daemon_conflict : Daemon → List ValidationError
  unfolding target_by_name
  check_daemon_conflict d = elim (target_by_name cfg d.name) [
    | none ↦ []
    | some _ ↦ at_daemon d (daemon_conflict d.name) ∷ []
  ]

  pub check_daemons : Target → TextMap ℕ → List Daemon → List ValidationError
  unfolding check_daemon_name check_daemon_conflict lookup insert
  check_daemons t seen [] = []
  check_daemons t seen (d ∷ ds) =
      check_daemon_name t d (lookup d.name seen)
      ++ check_daemon_conflict d
      ++ check_daemons t (note_daemon d seen (lookup d.name seen)) ds

  pub check_workflow_name : Target → Text → List ValidationError
  unfolding target_by_name daemon_lines lookup
  check_workflow_name t name = elim (target_by_name cfg name) [
    | some _ ↦ []
    | none ↦
        if nat_eq (line_of (lookup name (daemon_lines [] t.daemons))) 0
        then at_target t (workflow_unknown t.name name) ∷ []
        else []
  ]

  pub check_units : Target → List ValidationError
  unfolding check_daemons check_workflow_name collect
  check_units t = check_daemons t [] t.daemons ++ collect (check_workflow_name t) t.workflow

  pub check_all : List ValidationError
  unfolding check_target_names check_deps check_presets check_passthrough check_profile_names
      check_suite_names check_refs check_units collect
  check_all =
      check_target_names
      ++ collect check_deps cfg.targets
      ++ collect (λ t. check_presets t [] t.presets) cfg.targets
      ++ collect check_passthrough cfg.targets
      ++ check_profile_names
      ++ check_suite_names
      ++ collect check_refs cfg.suites
      ++ collect check_units cfg.targets

unfoldable pub validate : File → List ValidationError
unfolding check_all
validate cfg = check_all cfg (if cfg.bake_path == [] then bytes "Bakefile" else cfg.bake_path)
