-- ===== src/Config/Validate/Tests.antt =====
-- Validate on small Bakefiles.
use go_bake.Base.{
  ℕ, ◌≡◌, ◌↔◌, refl, false, List, [], ◌∷◌, contains, ◌==◌, bytes, lookup, insert, collect,
}
use go_bake.Config.{
  File, Target, Daemon, Suite, new_target, target_by_name, find_target, preset_by_name, find_preset,
}
use go_bake.Config.Validate.{
  Message, ValidationError, validate, unknown_dependency, duplicate_target, workflow_unknown,
  parse_suite_entry,
}
use go_bake.Config.Validate.Complete.{IsWellFormed, validate-nil_iff}

abbrev redis : Daemon
redis = record {
  name = b'r' ∷ [];
  steps = [];
  env = [];
  cwd = [];
  image = [];
  unsafe = false;
  networks = [];
  volumes = [];
  line = 7;
  column = 3;
}

abbrev up : Target
up = record (new_target (b'u' ∷ []) false) {
  line = 4;
  column = 1;
  workflow = (b'b' ∷ []) ∷ (b'r' ∷ []) ∷ [];
  daemons = redis ∷ [];
}

abbrev build : Target
build = record (new_target (b'b' ∷ []) false) { line = 1; column = 1 }

abbrev local : Suite
local = record { name = b'l' ∷ []; targets = (b'b' ∷ []) ∷ []; line = 9; column = 1 }

abbrev file : List Target → File
file targets = record {
  dotenv = [];
  imports = [];
  profiles = [];
  targets = targets;
  suites = local ∷ [];
  root_dir = [];
  bake_path = [];
}

run : Unit {0}
unfolding validate target_by_name find_target preset_by_name find_preset contains ◌==◌ lookup insert
    collect bytes parse_suite_entry
run = tt

abbrev error : ℕ → ℕ → Message → ValidationError
error line column m = record {
  filename = bytes "Bakefile";
  line = line;
  column = column;
  message = m;
}

validate_sound : validate (file (build ∷ up ∷ [])) ≡ []
unfolding run
validate_sound = refl

validate-duplicate :
    validate (file (build ∷ build ∷ up ∷ [])) ≡ error 1 1 (duplicate_target (b'b' ∷ []) 1) ∷ []
unfolding run
validate-duplicate = refl

validate-unknown :
    validate (file (record build { deps = (b'x' ∷ []) ∷ [] } ∷ up ∷ []))
    ≡ error 1 1 (unknown_dependency (b'x' ∷ [])) ∷ []
unfolding run
validate-unknown = refl

-- A daemon whose line is not known (line 0) is not found by the workflow.
validate-line_zero :
    validate (file (build ∷ record up { daemons = record redis { line = 0 } ∷ [] } ∷ []))
    ≡ error 4 1 (workflow_unknown (b'u' ∷ []) (b'r' ∷ [])) ∷ []
unfolding run
validate-line_zero = refl

validate-nil_iff_example :
    (validate (file (build ∷ up ∷ [])) ≡ []) ↔ IsWellFormed (file (build ∷ up ∷ []))
validate-nil_iff_example = validate-nil_iff (file (build ∷ up ∷ []))
