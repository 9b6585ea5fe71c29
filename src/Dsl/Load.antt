-- ===== src/Dsl/Load.antt =====
-- Compile, ParseAndCompile and LoadWithImports of internal/dsl/parser.go. Files are read and parsed
-- by a parameter, and so are the functions of path/filepath. `loadWithImports` recurs on fuel; the
-- theorem in Load.Total bounds it by the number of files that parse.
pub mod Total
pub mod Cycles
mod Tests
use go_bake.Base.{
  ℕ, zero, suc, Bool, true, false, Option, none, some, List, [], ◌∷◌, ◌++◌, Text, contains, nat_eq,
  ltb, ◌==◌, if◌then◌else◌,
}
use go_bake.Config.{File, Target, Suite}
use go_bake.Config.Validate.{ValidationError, validate}
use go_bake.Dsl.Ast.{Position, SuiteEntry, SuiteBlock, TargetBlock, FileEntry, Bakefile}
use go_bake.Dsl.Compile.{compile_target, compile_profile, fold_entries}

abbrev pub dot : ℕ
dot = 46

abbrev pub count_dots : Text → ℕ
count_dots [] = 0
count_dots (c ∷ s) = if nat_eq c dot then suc (count_dots s) else count_dots s

abbrev pub replace_dot : Text → Text
replace_dot [] = []
replace_dot (c ∷ s) = if nat_eq c dot then 32 ∷ s else c ∷ replace_dot s

-- SuiteEntry.Raw
unfoldable pub raw : SuiteEntry → Text
raw (SuiteEntry.quoted v) = v
raw (SuiteEntry.ident v) = if nat_eq (count_dots v) 1 then replace_dot v else v

unfoldable pub suite_targets : List SuiteEntry → List Text
unfolding raw ◌==◌
suite_targets [] = []
suite_targets (e ∷ es) = if raw e == [] then suite_targets es else raw e ∷ suite_targets es

unfoldable pub compile_suite : SuiteBlock → Suite
unfolding suite_targets
compile_suite s = record {
  name = s.name;
  targets = suite_targets s.entries;
  line = if ltb 0 s.pos.line then s.pos.line else 0;
  column = if ltb 0 s.pos.line then s.pos.column else 0;
}

abbrev pub located : Position → Target → Target
located pos t = if ltb 0 pos.line then record t { line = pos.line; column = pos.column } else t

-- The file so far, and `filePrivate`.
pub record Progress : Type 0 where
  pub file : File
  pub file_private : Bool

unfoldable pub compile_file_entry : Progress → FileEntry → Progress
unfolding compile_suite compile_target compile_profile
compile_file_entry p (FileEntry.import_line path) = record p {
  file = record p.file { imports = p.file.imports ++ path ∷ [] };
}
compile_file_entry p FileEntry.private = record p { file_private = true }
compile_file_entry p (FileEntry.profile b) = record p {
  file = record p.file { profiles = p.file.profiles ++ compile_profile b ∷ [] };
}
compile_file_entry p (FileEntry.target b) = record p {
  file = record p.file {
    targets = p.file.targets ++ located b.pos (compile_target b p.file_private) ∷ [];
  };
}
compile_file_entry p (FileEntry.suite b) = record p {
  file = record p.file { suites = p.file.suites ++ compile_suite b ∷ [] };
}

abbrev pub empty_file : List Text → File
empty_file dotenv = record {
  dotenv = dotenv;
  imports = [];
  profiles = [];
  targets = [];
  suites = [];
  root_dir = [];
  bake_path = [];
}

unfoldable pub compile : Bakefile → File
unfolding compile_file_entry fold_entries
compile ast =
    (fold_entries compile_file_entry (record { file = empty_file ast.dotenv; file_private = false })
      ast.entries).file

pub data LoadError : Type 0 where
  resolve_path : (path : Text) → LoadError
  import_cycle : (path : Text) → LoadError
  parse_error : (path : Text) → LoadError
  invalid : List ValidationError → LoadError
  in_import : (path : Text) → LoadError → LoadError

pub data Loaded {ℓ} (A : Type ℓ) : Type ℓ where
  ok : A → Loaded A
  failed : LoadError → Loaded A
  out_of_fuel : Loaded A

infixl 5 ◌>>=◌
abbrev pub ◌>>=◌ {ℓ κ} : {A : Type ℓ} {B : Type κ} → Loaded A → (A → Loaded B) → Loaded B
ok a >>= f = f a
failed e >>= f = failed e
out_of_fuel >>= f = out_of_fuel

abbrev pub or_fail : {A : Type 0} → LoadError → Option A → Loaded A
or_fail e none = failed e
or_fail e (some a) = ok a

-- `fmt.Errorf("import %q: %w", imp, err)`
abbrev pub wrap : {A : Type 0} → Text → Loaded A → Loaded A
wrap imp (ok a) = ok a
wrap imp (failed e) = failed (in_import imp e)
wrap imp out_of_fuel = out_of_fuel

unfoldable pub validated : File → Loaded File
validated cfg = elim (validate cfg) [ [] ↦ ok cfg | e ∷ es ↦ failed (invalid (e ∷ es)) ]

-- The merged file with an imported one appended.
abbrev pub append_file : File → File → File
append_file m i = record m {
  dotenv = m.dotenv ++ i.dotenv;
  profiles = m.profiles ++ i.profiles;
  targets = m.targets ++ i.targets;
  suites = m.suites ++ i.suites;
}

-- The file system: reading and parsing a file, and filepath.Abs, Dir and Join.
pub record Files : Type 0 where
  pub parse : Text → Option Bakefile
  pub abs : Text → Option Text
  pub dir : Text → Text
  pub join : Text → Text → Text

module _ (fs : Files) where
  -- ParseAndCompile
  unfoldable pub parse_and_compile : Text → Loaded File
  unfolding compile validated
  parse_and_compile path = do
    ast ← or_fail (parse_error path) (fs.parse path)
    validated (record (compile ast) { bake_path = path })

  -- The loop over the imports.
  pub merge_imports : (Text → Loaded File) → Text → List Text → File → Loaded File
  merge_imports load root [] merged = ok merged
  merge_imports load root (imp ∷ imps) merged = do
    resolved ← or_fail (in_import imp (resolve_path imp)) (fs.abs (fs.join root imp))
    imported ← wrap imp (load resolved)
    merge_imports load root imps (append_file merged imported)

  -- Without imports the file itself is validated, and otherwise the merged one.
  pub finish_imports : (Text → Loaded File) → File → List Text → Loaded File
  unfolding validated merge_imports
  finish_imports load cfg [] = validated cfg
  finish_imports load cfg (imp ∷ imps) = do
    merged ← merge_imports load cfg.root_dir (imp ∷ imps) (record cfg { imports = [] })
    validated merged

  -- From where the file is parsed to the end.
  pub finish : (Text → Loaded File) → Text → Text → Bakefile → Loaded File
  unfolding compile finish_imports
  finish load path path_abs ast =
      finish_imports load (record (compile ast) { bake_path = path; root_dir = fs.dir path_abs })
        (compile ast).imports

  -- `visited` holds the files that are being loaded: a name is taken out when its load returns.
  pub load_with_imports : ℕ → List Text → Text → Loaded File
  unfolding finish contains
  load_with_imports zero visited path = out_of_fuel
  load_with_imports (suc fuel) visited path = do
    path_abs ← or_fail (resolve_path path) (fs.abs path)
    if contains visited path_abs then failed (import_cycle path) else do
      ast ← or_fail (parse_error path) (fs.parse path)
      finish (load_with_imports fuel (path_abs ∷ visited)) path path_abs ast
