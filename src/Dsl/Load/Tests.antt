-- ===== src/Dsl/Load/Tests.antt =====
-- Loading from a small file system: paths are single bytes, `m` imports `l`, and `x` itself.
use go_bake.Base.{
  suc, ◌≡◌, ◌≢◌, refl, none, some, Option, [], ◌∷◌, Text, bytes, contains, ◌==◌, length, nat_eq,
  collect, lookup, insert, arith, if◌then◌else◌,
}
use go_bake.Config.{File, target_by_name, find_target}
use go_bake.Config.Validate.{validate}
use go_bake.Dsl.Ast.{FileEntry, Bakefile}
use go_bake.Dsl.Load
use go_bake.Dsl.Load.{
  Files, ok, failed, out_of_fuel, compile, validated, load_with_imports, finish, finish_imports,
  merge_imports,
}
use go_bake.Dsl.Load.Total.{IsListed, load_with_imports-total}
use go_bake.Dsl.Load.Cycles.{HasCycle, load_with_imports-acyclic}

abbrev m : Text
m = b'm' ∷ []

abbrev l : Text
l = b'l' ∷ []

abbrev x : Text
x = b'x' ∷ []

abbrev target : Text → FileEntry
target name =
    FileEntry.target
      (record { pos = record { line = 1; column = 1 }; name = name; body = none; cmd_tok = [] })

abbrev parse : Text → Option Bakefile
parse [] = none
parse (c ∷ s) =
    if nat_eq c b'm'
    then some (record { dotenv = []; entries = FileEntry.import_line l ∷ target m ∷ [] })
    else if nat_eq c b'l'
    then some (record { dotenv = []; entries = target l ∷ [] })
    else if nat_eq c b'x'
    then some (record { dotenv = []; entries = FileEntry.import_line x ∷ [] })
    else none

-- A path is the file's first byte.
abbrev head : Text → Text
head [] = []
head (c ∷ s) = c ∷ []

abbrev files : Files
files = record { parse = parse; abs = λ p. some (head p); dir = λ p. []; join = λ d p. p }

run : Unit {0}
unfolding load_with_imports finish finish_imports merge_imports validated validate compile contains
    ◌==◌ target_by_name find_target lookup insert collect bytes
run = tt

self_import : load_with_imports files 4 [] x ≡ failed (Load.in_import x (Load.import_cycle x))
unfolding run
self_import = refl

abbrev merged : File
unfolding compile
merged = record (compile (record { dotenv = []; entries = target m ∷ target l ∷ [] })) {
  bake_path = m;
}

loads : load_with_imports files 4 [] m ≡ ok merged
unfolding run
loads = refl

files-IsListed : IsListed files (m ∷ l ∷ x ∷ [])
unfolding contains ◌==◌
files-IsListed [] p ast e f = cc
files-IsListed (c ∷ s) p ast e f = ground arith

load_with_imports-total_example :
    load_with_imports files (suc (length (m ∷ l ∷ x ∷ []))) [] x ≢ out_of_fuel
load_with_imports-total_example = load_with_imports-total files (m ∷ l ∷ x ∷ []) files-IsListed x

load_with_imports-acyclic_example : (validate merged ≡ []) × (¬ HasCycle files m)
load_with_imports-acyclic_example = load_with_imports-acyclic files 4 m merged loads
