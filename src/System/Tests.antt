-- ===== src/System/Tests.antt =====
-- A small machine for the tests: files, and the commands that have been run.
use go_bake.Base.{
  false, ℕ, zero, suc, Option, none, some, List, [], ◌∷◌, ◌++◌, map, Text, TextMap, bytes, lookup,
  insert, ◌==◌, if◌then◌else◌,
}
use go_bake.System.{System, DirRead, FileRead, FileStat}
use go_bake.Resolve.Expand.{is_empty}
use go_bake.Cache.{Manifest, Codec}

pub record Machine : Type 0 where
  pub files : TextMap Text
  pub ran : List (List Text)

abbrev pub fresh : TextMap Text → Machine
fresh files = record { files = files; ran = [] }

abbrev pub read_of : Option Text → FileRead
read_of none = FileRead.not_exist
read_of (some c) = FileRead.contents c

abbrev stat_of : Option Text → FileStat
stat_of none = FileStat.not_exist
stat_of (some c) = FileStat.file 7

abbrev matches : Text → Option Text → List Text
matches p none = []
matches p (some c) = p ∷ []

abbrev failing : Text
failing = bytes "false"

-- A command whose first argument is `out` writes the file `out`; `false` fails.
abbrev pub execute : List Text → Machine → Option Text × Machine
execute [] m = (some failing, m)
execute (a ∷ args) m =
    if a == failing
    then (some failing, record m { ran = m.ran ++ (a ∷ args) ∷ [] })
    else (none, record { files = insert a a m.files; ran = m.ran ++ (a ∷ args) ∷ [] })

abbrev pub machine : System
machine = record {
  World = Machine;
  environ = [];
  getenv = λ name. [];
  exec = λ p m. execute p.argv m;
  run_container = λ c m. (none, m);
  read_file = λ path m. read_of (lookup path m.files);
  read_dir = λ path m. DirRead.entries (map (λ p. (p.0, false)) m.files);
  write_file = λ path c m. (none, record m { files = insert path c m.files });
  make_dirs = λ path m. (none, m);
  stat = λ path m. stat_of (lookup path m.files);
  glob = λ p m. some (matches p (lookup p m.files));
  walk = λ p m. some [];
  rel = λ root p. some p;
  join = λ root p. if is_empty root then p else root ++ b'/' ∷ p;
  clean = λ p. p;
  sha256 = λ s. s;
  hex = λ s. s;
  expand = λ d s. some s;
}

-- A codec: a list of texts as one text, each byte one up and each text ended by a zero.
abbrev pub pack : List Text → Text
pack [] = []
pack (s ∷ ss) = map suc s ++ 0 ∷ pack ss

abbrev pub onto : ℕ → List Text → List Text
onto c [] = (c ∷ []) ∷ []
onto c (s ∷ ss) = (c ∷ s) ∷ ss

abbrev pub unpack : Text → List Text
unpack [] = []
unpack (zero ∷ s) = [] ∷ unpack s
unpack (suc c ∷ s) = onto c (unpack s)

abbrev pairs : TextMap Text → List Text
pairs [] = []
pairs ((k, v) ∷ m) = k ∷ v ∷ pairs m

abbrev unpairs : List Text → TextMap Text
unpairs [] = []
unpairs (k ∷ []) = []
unpairs (k ∷ v ∷ ss) = (k, v) ∷ unpairs ss

abbrev number : Text → ℕ
number [] = 0
number (n ∷ s) = n

abbrev decode : List Text → Option Manifest
decode [] = none
decode (a ∷ []) = none
decode (a ∷ b ∷ []) = none
decode (a ∷ b ∷ c ∷ []) = none
decode (a ∷ b ∷ c ∷ d ∷ []) = none
decode (a ∷ b ∷ c ∷ d ∷ e ∷ more) = some (record {
  target_name = a;
  input_hash = b;
  input_hashes = unpairs (unpack c);
  output_paths = unpack d;
  output_mtimes = map (λ p. (p.0, number p.1)) (unpairs (unpack e));
})

abbrev pub codec : Codec
codec = record {
  marshal = λ m. pack (
      m.target_name
      ∷ m.input_hash
      ∷ pack (pairs m.input_hashes)
      ∷ pack m.output_paths
      ∷ pack (pairs (map (λ p. (p.0, p.1 ∷ [])) m.output_mtimes))
      ∷ []);
  unmarshal = λ s. decode (unpack s);
}
