-- ===== src/Env/Tests.antt =====
-- The environment on small inputs.
use go_bake.Base.{
  ◌≡◌, refl, List, [], ◌∷◌, Text, TextMap, lookup, insert, overlay, trim_left, trim_right,
  cut_equals, ◌==◌, if◌then◌else◌,
}
use go_bake.Env.{FileText, Dotenv, load_dotenv, merge, process_map, parse_line, unquote, read_lines}
use go_bake.Env.Merged.{in_files, load_dotenv-in_files}

run : Unit {0}
unfolding load_dotenv merge process_map parse_line unquote read_lines lookup insert overlay
    trim_left trim_right cut_equals ◌==◌
run = tt

abbrev path : Text
path = b'P' ∷ []

abbrev mode : Text
mode = b'M' ∷ []

-- `P = 'a'`, a comment, and a line without a name.
abbrev dotenv_lines : List Text
dotenv_lines =
    (b'P' ∷ b' ' ∷ b'=' ∷ b' ' ∷ b'\'' ∷ b'a' ∷ b'\'' ∷ [])
    ∷ (b' ' ∷ b'#' ∷ b'x' ∷ b'=' ∷ [])
    ∷ (b'=' ∷ b'x' ∷ [])
    ∷ []

read_lines-dotenv : read_lines dotenv_lines [] ≡ (path, b'a' ∷ []) ∷ []
unfolding run
read_lines-dotenv = refl

abbrev join : Text → Text
join name = b'/' ∷ name

-- The file `/a`, the file `/b` with another value for `P`, and no other file.
abbrev read : Text → FileText
read [] = FileText.failed
read (c ∷ []) = FileText.not_exist
read (c ∷ d ∷ s) =
    if (d ∷ s) == (b'a' ∷ [])
    then FileText.lines dotenv_lines
    else if (d ∷ s) == (b'b' ∷ [])
    then FileText.lines ((b'P' ∷ b'=' ∷ b'b' ∷ []) ∷ [])
    else FileText.not_exist

abbrev names : List Text
names = (b'a' ∷ []) ∷ (b'b' ∷ []) ∷ (b'c' ∷ []) ∷ []

load_dotenv-names : load_dotenv join read names ≡ Dotenv.loaded ((path, b'b' ∷ []) ∷ [])
unfolding run
load_dotenv-names = refl

load_dotenv-in_files_example : lookup path ((path, b'b' ∷ []) ∷ []) ≡ in_files join read names path
load_dotenv-in_files_example =
    load_dotenv-in_files join read names ((path, b'b' ∷ []) ∷ []) load_dotenv-names path

abbrev dotenv : TextMap Text
dotenv = (path, b'b' ∷ []) ∷ []

abbrev target_env : TextMap Text
target_env = (mode, b't' ∷ []) ∷ (path, b't' ∷ []) ∷ []

abbrev cli_env : TextMap Text
cli_env = (mode, b'c' ∷ []) ∷ []

abbrev process_env : List Text
process_env = (b'P' ∷ b'=' ∷ b'p' ∷ []) ∷ []

merge-sample :
    merge process_env dotenv target_env cli_env ≡ (path, b't' ∷ []) ∷ (mode, b'c' ∷ []) ∷ []
unfolding run
merge-sample = refl
