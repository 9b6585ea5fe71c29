-- ===== src/Env.antt =====
-- internal/env/load.go: the environment of a step. Files are a parameter: what opening and scanning
-- a path gives. A nil map is the empty one.
pub mod Merged
pub mod Lines
mod Tests
use go_bake.Base.{
  drop_last, ℕ, Bool, true, false, ◌&&◌, ◌||◌, Option, none, some, List, [], ◌∷◌, Text, TextMap,
  insert, overlay, nat_eq, trim_left, trim_right, trim_space, cut_equals, if◌then◌else◌,
}

abbrev pub last_byte : Text → ℕ
last_byte [] = 0
last_byte (c ∷ []) = c
last_byte (c ∷ d ∷ s) = last_byte (d ∷ s)

-- The optional quotes around a value.
unfoldable pub unquote : Text → Text
unquote [] = []
unquote (c ∷ []) = c ∷ []
unquote (c ∷ d ∷ s) =
    if nat_eq c b'"' && nat_eq (last_byte (d ∷ s)) b'"'
      || nat_eq c b'\'' && nat_eq (last_byte (d ∷ s)) b'\''
    then drop_last (d ∷ s)
    else c ∷ d ∷ s

abbrev is_comment : Text → Bool
is_comment [] = true
is_comment (c ∷ s) = nat_eq c b'#'

-- A line with an '=' that is not its first byte.
abbrev pub assignment : Option (Text × Text) → Option (Text × Text)
assignment none = none
assignment (some ([], value)) = none
assignment (some (c ∷ key, value)) = some (c ∷ key, value)

unfoldable pub trim_pair : Option (Text × Text) → Option (Text × Text)
unfolding trim_left trim_right unquote
trim_pair none = none
trim_pair (some (key, value)) = some (trim_space key, unquote (trim_space value))

unfoldable pub parse_trimmed : Text → Option (Text × Text)
unfolding cut_equals trim_pair
parse_trimmed line = if is_comment line then none else trim_pair (assignment (cut_equals line))

unfoldable pub parse_line : Text → Option (Text × Text)
unfolding trim_left trim_right parse_trimmed
parse_line text = parse_trimmed (trim_space text)

unfoldable pub store_line : Option (Text × Text) → TextMap Text → TextMap Text
unfolding insert
store_line none out = out
store_line (some (key, value)) out = insert key value out

unfoldable pub read_lines : List Text → TextMap Text → TextMap Text
unfolding parse_line store_line
read_lines [] out = out
read_lines (l ∷ ls) out = read_lines ls (store_line (parse_line l) out)

-- What opening and scanning a file gives.
pub data FileText : Type 0 where
  not_exist : FileText
  failed : FileText
  lines : List Text → FileText

pub data Dotenv : Type 0 where
  loaded : TextMap Text → Dotenv
  load_failed : Text → Dotenv

-- `filepath.Join` with the root directory, and the files.
module _ (join : Text → Text) (read : Text → FileText) where
  unfoldable pub load_files : List Text → TextMap Text → Dotenv
  unfolding read_lines overlay
  load_files [] out = Dotenv.loaded out
  load_files (name ∷ names) out = elim (read (join name)) [
    | FileText.not_exist ↦ load_files names out
    | FileText.failed ↦ Dotenv.load_failed (join name)
    | FileText.lines ls ↦ load_files names (overlay (read_lines ls []) out)
  ]

  unfoldable pub load_dotenv : List Text → Dotenv
  unfolding load_files
  load_dotenv names = load_files names []

abbrev process_entry : Option (Text × Text) → Option (Text × Text)
process_entry none = none
process_entry (some (key, value)) = some (trim_space key, trim_space value)

unfoldable pub process_map : List Text → TextMap Text → TextMap Text
unfolding trim_left trim_right cut_equals store_line
process_map [] base = base
process_map (s ∷ ss) base =
    process_map ss (store_line (process_entry (assignment (cut_equals s))) base)

unfoldable pub merge : List Text → TextMap Text → TextMap Text → TextMap Text → TextMap Text
unfolding process_map overlay
merge process_env dotenv target_env cli_env =
    overlay cli_env (overlay target_env (overlay dotenv (process_map process_env [])))
