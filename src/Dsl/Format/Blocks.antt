-- ===== src/Dsl/Format/Blocks.antt =====
-- writeBakefile of internal/dsl/format.go, and what it writes for a profile, a target and a suite.
-- writeDaemon, which nothing calls, is left out.
pub mod Canonical
pub mod Read
use go_bake.Base.{
  Bool, true, false, ◌||◌, Option, none, some, List, [], ◌∷◌, ◌++◌, map, Text, bytes, collect,
  nat_eq, sort_by, text_leb, if◌then◌else◌,
}
use go_bake.Resolve.Expand.{is_empty}
use go_bake.Dsl.Ast.{
  ExecElem, BodyEntry, TargetBlock, ProfileEntry, ProfileBlock, SuiteEntry, SuiteBlock, FileEntry,
  Bakefile,
}
use go_bake.Dsl.Order.{order_body_entries}
use go_bake.Dsl.Load.{raw}
use go_bake.Dsl.Format.{spaced, newline, write_exec_elem, write_env}
use go_bake.Dsl.Format.Entries.{write_body_entry}
use go_bake.Dsl.Token.{write_quoted}

unfoldable pub write_profile_entry : ProfileEntry → Text
unfolding write_exec_elem write_env collect bytes
write_profile_entry (ProfileEntry.dotenv paths) =
    if is_empty paths
    then []
    else bytes "  dotenv" ++ collect (λ p. spaced (write_exec_elem p)) paths ++ newline
write_profile_entry (ProfileEntry.env pairs) =
    if is_empty pairs then [] else write_env (bytes "  ") pairs

unfoldable pub write_profile : ProfileBlock → Text
unfolding write_profile_entry collect bytes
write_profile p =
    bytes "profile "
    ++ p.name
    ++ bytes " {"
    ++ newline
    ++ collect write_profile_entry p.body
    ++ bytes "}"
    ++ newline

unfoldable pub write_body : Option (List BodyEntry) → Text
unfolding write_body_entry order_body_entries collect bytes
write_body none = []
write_body (some es) = collect (write_body_entry (bytes "  ")) (order_body_entries es)

unfoldable pub write_target : TargetBlock → Text
unfolding write_body collect bytes
write_target t =
    if is_empty t.cmd_tok
    then bytes "target "
      ++ t.name
      ++ bytes " {"
      ++ newline
      ++ write_body t.body
      ++ bytes "}"
      ++ newline
    else bytes "target " ++ t.name ++ bytes " cmd" ++ collect spaced t.cmd_tok ++ newline

-- strings.Replace(raw, " ", ".", 1)
unfoldable pub replace_space : Text → Text
replace_space [] = []
replace_space (c ∷ s) = let rest = replace_space s in if nat_eq c b' ' then b'.' ∷ s else c ∷ rest

unfoldable pub write_entry_text : SuiteEntry → Text
unfolding replace_space
write_entry_text (SuiteEntry.ident v) = v
write_entry_text (SuiteEntry.quoted v) = replace_space v

unfoldable pub write_suite_entry : SuiteEntry → Text
unfolding write_entry_text bytes
write_suite_entry e = bytes "  " ++ write_entry_text e ++ newline

unfoldable pub write_suite : SuiteBlock → Text
unfolding write_suite_entry raw sort_by text_leb collect bytes
write_suite s =
    bytes "suite "
    ++ s.name
    ++ bytes " {"
    ++ newline
    ++ collect write_suite_entry (sort_by raw s.entries)
    ++ bytes "}"
    ++ newline

-- What one entry of a file adds to the slices of its groups.
abbrev pub import_in : FileEntry → List Text
import_in (FileEntry.import_line path) = path ∷ []
import_in _ = []

abbrev pub suite_in : FileEntry → List SuiteBlock
suite_in (FileEntry.suite s) = s ∷ []
suite_in _ = []

abbrev pub profile_in : FileEntry → List ProfileBlock
profile_in (FileEntry.profile p) = p ∷ []
profile_in _ = []

abbrev pub target_in : FileEntry → List TargetBlock
target_in (FileEntry.target t) = t ∷ []
target_in _ = []

abbrev pub is_private : FileEntry → Bool
is_private FileEntry.private = true
is_private _ = false

unfoldable pub has_private : List FileEntry → Bool
has_private [] = false
has_private (e ∷ es) = is_private e || has_private es

unfoldable pub write_dotenv : List Text → Text
unfolding collect bytes
write_dotenv files =
    if is_empty files then [] else bytes "dotenv" ++ collect spaced files ++ newline ++ newline

unfoldable pub write_import : Text → Text
unfolding write_quoted bytes
write_import path = bytes "import " ++ write_quoted path ++ newline

-- A blank line between two blocks.
unfoldable pub write_blocks : List Text → Text
unfolding collect
write_blocks [] = []
write_blocks (b ∷ bs) = b ++ collect (λ x. newline ++ x) bs

abbrev pub private_line : Bool → List Text
private_line false = []
private_line true = (bytes "private" ++ newline) ∷ []

-- The blocks in the order of the output, from the slices.
unfoldable pub blocks_of :
    List Text → Bool → List SuiteBlock → List ProfileBlock → List TargetBlock → List Text
unfolding write_import write_suite write_profile write_target sort_by text_leb bytes
blocks_of imports private suites profiles targets =
    map write_import imports
    ++ private_line private
    ++ map write_suite (sort_by (λ s. s.name) suites)
    ++ map write_profile (sort_by (λ p. p.name) profiles)
    ++ map write_target (sort_by (λ t. t.name) targets)

unfoldable pub blocks : List FileEntry → List Text
unfolding blocks_of has_private collect
blocks es =
    blocks_of (collect import_in es) (has_private es) (collect suite_in es) (collect profile_in es)
      (collect target_in es)

unfoldable pub write_bakefile : Bakefile → Text
unfolding write_dotenv write_blocks blocks
write_bakefile ast = write_dotenv ast.dotenv ++ write_blocks (blocks ast.entries)
