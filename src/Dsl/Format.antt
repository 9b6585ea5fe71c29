-- ===== src/Dsl/Format.antt =====
-- internal/dsl/format.go: the text that the formatter writes. The writer is left out; what it gets
-- is the text here. sort.Slice is an insertion sort: the order of blocks with one name is left open
-- by Go. In a valid tree no pointer of a list is nil.
pub mod Entries
pub mod Blocks
mod Tests
use go_bake.Base.{
  ℕ, Bool, true, false, ◌&&◌, ◌||◌, not, Option, none, some, List, [], ◌∷◌, ◌++◌, Text, bytes,
  decimal, collect, nat_eq, if◌then◌else◌,
}
use go_bake.Resolve.Expand.{is_empty}
use go_bake.Dsl.Ast.{
  ExecElem, EnvPair, ArgsClause, Step, PresetEntry, PresetBlock, ImageClause, ScheduleClause,
  WorkflowEntry,
}
use go_bake.Dsl.Token.{write_quoted, first_is}

-- The bytes of the switch of needsQuoting.
abbrev is_special : ℕ → Bool
is_special c =
    nat_eq c b' '
    || nat_eq c 9
    || nat_eq c b'"'
    || nat_eq c b','
    || nat_eq c b'='
    || nat_eq c b'['
    || nat_eq c b']'
    || nat_eq c b'{'
    || nat_eq c b'}'
    || nat_eq c b'*'
    || nat_eq c b'?'

unfoldable pub any_special : Text → Bool
any_special [] = false
any_special (c ∷ s) = is_special c || any_special s

unfoldable pub needs_quoting : Text → Bool
unfolding any_special
needs_quoting s = is_empty s || first_is b'-' s || any_special s

unfoldable pub write_env_value : Text → Text
unfolding needs_quoting write_quoted
write_env_value v = if needs_quoting v then write_quoted v else v

unfoldable pub write_exec_elem : ExecElem → Text
unfolding write_quoted
write_exec_elem e = write_quoted e.value

-- The turns of the loop with an index above 0, and the whole loop.
unfoldable pub write_more_elems : List ExecElem → Text
unfolding write_exec_elem bytes
write_more_elems [] = []
write_more_elems (e ∷ es) = bytes ", " ++ write_exec_elem e ++ write_more_elems es

unfoldable pub write_elems : List ExecElem → Text
unfolding write_exec_elem write_more_elems
write_elems [] = []
write_elems (e ∷ es) = write_exec_elem e ++ write_more_elems es

abbrev pub spaced : Text → Text
spaced s = b' ' ∷ s

abbrev pub newline : Text
newline = 10 ∷ []

unfoldable pub write_pair : EnvPair → Text
unfolding write_env_value
write_pair p = spaced p.key ++ spaced (write_env_value p.value)

unfoldable pub write_env : Text → List EnvPair → Text
unfolding write_pair collect bytes
write_env indent pairs =
    indent ++ bytes "env {" ++ collect write_pair pairs ++ bytes " }" ++ newline

unfoldable pub write_step : Step → Text
unfolding write_elems write_quoted collect bytes
write_step (Step.exec argv) = bytes "exec [" ++ write_elems argv ++ bytes "]"
write_step (Step.cmd toks) = if is_empty toks then [] else bytes "cmd" ++ collect spaced toks
write_step (Step.shell runner script) =
    bytes "shell" ++ spaced runner ++ spaced (write_quoted script)

unfoldable pub write_steps : Text → List Step → Text
unfolding write_step collect bytes
write_steps indent [] = indent ++ bytes "steps { }" ++ newline
write_steps indent (s ∷ []) = indent ++ bytes "steps { " ++ write_step s ++ bytes " }" ++ newline
write_steps indent (s ∷ t ∷ steps) =
    indent
    ++ bytes "steps {"
    ++ collect (λ x. newline ++ indent ++ bytes "  " ++ write_step x) (s ∷ t ∷ steps)
    ++ newline
    ++ indent
    ++ bytes "}"
    ++ newline

unfoldable pub write_desc : Text → Text → Text
unfolding write_quoted bytes
write_desc indent text = indent ++ bytes "desc " ++ write_quoted text ++ newline

unfoldable pub write_list : Text → Text → List ExecElem → Text
unfolding write_elems bytes
write_list indent word es = indent ++ word ++ bytes " [" ++ write_elems es ++ bytes "]" ++ newline

-- An entry of a preset; blocks that are empty are left out.
unfoldable pub write_preset_entry : Text → PresetEntry → Text
unfolding write_desc write_steps write_list write_env bytes
write_preset_entry indent (PresetEntry.desc text) = write_desc (indent ++ bytes "  ") text
write_preset_entry indent (PresetEntry.steps steps) =
    if is_empty steps then [] else write_steps (indent ++ bytes "  ") steps
write_preset_entry indent (PresetEntry.argv argv) =
    write_list (indent ++ bytes "  ") (bytes "argv") argv
write_preset_entry indent (PresetEntry.env pairs) =
    if is_empty pairs then [] else write_env (indent ++ bytes "  ") pairs

unfoldable pub write_preset : Text → PresetBlock → Text
unfolding write_preset_entry collect bytes
write_preset indent p =
    indent
    ++ bytes "preset"
    ++ spaced p.name
    ++ bytes " {"
    ++ newline
    ++ collect (write_preset_entry indent) p.body
    ++ indent
    ++ bytes "}"
    ++ newline

unfoldable pub write_schedule : ScheduleClause → Text
unfolding write_quoted bytes
write_schedule (ScheduleClause.cron c) = bytes " schedule cron " ++ write_quoted c
write_schedule (ScheduleClause.interval i) = bytes " schedule interval " ++ write_quoted i

unfoldable pub write_workflow_entry : WorkflowEntry → Text
unfolding write_schedule
write_workflow_entry (WorkflowEntry.ident n) = if is_empty n then [] else spaced n
write_workflow_entry (WorkflowEntry.schedule s) = write_schedule s

unfoldable pub write_image : Text → ImageClause → Text
unfolding write_quoted bytes
write_image indent (ImageClause.ident i) = indent ++ bytes "image " ++ i ++ newline
write_image indent (ImageClause.string s) = indent ++ bytes "image " ++ write_quoted s ++ newline

-- A text that may be missing or empty, in quotes behind a word.
unfoldable pub write_optional : Text → Option Text → Text
unfolding write_quoted
write_optional word none = []
write_optional word (some s) = if is_empty s then [] else word ++ write_quoted s

unfoldable pub write_args : Text → ArgsClause → Text
unfolding bytes
write_args indent a =
    indent
    ++ bytes "args"
    ++ spaced a.name
    ++ spaced a.type
    ++ (if is_empty a.short then [] else spaced a.short)
    ++ (if is_empty a.default then [] else spaced a.default)
    ++ newline

unfoldable pub join_comma : List Text → Text
unfolding bytes
join_comma [] = []
join_comma (n ∷ []) = n
join_comma (n ∷ m ∷ ns) = n ++ bytes ", " ++ join_comma (m ∷ ns)
