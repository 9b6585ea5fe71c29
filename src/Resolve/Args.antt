-- ===== src/Resolve/Args.antt =====
-- ParseArgs of internal/resolve/args.go. The loop on the index `i` is a recursion on the arguments
-- that are left; a map from step numbers is a list in which the first entry of a step counts.
pub mod Blobs
pub mod Rendered
pub mod Supplied
mod Tests
use go_bake.Base.{
  equals, cut_equals, ℕ, zero, suc, Bool, true, false, ◌&&◌, ◌||◌, not, Option, none, some, List,
  [], ◌∷◌, map, Text, TextMap, lookup, insert, length, nat_eq, ltb, ◌==◌, bytes, if◌then◌else◌,
}
use go_bake.Config.{Target, ArgDecl}

abbrev pub dash : ℕ
dash = 45

abbrev pub dashes : Text
dashes = dash ∷ dash ∷ []

unfoldable pub passthrough_slots : Target → List ℕ
passthrough_slots tgt = elim tgt.passthrough [
  | [] ↦ if ltb 0 tgt.passthrough_step then tgt.passthrough_step ∷ [] else []
  | slot ∷ slots ↦ map (λ s. s.step) (slot ∷ slots)
]

-- The arguments before the first "--", and those behind it.
unfoldable pub cut : List Text → List Text × Option (List Text)
unfolding ◌==◌
cut [] = ([], none)
cut (a ∷ args) =
    let (before, rest) = cut args in if a == dashes then ([], some args) else (a ∷ before, rest)

-- The loop that splits `rest` at each "--"; the length of `rest` is enough fuel.
unfoldable pub split_blobs : ℕ → List Text → List (List Text)
unfolding cut
split_blobs zero rest = []
split_blobs (suc fuel) [] = []
split_blobs (suc fuel) (a ∷ args) =
    let (blob, more) = cut (a ∷ args) in
    elim more [ none ↦ blob ∷ [] | some rest ↦ blob ∷ split_blobs fuel rest ]

abbrev pub StepMap : Type 0
StepMap = List (ℕ × List Text)

unfoldable pub step_args : StepMap → ℕ → List Text
step_args [] k = []
step_args ((j, blob) ∷ m) k = if nat_eq j k then blob else step_args m k

-- Each slot takes the next blob; later writes to a step win.
unfoldable pub fill_slots : List ℕ → List (List Text) → StepMap → StepMap
fill_slots [] blobs m = m
fill_slots (s ∷ slots) [] m = m
fill_slots (s ∷ slots) (blob ∷ blobs) m = fill_slots slots blobs ((s, blob) ∷ m)

unfoldable pub passthrough_by_step : List ℕ → Option (List Text) → StepMap
unfolding split_blobs fill_slots
passthrough_by_step slots none = []
passthrough_by_step [] (some rest) = []
passthrough_by_step (s ∷ []) (some rest) = (s, rest) ∷ []
passthrough_by_step (s ∷ t ∷ slots) (some rest) =
    fill_slots (s ∷ t ∷ slots) (split_blobs (length rest) rest) []

unfoldable pub find_declared_by_short : List ArgDecl → Text → Text
unfolding ◌==◌
find_declared_by_short [] s = []
find_declared_by_short (a ∷ args) s = if a.short == s then a.name else find_declared_by_short args s

unfoldable pub is_declared : List ArgDecl → Text → Bool
unfolding ◌==◌
is_declared [] key = false
is_declared (a ∷ args) key = a.name == key || is_declared args key

-- What one turn of the loop reads: nothing, or a key and its value, with the number of arguments
-- that it takes.
pub data Turn : Type 0 where
  stop : Turn
  skip : Turn
  one : Text → Text → Turn
  two : Text → Text → Turn

abbrev pub with_next : Text → Option Text → Turn
with_next key none = Turn.one key (bytes "true")
with_next key (some value) = Turn.two key value

unfoldable pub read_long : Text → Option Text → Turn
unfolding cut_equals bytes
read_long key next = elim (cut_equals key) [
  | some (k, value) ↦ Turn.one k value
  | none ↦ with_next key next
]

unfoldable pub short_key : List ArgDecl → Text → Text
unfolding find_declared_by_short ◌==◌
short_key args short =
    let key = find_declared_by_short args short in if key == [] then short else key

unfoldable pub read_short : List ArgDecl → Text → Option Text → Turn
unfolding short_key bytes
read_short args (c ∷ d ∷ []) next =
    if nat_eq c dash then with_next (short_key args (d ∷ [])) next else Turn.skip
read_short args a next = Turn.skip

unfoldable pub read : List ArgDecl → Text → Option Text → Turn
unfolding read_long read_short ◌==◌
read args (c ∷ d ∷ key) next =
    if (c ∷ d ∷ key) == dashes
    then Turn.stop
    else if nat_eq c dash && nat_eq d dash
    then read_long key next
    else read_short args (c ∷ d ∷ key) next
read args a next = Turn.skip

-- `declared` and `live`.
pub record Values : Type 0 where
  pub declared : TextMap Text
  pub live : TextMap Text

unfoldable pub store : List ArgDecl → Text → Text → Values → Values
unfolding is_declared insert
store args key value v =
    if is_declared args key
    then record v { declared = insert key value v.declared }
    else record v { live = insert key value v.live }

unfoldable pub read_all : List ArgDecl → List Text → Values → Values
unfolding read store
read_all decls [] v = v
read_all decls (a ∷ []) v = elim (read decls a none) [
  | Turn.stop ↦ v
  | Turn.skip ↦ v
  | Turn.one key value ↦ store decls key value v
  | Turn.two key value ↦ store decls key value v
]
read_all decls (a ∷ b ∷ args) v = elim (read decls a (some b)) [
  | Turn.stop ↦ v
  | Turn.skip ↦ read_all decls (b ∷ args) v
  | Turn.one key value ↦ read_all decls (b ∷ args) (store decls key value v)
  | Turn.two key value ↦ read_all decls args (store decls key value v)
]

unfoldable pub defaults : List ArgDecl → TextMap Text → TextMap Text
unfolding insert
defaults [] m = m
defaults (a ∷ args) m = defaults args (insert a.name a.default m)

abbrev text_of : Option Text → Text
text_of none = []
text_of (some s) = s

-- The first required argument without a value.
unfoldable pub missing : List ArgDecl → TextMap Text → Option Text
unfolding lookup ◌==◌
missing [] declared = none
missing (a ∷ args) declared =
    if a.required && (text_of (lookup a.name declared) == [] && a.default == [])
    then some a.name
    else missing args declared

pub data Parsed : Type 0 where
  parsed : Values → StepMap → Parsed
  required_arg_missing : Text → Parsed

unfoldable pub finish_parse : Target → Values → Option (List Text) → Parsed
unfolding passthrough_slots passthrough_by_step missing
finish_parse tgt v rest = elim (missing tgt.args v.declared) [
  | some name ↦ Parsed.required_arg_missing name
  | none ↦ Parsed.parsed v (passthrough_by_step (passthrough_slots tgt) rest)
]

unfoldable pub parse_args : Target → List Text → Parsed
unfolding cut read_all defaults finish_parse
parse_args tgt args =
    let (before, rest) = cut args in
    finish_parse tgt
      (read_all tgt.args before (record { declared = defaults tgt.args []; live = [] })) rest
