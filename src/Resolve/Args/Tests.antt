-- ===== src/Resolve/Args/Tests.antt =====
-- ParseArgs on the arguments of a small target.
use go_bake.Base.{
  inl, none, IsKey, ◌≡◌, ◌≢◌, refl, true, false, ◌⊎◌, none, some, List, [], ◌∷◌, ◌++◌, map, Text,
  lookup, insert, or_else, last_lookup, All, contains, ◌==◌, bytes, if◌then◌else◌,
}
use go_bake.Config.{Target, ArgDecl, new_target}
use go_bake.Resolve.Args.{
  dashes, Values, Parsed, parse_args, defaults, text_of, is_declared, passthrough_slots,
  passthrough_by_step, cut, read, store, read_all, missing,
}
use go_bake.Resolve.Args.Blobs.{Filled, passthrough_by_step-Filled}
use go_bake.Resolve.Args.Supplied.{parse_args-supplied}
use go_bake.Resolve.Args.Rendered.{render}

-- The argument `env` is required and has the short name `e`.
abbrev env : ArgDecl
env = record {
  name = b'e' ∷ b'n' ∷ b'v' ∷ [];
  type = [];
  short = b'e' ∷ [];
  default = [];
  required = true;
  enum = [];
}

abbrev deploy : Target
deploy = record (new_target (b'd' ∷ []) false) { args = env ∷ []; passthrough_step = 1 }

abbrev prod : Text
prod = b'p' ∷ []

abbrev dev : Text
dev = b'd' ∷ []

abbrev tag : Text
tag = b't' ∷ []

run : Unit {0}
unfolding parse_args cut read store read_all missing defaults is_declared lookup insert ◌==◌
    contains passthrough_slots passthrough_by_step
run = tt

-- `-e p -t`, then `-- d`
abbrev short_form : List Text
short_form = (b'-' ∷ b'e' ∷ []) ∷ prod ∷ (b'-' ∷ b't' ∷ []) ∷ dashes ∷ dev ∷ []

abbrev short_values : Values
short_values = record {
  declared = (env.name, prod) ∷ [];
  live = (tag, b't' ∷ b'r' ∷ b'u' ∷ b'e' ∷ []) ∷ [];
}

parse_args-short : parse_args deploy short_form ≡ Parsed.parsed short_values ((1, dev ∷ []) ∷ [])
unfolding run bytes
parse_args-short = refl

parse_args-missing : parse_args deploy (dev ∷ []) ≡ Parsed.required_arg_missing env.name
unfolding run bytes
parse_args-missing = refl

-- `env` twice, and a key that is not declared.
abbrev pairs : List (Text × Text)
pairs = (env.name, dev) ∷ (tag, dev) ∷ (env.name, prod) ∷ []

abbrev long_values : Values
long_values = record { declared = (env.name, prod) ∷ []; live = (tag, dev) ∷ [] }

pairs-IsKey : All (λ p. IsKey p.0) pairs
pairs-IsKey = ((refl, (refl, (refl, tt))), ((refl, tt), ((refl, (refl, (refl, tt))), tt)))

dev-plain : contains (dev ∷ prod ∷ []) dashes ≡ false
unfolding run
dev-plain = refl

prod-plain : contains (prod ∷ []) dashes ≡ false
unfolding run
prod-plain = refl

prod-not_empty : (prod ∷ []) ≢ []
prod-not_empty e = cc

passthrough_by_step-Filled_example :
    Filled
      (passthrough_by_step (2 ∷ 4 ∷ []) (some (dev ∷ prod ∷ dashes ∷ prod ∷ [])))
      (2 ∷ 4 ∷ [])
      ((dev ∷ prod ∷ []) ∷ (prod ∷ []) ∷ [])
passthrough_by_step-Filled_example =
    passthrough_by_step-Filled 2 4 [] ((dev ∷ prod ∷ []) ∷ (prod ∷ []) ∷ []) ((refl, tt), (tt, tt))
      (dev-plain, (prod-plain, prod-not_empty))

env-supplied :
    All
      (λ a.
        a.required ≡ true
        → (text_of (
              or_else
                (if is_declared (env ∷ []) a.name then last_lookup a.name pairs else none)
                (lookup a.name (defaults (env ∷ []) [])))
            ≢ [])
          ⊎ (a.default ≢ []))
      (env ∷ [])
unfolding run last_lookup
env-supplied = (λ r. inl (λ e. cc), tt)

parse_args-supplied_example :
    (v : Values) × (parse_args deploy (map render pairs ++ dashes ∷ dev ∷ [])
      ≡ Parsed.parsed v (passthrough_by_step (passthrough_slots deploy) (some (dev ∷ []))))
parse_args-supplied_example = parse_args-supplied deploy pairs (dev ∷ []) pairs-IsKey env-supplied
