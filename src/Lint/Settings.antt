-- ===== src/Lint/Settings.antt =====
-- The configuration of internal/lint/config.go that is kept in memory, and Run of rules.go.
use go_bake.Base.{
  ◌≡◌, Bool, true, false, not, List, [], ◌∷◌, Text, bytes, map, ◌==◌, ==_iff, ==_refl, arith,
  if◌then◌else◌, collect,
}
use go_bake.Dsl.Ast.{Bakefile}
use go_bake.Lint.Rules.{Finding, prefer_exec, brackets_only, require_desc, prefer_quoted_exec}

pub record RuleConfig : Type 0 where
  pub id : Text
  pub severity : Text

abbrev pub Settings : Type 0
Settings = List RuleConfig

abbrev pub disabled : Text
unfolding bytes
disabled = bytes "disabled"

abbrev pub warn : Text
unfolding bytes
warn = bytes "warn"

-- Config.RuleEnabled
unfoldable pub rule_enabled : Settings → Text → Bool
unfolding ◌==◌
rule_enabled [] id = true
rule_enabled (r ∷ rs) id = if r.id == id then not (r.severity == disabled) else rule_enabled rs id

-- Config.Severity
unfoldable pub severity : Settings → Text → Text
unfolding ◌==◌
severity [] id = warn
severity (r ∷ rs) id =
    if r.id == id then (if r.severity == [] then warn else r.severity) else severity rs id

-- Config.DisableRule
unfoldable pub disable_rule : Settings → Text → Settings
unfolding ◌==◌
disable_rule [] id = record { id = id; severity = disabled } ∷ []
disable_rule (r ∷ rs) id =
    if r.id == id then record r { severity = disabled } ∷ rs else r ∷ disable_rule rs id

-- A rule of the registry: its id and its run.
pub record Rule : Type 0 where
  pub id : Text
  pub run : Text → Bakefile → List Finding

abbrev pub prefer_exec_id : Text
unfolding bytes
prefer_exec_id = bytes "prefer-exec"

abbrev pub registry : List Rule
unfolding bytes
registry =
    record { id = bytes "prefer-exec"; run = prefer_exec }
    ∷ record { id = bytes "brackets-only"; run = brackets_only }
    ∷ record { id = bytes "require-desc"; run = require_desc }
    ∷ record { id = bytes "prefer-quoted-exec"; run = prefer_quoted_exec }
    ∷ []

-- DefaultConfig
abbrev pub default_config : Settings
default_config = map (λ (r : Rule). record { id = r.id; severity = warn }) registry

abbrev pub tag : Text → Finding → Finding
tag id f = record f { rule_id = id }

unfoldable pub run_rule : Settings → Text → Bakefile → Rule → List Finding
unfolding rule_enabled
run_rule cfg path ast r = if rule_enabled cfg r.id then map (tag r.id) (r.run path ast) else []

-- Run
unfoldable pub run : Settings → Text → Bakefile → List Finding
unfolding run_rule collect
run cfg path ast = collect (run_rule cfg path ast) registry

rule_enabled-disable_self :
    (cfg : Settings) (id : Text) → rule_enabled (disable_rule cfg id) id ≡ false
unfolding rule_enabled disable_rule
rule_enabled-disable_self [] id = ground (arith, ==_refl id, ==_refl disabled)
rule_enabled-disable_self (r ∷ rs) id =
    ground (arith, rule_enabled-disable_self rs id, ==_refl disabled, ==_refl id)

-- Disabling a rule turns that rule off, and leaves every other rule as it was.
pub rule_enabled-disable_rule :
    (cfg : Settings) (id other : Text)
    → rule_enabled (disable_rule cfg id) other
      ≡ (if id == other then false else rule_enabled cfg other)
unfolding rule_enabled disable_rule
rule_enabled-disable_rule [] id other = ground (arith, ==_refl disabled)
rule_enabled-disable_rule (r ∷ rs) id other = ground (
  arith,
  rule_enabled-disable_rule rs id other,
  ==_iff r.id id,
  ==_iff r.id other,
  ==_iff id other,
  ==_refl disabled,
)
