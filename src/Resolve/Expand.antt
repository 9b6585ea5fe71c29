-- ===== src/Resolve/Expand.antt =====
-- internal/resolve/expand.go and TemplateData of internal/resolve/args.go. Templates are expanded by
-- a parameter.
use mathlib.Core.Option
use go_bake.Base.{
  Bool, true, false, ◌&&◌, not, Option, some, List, [], ◌∷◌, Text, TextMap, if◌then◌else◌,
}

-- The map of TemplateData: the declared arguments, and the live ones under "live" if there are any.
pub record Data : Type 0 where
  pub declared : TextMap Text
  pub live : TextMap Text

abbrev pub is_empty {ℓ} : {A : Type ℓ} → List A → Bool
is_empty [] = true
is_empty (x ∷ xs) = false

-- `len(data) > 0`
abbrev pub has_data : Data → Bool
has_data d = not (is_empty d.declared && is_empty d.live)

module _ (expand : Data → Text → Option Text) where
  unfoldable pub expand_argv : List Text → Data → Option (List Text)
  unfolding Option.bind
  expand_argv [] d = some []
  expand_argv (a ∷ argv) d =
      Option.bind (expand d a) λ e. Option.map (λ es. e ∷ es) (expand_argv argv d)

  unfoldable pub expand_env : TextMap Text → Data → Option (TextMap Text)
  unfolding Option.bind
  expand_env [] d = some []
  expand_env ((k, v) ∷ env) d =
      Option.bind (expand d v) λ e. Option.map (λ es. (k, e) ∷ es) (expand_env env d)

  -- The runner expands only when there is data.
  unfoldable pub expand_argv_if : Data → List Text → Option (List Text)
  unfolding expand_argv
  expand_argv_if d argv = if has_data d then expand_argv argv d else some argv

  unfoldable pub expand_env_if : Data → TextMap Text → Option (TextMap Text)
  unfolding expand_env
  expand_env_if d env = if has_data d then expand_env env d else some env
