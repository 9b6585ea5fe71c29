-- ===== src/Runner/SearchPath.antt =====
-- stripBakeBinFromPath of internal/runner/runner.go: the steps do not find the shims of the project.
use go_bake.Base.{
  ℕ, none, some, List, [], ◌∷◌, ◌++◌, Text, TextMap, bytes, lookup, insert, length, nat_eq, ◌==◌,
  if◌then◌else◌,
}
use go_bake.System.{System}

-- filepath.SplitList and strings.Join with the list separator of Unix.
abbrev colon : ℕ
colon = 58

unfoldable pub split_list : Text → List Text
split_list [] = [] ∷ []
split_list (c ∷ s) = elim (split_list s) [
  | [] ↦ (c ∷ []) ∷ []
  | p ∷ ps ↦ if nat_eq c colon then [] ∷ p ∷ ps else (c ∷ p) ∷ ps
]

unfoldable pub join_list : List Text → Text
join_list [] = []
join_list (p ∷ []) = p
join_list (p ∷ q ∷ ps) = p ++ colon ∷ join_list (q ∷ ps)

module _ (sys : System) where
  unfoldable pub keep_parts : Text → List Text → List Text
  unfolding ◌==◌
  keep_parts bake_bin [] = []
  keep_parts bake_bin (p ∷ ps) =
      if sys.clean p == bake_bin then keep_parts bake_bin ps else p ∷ keep_parts bake_bin ps

  unfoldable pub strip_parts : Text → Text → TextMap Text → TextMap Text
  unfolding keep_parts split_list join_list insert bytes
  strip_parts bake_bin path env =
      let kept = keep_parts bake_bin (split_list path) in
      if nat_eq (length kept) (length (split_list path))
      then env
      else insert (bytes "PATH") (join_list kept) env

  unfoldable pub strip_bake_bin_from_path : TextMap Text → Text → TextMap Text
  unfolding strip_parts lookup bytes
  strip_bake_bin_from_path env root = elim (lookup (bytes "PATH") env) [
    | none ↦ env
    | some [] ↦ env
    | some (c ∷ path) ↦
        strip_parts (sys.clean (sys.join root (sys.join (bytes ".bake") (bytes "bin")))) (c ∷ path)
          env
  ]
