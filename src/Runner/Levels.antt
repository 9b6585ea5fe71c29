-- ===== src/Runner/Levels.antt =====
-- AllEdges and LevelOrder of internal/runner/dag.go. The source starts `maxDepLevel` at -1 and adds
-- one at the end; here the number with the one added is kept. An index out of range of `levels`
-- would stop the program: it is `none`.
mod Edges
pub mod Place
pub mod Above
pub mod Groups
mod Tests
use mathlib.Core.Option
use go_bake.Base.{
  ℕ, zero, suc, Bool, Option, none, some, List, [], ◌∷◌, ◌++◌, Text, TextMap, lookup, insert,
  contains, ltb, ◌&&◌, if◌then◌else◌,
}
use go_bake.Config.{File, Target}
use go_bake.Runner.Dag.{Outcome, ok, ◌>>=◌, topo_order}

unfoldable pub add_edges : List Target → TextMap (List Text) → TextMap (List Text)
unfolding insert
add_edges [] out = out
add_edges (t ∷ ts) out = add_edges ts (insert t.name t.deps out)

unfoldable pub all_edges : File → TextMap (List Text)
unfolding add_edges
all_edges cfg = add_edges cfg.targets []

-- A missing key reads as the empty slice.
unfoldable pub edges_of : TextMap (List Text) → Text → List Text
unfolding lookup
edges_of edges n = elim (lookup n edges) [ none ↦ [] | some deps ↦ deps ]

-- `levelOf[n]`; a missing key reads as 0.
unfoldable pub level : TextMap ℕ → Text → ℕ
unfolding lookup
level level_of n = elim (lookup n level_of) [ none ↦ 0 | some l ↦ l ]

-- The loop over the dependencies; `next` is `maxDepLevel + 1`.
unfoldable pub next_level : List Text → TextMap ℕ → List Text → ℕ → ℕ
unfolding level contains
next_level set level_of [] next = next
next_level set level_of (d ∷ ds) next =
    next_level set level_of ds
      (if contains set d && ltb next (suc (level level_of d)) then suc (level level_of d) else next)

unfoldable pub assign : List Text → TextMap (List Text) → List Text → TextMap ℕ → TextMap ℕ
unfolding next_level edges_of insert
assign set edges [] level_of = level_of
assign set edges (n ∷ ns) level_of =
    assign set edges ns (insert n (next_level set level_of (edges_of edges n) 0) level_of)

unfoldable pub max_level : TextMap ℕ → ℕ → ℕ
max_level [] m = m
max_level ((n, l) ∷ rest) m = max_level rest (if ltb m l then l else m)

unfoldable pub empty_levels : ℕ → List (List Text)
empty_levels zero = []
empty_levels (suc n) = [] ∷ empty_levels n

-- `levels[l] = append(levels[l], n)`
unfoldable pub append_at : ℕ → Text → List (List Text) → Option (List (List Text))
append_at l n [] = none
append_at zero n (names ∷ levels) = some ((names ++ n ∷ []) ∷ levels)
append_at (suc l) n (names ∷ levels) = Option.map (λ more. names ∷ more) (append_at l n levels)

unfoldable pub place : TextMap ℕ → List Text → List (List Text) → Option (List (List Text))
unfolding level append_at Option.bind
place level_of [] levels = some levels
place level_of (n ∷ ns) levels =
    Option.bind (append_at (level level_of n) n levels) (place level_of ns)

-- The levels of an order.
unfoldable pub levels_of : File → List Text → Option (List (List Text))
unfolding assign all_edges max_level empty_levels place
levels_of cfg order =
    let level_of = assign order (all_edges cfg) order [] in
    place level_of order (empty_levels (suc (max_level level_of 0)))

unfoldable pub level_order : File → Text → Outcome (Option (List (List Text)))
unfolding levels_of
level_order cfg name = do order ← topo_order cfg name; ok (levels_of cfg order)
