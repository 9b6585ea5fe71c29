-- ===== src/Runner/Levels/Groups.antt =====
-- What LevelOrder promises: every name of the order in one level, above its dependencies.
use go_bake.Base.{
  ◌≡◌, ap, ◌∙◌, ℕ, suc, ◌<◌, true, ◌&&◌, some, List, [], Text, All, All-zip, Has, contains,
  contains-nil, All-contains, nat_eq, arith,
}
use go_bake.Config.{File, Target, target_by_name}
use go_bake.Config.Validate.{validate}
use go_bake.Config.Validate.Complete.{IsWellFormed, validate-nil_iff}
use go_bake.Runner.Dag.{ok, ◌>>=◌, topo_order}
use go_bake.Runner.Dag.Visit.{>>=-eq-ok, ok-injective}
use go_bake.Runner.Dag.Grows.{DepsIn}
use go_bake.Runner.Dag.Reach.{Settled, topo_order-Settled}
use go_bake.Runner.Dag.Order.{IsRanked, topo_order-DepsFirst}
use go_bake.Runner.Levels.{
  all_edges, level, assign, max_level, empty_levels, levels_of, level_order,
}
use go_bake.Runner.Levels.Place.{
  in_level, length-empty_levels, in_level-empty_levels, level-max_level, place-some, in_level-place,
}
use go_bake.Runner.Levels.Above.{assign-above}

-- A name stands in the level with a number.
abbrev pub InLevel : List (List Text) → ℕ → Text → Type 0
InLevel levels k x = in_level levels k x ≡ true

module _ (cfg : File) (order : List Text) where
  abbrev final : Text → ℕ
  final x = level (assign order (all_edges cfg) order []) x

  levels_of-some : (levels : List (List Text)) × (levels_of cfg order ≡ some levels)
  unfolding levels_of
  levels_of-some =
      let level_of = assign order (all_edges cfg) order [] in
      let n = suc (max_level level_of 0) in
      place-some level_of order (empty_levels n)
        (λ x. omega (arith, level-max_level level_of 0 x, length-empty_levels n))

  in_level-levels_of :
      (levels : List (List Text)) (k : ℕ) (x : Text)
      → levels_of cfg order ≡ some levels
      → in_level levels k x ≡ (contains order x && nat_eq (final x) k)
  unfolding levels_of
  in_level-levels_of levels k x e =
      let level_of = assign order (all_edges cfg) order [] in
      let n = suc (max_level level_of 0) in
      ground (
        arith,
        in_level-place level_of order (empty_levels n) levels e k x,
        in_level-empty_levels n k x,
      )

-- The levels hold the names of the order, each of them in one level only.
pub record Groups (order : List Text) (levels : List (List Text)) : Type 0 where
  pub placed : (x : Text) → Has order x → (k : ℕ) × InLevel levels k x
  pub once : (x : Text) (j k : ℕ) → InLevel levels j x → InLevel levels k x → j ≡ k
  pub only : (x : Text) (k : ℕ) → InLevel levels k x → Has order x

-- When TopoOrder gives an order, LevelOrder succeeds too, with every index in range, and its levels
-- hold the names of that order and no other, each in one level only.
pub level_order-Groups :
    (cfg : File) (name : Text) (order : List Text)
    → topo_order cfg name ≡ ok order
    → (levels : List (List Text)) × (level_order cfg name ≡ ok (some levels)) × Groups order levels
unfolding level_order
level_order-Groups cfg name order e =
    let (levels, found) = levels_of-some cfg order in
    let at = λ (k : ℕ) (x : Text). in_level-levels_of cfg order levels k x found in
    (
      levels,
      ap (λ o. o >>= λ ns. ok (levels_of cfg ns)) e ∙ ap ok found,
      record {
        placed = λ x m. (final cfg order x, ground (arith, at (final cfg order x) x));
        once = λ x j k hj hk. ground (arith, at j x, at k x);
        only = λ x k h. ground (arith, at k x);
      },
    )

-- In a Bakefile that Validate accepts and whose dependencies have no cycle, LevelOrder puts each
-- dependency of a target into a lower level than the target.
pub level_order-above :
    (cfg : File) (rank : Text → ℕ) (name : Text) (levels : List (List Text))
    → validate cfg ≡ []
    → IsRanked cfg rank
    → level_order cfg name ≡ ok (some levels)
    → (k : ℕ) (x : Text) (tgt : Target) → InLevel levels k x
    → target_by_name cfg x ≡ some tgt
    → All (λ d. (j : ℕ) × (j < k) × InLevel levels j d) tgt.deps
unfolding level_order
level_order-above cfg rank name levels valid ranked e k x tgt here known =
    let (order, run, out) = >>=-eq-ok (topo_order cfg name) (λ ns. ok (levels_of cfg ns)) e in
    let found : levels_of cfg order ≡ some levels = ok-injective out in
    let at = λ (k : ℕ) (x : Text). in_level-levels_of cfg order levels k x found in
    let s : Settled cfg name order = topo_order-Settled cfg name order run in
    let w : IsWellFormed cfg = (validate-nil_iff cfg).0 valid in
    let m : Has order x = ground (arith, at k x) in
    let below =
      assign-above cfg order w.target_names [] order [] s.distinct
        (λ y h. absurd (ground (arith, contains-nil y)))
        (λ y h. absurd (ground (arith, contains-nil y))) (λ y h. h)
        (topo_order-DepsFirst cfg rank name order ranked run) x tgt m known in
    All-zip (Has order) _ _ tgt.deps
      (λ d h lt.
        (final cfg order d, ground (arith, at k x, lt), ground (arith, at (final cfg order d) d)))
      (All-contains (DepsIn cfg order) order x s.closed m tgt known) below
