-- ===== src/Runner/Parallel/Complete.antt =====
-- The targets that a run by levels starts, and those that it has run when it stops.
use mathlib.Core.Path.{subst}
use go_bake.Base.{
  ==_refl, All, Option-cases, inl, inr, ℕ, zero, suc, ◌≡◌, refl, true, none, some, List, [], ◌∷◌,
  Text, Has, contains-cons, arith, All-map,
}
use go_bake.Config.{IsKnown, File, Target, target_by_name}
use go_bake.Runner.Levels.Place.{in_level}
use go_bake.Config.Validate.{validate}
use go_bake.Config.Validate.Complete.{IsWellFormed, validate-nil_iff}
use go_bake.Runner.Dag.{ok, topo_order}
use go_bake.Runner.Dag.Visit.{>>=-eq-ok}
use go_bake.Runner.Dag.Grows.{DepsIn}
use go_bake.Runner.Dag.Reach.{Settled, topo_order-Settled}
use go_bake.Runner.Dag.Order.{IsRanked}
use go_bake.Runner.Dag.Validated.{found_IsKnown, Reaches-IsKnown, known_target}
use go_bake.Runner.Levels.{level_order, levels_of}
use go_bake.Runner.Levels.Groups.{InLevel, level_order-Groups, level_order-above}
use go_bake.Runner.Parallel.{Group, Reached, Stopped, is_some}
use go_bake.Runner.Parallel.Stands.{Stands, Reached-Stands, Stopped-finished}

All-Has : (P : Text → Type 0) (xs : List Text) → ((x : Text) → Has xs x → P x) → All P xs
All-Has P [] h = tt
All-Has P (x ∷ xs) h = (
  h x (ground (arith, contains-cons x xs x, ==_refl x)),
  All-Has P xs (λ y m. h y (ground (arith, contains-cons x xs y))),
)

All-InLevel :
    (P : Text → Type 0) (levels : List (List Text))
    → ((k : ℕ) (x : Text) → InLevel levels k x → P x)
    → All (All P) levels
unfolding in_level
All-InLevel P [] h = tt
All-InLevel P (l ∷ levels) h = (All-Has P l (h zero), All-InLevel P levels (λ k x m. h (suc k) x m))

is_some-known :
    (cfg : File) (x : Text)
    → IsWellFormed cfg
    → IsKnown cfg x
    → is_some (target_by_name cfg x) ≡ true
is_some-known cfg x w k = elim (Option-cases (target_by_name cfg x)) [
  | inl (tgt, e) ↦ rw e refl
  | inr unknown ↦ absurd (known_target cfg w x k unknown)
]

levels_known :
    (cfg : File) (name : Text) (tgt : Target) (levels : List (List Text))
    → validate cfg ≡ []
    → target_by_name cfg name ≡ some tgt
    → level_order cfg name ≡ ok (some levels)
    → (j : ℕ) (x : Text) → InLevel levels j x
    → is_some (target_by_name cfg x) ≡ true
unfolding level_order
levels_known cfg name tgt levels valid found e j x h =
    let w : IsWellFormed cfg = (validate-nil_iff cfg).0 valid in
    let (order, run, _) = >>=-eq-ok (topo_order cfg name) (λ ns. ok (levels_of cfg ns)) e in
    let settled : Settled cfg name order = topo_order-Settled cfg name order run in
    let (levels', e', groups) = level_order-Groups cfg name order run in
    let same : levels ≡ levels' = cc in
    let m : Has order x = groups.only x j (subst (λ ls. InLevel ls j x) same h) in
    is_some-known cfg x w
      (Reaches-IsKnown cfg w name x (found_IsKnown cfg name tgt found) (settled.reached x m))

-- On a Bakefile that Validate accepts and whose dependencies have no cycle, in a Run by levels, in
-- whatever order the goroutines go: where a target waits to be run, all of its dependencies have
-- ended without an error.
pub waiting-DepsIn :
    (cfg : File) (rank : Text → ℕ) (name : Text) (tgt : Target) (levels : List (List Text))
    (max_parallel : ℕ) (s : Group)
    → validate cfg ≡ []
    → IsRanked cfg rank
    → target_by_name cfg name ≡ some tgt
    → level_order cfg name ≡ ok (some levels)
    → Reached cfg max_parallel levels s
    → All (DepsIn cfg s.finished) s.waiting
waiting-DepsIn cfg rank name tgt levels max s valid ranked found e reached =
    let v : Stands levels s =
      Reached-Stands cfg max levels (levels_known cfg name tgt levels valid found e) reached in
    All-Has (DepsIn cfg s.finished) s.waiting (λ x h t f.
      let (k, last, here) = v.current x h in
      All-map _ (Has s.finished) t.deps
        (λ d (j, lt, below). v.earlier j d (omega (arith, lt, last)) below)
        (level_order-above cfg rank name levels valid ranked e k x t here f))

-- When a Run by levels stops without an error, all targets of the levels have ended without an
-- error. The Bakefile is one that Validate accepts.
pub levels-finished :
    (cfg : File) (name : Text) (tgt : Target) (levels : List (List Text)) (max_parallel : ℕ)
    (s : Group)
    → validate cfg ≡ []
    → target_by_name cfg name ≡ some tgt
    → level_order cfg name ≡ ok (some levels)
    → Reached cfg max_parallel levels s
    → Stopped s
    → s.first_error ≡ none
    → All (All (Has s.finished)) levels
levels-finished cfg name tgt levels max s valid found e reached stopped none_failed =
    let known = levels_known cfg name tgt levels valid found e in
    All-InLevel (Has s.finished) levels (
      Stopped-finished cfg max levels known s (Reached-Stands cfg max levels known reached) stopped
        none_failed)
