-- ===== src/Runner/Levels/Place.antt =====
-- The last loop of LevelOrder puts every name into the slice of its level.
use mathlib.Core.Path.{subst}
use mathlib.Core.Option
use mathlib.Core.Option.{some-injective}
use go_bake.Base.{
  ◌≡◌, refl, sym, ap, ◌∙◌, Option-cases, inl, inr, ℕ, zero, suc, ◌≤◌, ◌<◌, Bool, true, false, ◌&&◌,
  ◌||◌, Option, some, List, [], ◌∷◌, Text, TextMap, lookup, contains, contains-append,
  contains-cons, contains-nil, ltb, nat_eq, ◌==◌, ==_iff, length, arith, if◌then◌else◌,
}
use go_bake.Runner.Levels.{level, max_level, empty_levels, append_at, place}

-- Whether a name stands in the level with a number.
unfoldable pub in_level : List (List Text) → ℕ → Text → Bool
unfolding contains
in_level [] k x = false
in_level (names ∷ levels) zero x = contains names x
in_level (names ∷ levels) (suc k) x = in_level levels k x

pub length-empty_levels : (n : ℕ) → length (empty_levels n) ≡ n
unfolding empty_levels
length-empty_levels zero = refl
length-empty_levels (suc n) = omega (arith, length-empty_levels n)

pub in_level-empty_levels : (n k : ℕ) (x : Text) → in_level (empty_levels n) k x ≡ false
unfolding empty_levels in_level
in_level-empty_levels zero k x = refl
in_level-empty_levels (suc n) zero x = contains-nil x
in_level-empty_levels (suc n) (suc k) x = in_level-empty_levels n k x

max_level-grows : (entries : TextMap ℕ) (m : ℕ) → m ≤ max_level entries m
unfolding max_level
max_level-grows [] m = omega arith
max_level-grows ((n, l) ∷ rest) m = ground (arith, max_level-grows rest (if ltb m l then l else m))

-- No level is above the largest one.
pub level-max_level :
    (entries : TextMap ℕ) (m : ℕ) (x : Text) → level entries x ≤ max_level entries m
unfolding level max_level lookup
level-max_level [] m x = omega arith
level-max_level ((n, l) ∷ rest) m x = ground (
  arith,
  max_level-grows rest (if ltb m l then l else m),
  level-max_level rest (if ltb m l then l else m) x,
)

-- `append_at` and `place` go on by what the first step gives.
append_at-suc :
    (l : ℕ) (n : Text) (names : List Text) (levels : List (List Text))
    {o : Option (List (List Text))}
    → append_at l n levels ≡ o
    → append_at (suc l) n (names ∷ levels) ≡ Option.map (λ more. names ∷ more) o
unfolding append_at
append_at-suc l n names levels e = ap (Option.map (λ more. names ∷ more)) e

append_at-some :
    (l : ℕ) (n : Text) (levels : List (List Text))
    → l < length levels
    → (more : List (List Text)) × (append_at l n levels ≡ some more) × (length more ≡ length levels)
unfolding append_at
append_at-some l n [] h = absurd (omega arith)
append_at-some zero n (names ∷ levels) h = (_, refl, refl)
append_at-some (suc l) n (names ∷ levels) h =
    let (more, e, same) = append_at-some l n levels (omega arith) in
    (names ∷ more, append_at-suc l n names levels e, omega (arith, same))

in_level-append_at :
    (l : ℕ) (n : Text) (levels more : List (List Text))
    → append_at l n levels ≡ some more
    → (k : ℕ) (x : Text) → in_level more k x ≡ (in_level levels k x || n == x && nat_eq l k)
unfolding append_at in_level
in_level-append_at l n [] more e k x = cc
in_level-append_at zero n (names ∷ levels) more e zero x =
    subst (λ m. in_level m 0 x ≡ (contains names x || n == x && true)) (some-injective _ _ e)
      (ground (arith, contains-append names (n ∷ []) x, contains-cons n [] x, contains-nil x))
in_level-append_at zero n (names ∷ levels) more e (suc k) x =
    subst (λ m. in_level m (suc k) x ≡ (in_level levels k x || n == x && nat_eq 0 (suc k)))
      (some-injective _ _ e) (ground arith)
in_level-append_at (suc l) n (names ∷ levels) more e k x =
    elim (Option-cases (append_at l n levels)) [
      | inl (rest, found) ↦
          subst
            (λ m. in_level m k x ≡ (in_level (names ∷ levels) k x || n == x && nat_eq (suc l) k))
            (some-injective _ _ (sym (append_at-suc l n names levels found) ∙ e))
            (below rest (in_level-append_at l n levels rest found) k)
      | inr missing ↦ cc (append_at-suc l n names levels missing, e)
    ]
  where
    below :
        (rest : List (List Text))
        → ((k : ℕ) → (x : Text) → in_level rest k x ≡ (in_level levels k x || n == x && nat_eq l k))
        → (k : ℕ)
        → in_level (names ∷ rest) k x
          ≡ (in_level (names ∷ levels) k x || n == x && nat_eq (suc l) k)
    below rest h zero = ground arith
    below rest h (suc k) = ground (arith, h k x)

place-cons :
    (level_of : TextMap ℕ) (n : Text) (ns : List Text) (levels : List (List Text))
    {o : Option (List (List Text))}
    → append_at (level level_of n) n levels ≡ o
    → place level_of (n ∷ ns) levels ≡ Option.bind o (place level_of ns)
unfolding place Option.bind
place-cons level_of n ns levels e = ap (λ o. Option.bind o (place level_of ns)) e

-- Every level is in range: the names are placed.
pub place-some :
    (level_of : TextMap ℕ) (ns : List Text) (levels : List (List Text))
    → ((x : Text) → level level_of x < length levels)
    → (out : List (List Text)) × (place level_of ns levels ≡ some out)
unfolding place Option.bind
place-some level_of [] levels h = (levels, refl)
place-some level_of (n ∷ ns) levels h =
    let (more, e, same) = append_at-some (level level_of n) n levels (h n) in
    let (out, placed) = place-some level_of ns more (λ x. ground (arith, h x, same)) in
    (out, place-cons level_of n ns levels e ∙ placed)

pub in_level-place :
    (level_of : TextMap ℕ) (ns : List Text) (levels out : List (List Text))
    → place level_of ns levels ≡ some out
    → (k : ℕ) (x : Text)
    → in_level out k x ≡ (in_level levels k x || contains ns x && nat_eq (level level_of x) k)
unfolding place Option.bind contains
in_level-place level_of [] levels out e k x =
    subst (λ o. in_level o k x ≡ (in_level levels k x || false)) (some-injective _ _ e)
      (ground arith)
in_level-place level_of (n ∷ ns) levels out e k x =
    elim (Option-cases (append_at (level level_of n) n levels)) [
      | inl (more, found) ↦ ground (
        arith,
        in_level-place level_of ns more out (sym (place-cons level_of n ns levels found) ∙ e) k x,
        in_level-append_at (level level_of n) n levels more found k x,
        ==_iff n x,
      )
      | inr missing ↦ cc (place-cons level_of n ns levels missing, e)
    ]
