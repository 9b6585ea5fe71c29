-- ===== src/Runner/Levels/Above.antt =====
-- Every level of LevelOrder stands above the levels of the dependencies.
use mathlib.Core.Path.{subst}
use go_bake.Base.{
  ◌≡◌, refl, sym, ap, ◌∙◌, ℕ, suc, ◌≤◌, ◌<◌, false, Bool-cases, ◌&&◌, inl, inr, some, List, [], ◌∷◌,
  map, Text, TextMap, insert, lookup-insert, All, All-map, Has, AllDistinct, contains,
  contains-cons, contains-nil, ltb, ◌==◌, ==_iff, ==_refl, arith, if◌then◌else◌,
}
use go_bake.Config.{File, Target, target_by_name}
use go_bake.Runner.Dag.Grows.{DepsIn}
use go_bake.Runner.Dag.Order.{DepsFirst}
use go_bake.Runner.Levels.{all_edges, edges_of, level, next_level, assign}
use go_bake.Runner.Levels.Edges.{edges_of-all_edges}

level-insert :
    (n x : Text) (l : ℕ) (level_of : TextMap ℕ)
    → level (insert n l level_of) x ≡ (if n == x then l else level level_of x)
unfolding level
level-insert n x l level_of = ground (arith, lookup-insert n x l level_of)

module _ (set : List Text) where
  next_level-grows :
      (level_of : TextMap ℕ) (ds : List Text) (next : ℕ) → next ≤ next_level set level_of ds next
  unfolding next_level
  next_level-grows level_of [] next = omega arith
  next_level-grows level_of (d ∷ ds) next = ground (
    arith,
    next_level-grows level_of ds (
        if contains set d && ltb next (suc (level level_of d))
        then suc (level level_of d)
        else next),
  )

  next_level-above :
      (level_of : TextMap ℕ) (f : Text → ℕ) (ds : List Text) (next : ℕ)
      → All (λ d. Has set d × (f d ≡ level level_of d)) ds
      → All (λ d. f d < next_level set level_of ds next) ds
  unfolding next_level
  next_level-above level_of f [] next h = tt
  next_level-above level_of f (d ∷ ds) next ((m, same), h) =
      let next' =
        if contains set d && ltb next (suc (level level_of d))
        then suc (level level_of d)
        else next in
      (
        ground (arith, m, same, next_level-grows level_of ds next'),
        next_level-above level_of f ds next' h,
      )

  module _ (edges : TextMap (List Text)) where
    assign-keeps :
        (ns : List Text) (level_of : TextMap ℕ) (x : Text)
        → contains ns x ≡ false
        → level (assign set edges ns level_of) x ≡ level level_of x
    unfolding assign
    assign-keeps [] level_of x h = refl
    assign-keeps (n ∷ ns) level_of x h =
        let l = next_level set level_of (edges_of edges n) 0 in
        ground (
          arith,
          contains-cons n ns x,
          assign-keeps ns (insert n l level_of) x,
          level-insert n x l level_of,
        )

    -- The level of the next name is final as soon as it is written.
    assign-cons :
        (n : Text) (ns : List Text) (level_of : TextMap ℕ)
        → contains ns n ≡ false
        → level (assign set edges (n ∷ ns) level_of) n
          ≡ next_level set level_of (edges_of edges n) 0
    unfolding assign
    assign-cons n ns level_of h =
        let l = next_level set level_of (edges_of edges n) 0 in
        assign-keeps ns (insert n l level_of) n h
        ∙ ground (arith, level-insert n n l level_of, ==_refl n)

module _ (cfg : File) (set : List Text)
    (distinct : AllDistinct (map (λ t. t.name) cfg.targets)) where
  -- The dependencies of the next name have their levels.
  assign-above_first :
      (before : List Text) (n : Text) (ns : List Text) (level_of : TextMap ℕ)
      → contains ns n ≡ false
      → ((x : Text) → Has before x → contains (n ∷ ns) x ≡ false)
      → ((x : Text) → Has before x → Has set x)
      → DepsIn cfg before n
      → (tgt : Target) → target_by_name cfg n ≡ some tgt
      → All
          (λ d.
            level (assign set (all_edges cfg) (n ∷ ns) level_of) d
            < level (assign set (all_edges cfg) (n ∷ ns) level_of) n)
          tgt.deps
  assign-above_first before n ns level_of once apart old deps tgt e =
      let final : Text → ℕ = level (assign set (all_edges cfg) (n ∷ ns) level_of) in
      let written : final n ≡ next_level set level_of tgt.deps 0 =
        assign-cons set (all_edges cfg) n ns level_of once
        ∙ ap (λ ds. next_level set level_of ds 0) (edges_of-all_edges cfg n tgt distinct e) in
      subst (λ w. All (λ d. final d < w) tgt.deps) (sym written)
        (next_level-above set level_of final tgt.deps 0 (
          All-map (Has before) _ tgt.deps
            (λ d m. (old d m, assign-keeps set (all_edges cfg) (n ∷ ns) level_of d (apart d m)))
            (deps tgt e)))

  pub assign-above :
      (before ns : List Text) (level_of : TextMap ℕ)
      → AllDistinct ns
      → ((x : Text) → Has before x → contains ns x ≡ false)
      → ((x : Text) → Has before x → Has set x)
      → ((x : Text) → Has ns x → Has set x)
      → DepsFirst cfg before ns
      → (x : Text) (tgt : Target) → Has ns x
      → target_by_name cfg x ≡ some tgt
      → All
          (λ d.
            level (assign set (all_edges cfg) ns level_of) d
            < level (assign set (all_edges cfg) ns level_of) x)
          tgt.deps
  unfolding assign
  assign-above before [] level_of u apart old new first x tgt m e =
      absurd (ground (arith, contains-nil x))
  assign-above before (n ∷ ns) level_of u apart old new first x tgt m e =
      elim (Bool-cases (n == x)) [
        | inl same ↦
            let here = (==_iff n x).0 same in
            subst
              (λ y.
                All
                  (λ d.
                    level (assign set (all_edges cfg) (n ∷ ns) level_of) d
                    < level (assign set (all_edges cfg) (n ∷ ns) level_of) y)
                  tgt.deps)
              here
              (assign-above_first before n ns level_of u.0 apart old first.0 tgt
                (subst (λ y. target_by_name cfg y ≡ some tgt) (sym here) e))
        | inr other ↦
            assign-above (n ∷ before) ns _ u.1
              (λ y h.
                ground
                  (arith, contains-cons n before y, contains-cons n ns y, apart y, ==_iff n y, u.0))
              (λ y h. ground (
                arith,
                contains-cons n before y,
                contains-cons n ns n,
                ==_refl n,
                old y,
                new n,
                ==_iff n y,
              ))
              (λ y h. new y (ground (arith, contains-cons n ns y))) first.1 x tgt
              (ground (arith, contains-cons n ns x)) e
      ]
