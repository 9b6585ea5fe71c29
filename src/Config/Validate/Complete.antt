-- ===== src/Config/Validate/Complete.antt =====
-- Validate reports nothing exactly when the Bakefile is well-formed.
use go_bake.Base.{
  ◌≡◌, ◌↔◌, List, [], ◌++◌, Text, All, AllDistinct, bytes, map, collect, collect-nil_iff, ◌==◌,
  if◌then◌else◌, append-nil_iff,
}
use go_bake.Config.{File, IsKnown}
use go_bake.Config.Validate.{
  validate, check_all, check_deps, check_target_names, check_presets, check_passthrough,
  check_profile_names, check_suite_names, check_refs, check_units, parse_suite_entry,
}
use go_bake.Config.Validate.Distinct.{
  DistinctSteps, check_names-nil_iff, check_presets-nil_iff, check_passthrough-nil_iff,
}
use go_bake.Config.Validate.Checks.{
  RefKnown, UnitsKnown, check_deps-nil_iff, check_refs-nil_iff, check_units-nil_iff,
}

append_eight-nil_iff {ℓ} :
    {A : Type ℓ} (a b c d e f g h : List A)
    → (a ++ b ++ c ++ d ++ e ++ f ++ g ++ h ≡ [])
      ↔ ((a ≡ []) × (b ≡ []) × (c ≡ []) × (d ≡ []) × (e ≡ []) × (f ≡ []) × (g ≡ []) × (h ≡ []))
append_eight-nil_iff a b c d e f g h = (
  λ p.
      let (p₇, h₀) = (append-nil_iff (a ++ b ++ c ++ d ++ e ++ f ++ g) h).0 p in
      let (p₆, g₀) = (append-nil_iff (a ++ b ++ c ++ d ++ e ++ f) g).0 p₇ in
      let (p₅, f₀) = (append-nil_iff (a ++ b ++ c ++ d ++ e) f).0 p₆ in
      let (p₄, e₀) = (append-nil_iff (a ++ b ++ c ++ d) e).0 p₅ in
      let (p₃, d₀) = (append-nil_iff (a ++ b ++ c) d).0 p₄ in
      let (p₂, c₀) = (append-nil_iff (a ++ b) c).0 p₃ in
      let (a₀, b₀) = (append-nil_iff a b).0 p₂ in (a₀, b₀, c₀, d₀, e₀, f₀, g₀, h₀),
  λ (a₀, b₀, c₀, d₀, e₀, f₀, g₀, h₀). rw (a₀, b₀, c₀, d₀, e₀, f₀, g₀, h₀),
)

module _ (cfg : File) where
  pub record IsWellFormed : Type 0 where
    pub target_names : AllDistinct (map (λ t. t.name) cfg.targets)
    pub deps : All (λ t. All (IsKnown cfg) t.deps) cfg.targets
    pub presets : All (λ t. AllDistinct (map (λ v. v.name) t.presets)) cfg.targets
    pub passthrough : All (λ t. DistinctSteps (map (λ p. p.step) t.passthrough)) cfg.targets
    pub profile_names : AllDistinct (map (λ p. p.name) cfg.profiles)
    pub suite_names : AllDistinct (map (λ s. s.name) cfg.suites)
    pub suite_refs : All (λ s. All (λ e. RefKnown cfg (parse_suite_entry e)) s.targets) cfg.suites
    pub units : All (UnitsKnown cfg) cfg.targets

-- The test on a preset of a suite entry.
module _ (cfg : File) (filename : Text) where
  check_all-nil_iff : (check_all cfg filename ≡ []) ↔ IsWellFormed cfg
  unfolding check_all check_target_names check_profile_names check_suite_names
  check_all-nil_iff =
      let (cut, join) =
        append_eight-nil_iff (check_target_names cfg filename)
          (collect (check_deps cfg filename) cfg.targets)
          (collect (λ t. check_presets cfg filename t [] t.presets) cfg.targets)
          (collect (check_passthrough cfg filename) cfg.targets) (check_profile_names cfg filename)
          (check_suite_names cfg filename) (collect (check_refs cfg filename) cfg.suites)
          (collect (check_units cfg filename) cfg.targets) in
      let (names, names') = check_names-nil_iff _ _ _ cfg.targets in
      let (deps, deps') = collect-nil_iff _ _ cfg.targets (check_deps-nil_iff cfg filename) in
      let (presets, presets') =
        collect-nil_iff _ _ cfg.targets (check_presets-nil_iff cfg filename) in
      let (slots, slots') =
        collect-nil_iff _ _ cfg.targets (check_passthrough-nil_iff cfg filename) in
      let (profiles, profiles') = check_names-nil_iff _ _ _ cfg.profiles in
      let (suites, suites') = check_names-nil_iff _ _ _ cfg.suites in
      let (refs, refs') = collect-nil_iff _ _ cfg.suites (check_refs-nil_iff cfg filename) in
      let (units, units') = collect-nil_iff _ _ cfg.targets (check_units-nil_iff cfg filename) in
      (
        λ e.
            let (a, b, c, d, p, s, r, u) = cut e in
            record {
              target_names = names a;
              deps = deps b;
              presets = presets c;
              passthrough = slots d;
              profile_names = profiles p;
              suite_names = suites s;
              suite_refs = refs r;
              units = units u;
            },
        λ w. join (
          names' w.target_names,
          deps' w.deps,
          presets' w.presets,
          slots' w.passthrough,
          profiles' w.profile_names,
          suites' w.suite_names,
          refs' w.suite_refs,
          units' w.units,
        ),
      )

-- Validate returns no error exactly when target, profile and suite names are distinct, every
-- dependency and every suite entry names something that exists, presets, passthrough steps and
-- daemons are distinct within their target, no daemon has a target's name, and every name of a
-- workflow is a target or one of its target's daemons, with a known line.
pub validate-nil_iff : (cfg : File) → (validate cfg ≡ []) ↔ IsWellFormed cfg
unfolding validate
validate-nil_iff cfg =
    check_all-nil_iff cfg (if cfg.bake_path == [] then bytes "Bakefile" else cfg.bake_path)
