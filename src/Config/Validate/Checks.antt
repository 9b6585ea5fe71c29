-- ===== src/Config/Validate/Checks.antt =====
-- What each loop of Validate over dependencies, suite entries and units finds: nothing exactly when
-- the names that it looks up are known and distinct.
use mathlib.Core.Path.{subst}
use mathlib.Core.Option
use go_bake.Base.{
  ℕ, ◌≡◌, ◌≢◌, ◌↔◌, ◌⊎◌, refl, sym, Bool, true, false, not, ◌&&◌, inl, inr, Option, none, some,
  List, [], ◌∷◌, ◌++◌, Text, TextMap, or_else, insert, lookup-insert, All, AllDistinct, contains,
  lookup, map, collect, collect-nil_iff, ==_iff, nat_eq, ◌==◌, arith, if◌then◌else◌, append-nil_iff,
}
use go_bake.Config.{
  File, Target, Daemon, Preset, Suite, IsKnown, target_by_name, preset_by_name, find_target_cases,
  find_daemon,
}
use go_bake.Config.Validate.{
  ValidationError, check_deps, check_dep, check_refs, check_ref, check_units, check_daemons,
  check_workflow_name, check_daemon_name, check_daemon_conflict, parse_suite_entry, check_names,
  at_daemon, duplicate_daemon, daemon_lines, line_of, note_daemon, is_none,
}
use go_bake.Config.Validate.Distinct.{check_names-nil_iff}

IsKnown-cases :
    (cfg : File) (name : Text)
    → ((t : Target) × (target_by_name cfg name ≡ some t) × IsKnown cfg name)
      ⊎ ((target_by_name cfg name ≡ none) × (contains (map (λ t. t.name) cfg.targets) name ≡ false))
unfolding target_by_name
IsKnown-cases cfg name = find_target_cases cfg.targets name

-- `daemonByName` holds the line of the first daemon of each name.
lookup-daemon_lines :
    (name : Text) (seen : TextMap ℕ) (ds : List Daemon)
    → lookup name (daemon_lines seen ds)
      ≡ or_else (lookup name seen) (Option.map (λ d. d.line) (find_daemon ds name))
unfolding daemon_lines find_daemon
lookup-daemon_lines name seen [] = ground arith
lookup-daemon_lines name seen (d ∷ ds) = ground (
  arith,
  lookup-daemon_lines name seen ds,
  lookup-daemon_lines name (insert d.name d.line seen) ds,
  lookup-insert d.name name d.line seen,
  ==_iff d.name name,
)

module _ (cfg : File) where
  -- A suite entry names a target and, if any, one of its presets.
  abbrev pub RefKnown : Text × Text → Type 0
  RefKnown (target, preset) =
      (t : Target) × (target_by_name cfg target ≡ some t)
      × ((preset ≡ []) ⊎ ((p : Preset) × (preset_by_name t preset ≡ some p)))

  -- A name of a workflow is a target, or a daemon of the same target whose line is known.
  abbrev pub UnitKnown : Target → Text → Type 0
  UnitKnown t name =
      IsKnown cfg name ⊎ ((d : Daemon) × (find_daemon t.daemons name ≡ some d) × (d.line ≢ 0))

  abbrev pub UnitsKnown : Target → Type 0
  UnitsKnown t =
      AllDistinct (map (λ d. d.name) t.daemons)
      × All (λ d. ¬ (IsKnown cfg d.name)) t.daemons
      × All (UnitKnown t) t.workflow

-- The test on a preset of a suite entry.
preset_test :
    {A : Type 0} (e : A) (b : Bool) (o : Option Preset)
    → ((if not b && is_none o then e ∷ [] else []) ≡ [])
      ↔ ((b ≡ true) ⊎ ((p : Preset) × (o ≡ some p)))
preset_test e true o = (λ h. inl refl, λ h. refl)
preset_test e false none = (λ h. cc, λ h. ground arith)
preset_test e false (some p) = (λ h. inr (p, refl), λ h. refl)

some_same {ℓ} : {A : Type ℓ} {a b : A} → some a ≡ some b → a ≡ b
some_same e = cc

All-iff {ℓ κ μ} :
    {A : Type ℓ} {P : A → Type κ} {Q : A → Type μ} (xs : List A)
    → ((x : A) → P x ↔ Q x)
    → All P xs ↔ All Q xs
All-iff [] h = (λ a. tt, λ a. tt)
All-iff (x ∷ xs) h =
    let (to, from) = All-iff xs h in (λ a. ((h x).0 a.0, to a.1), λ a. ((h x).1 a.0, from a.1))

module _ (cfg : File) (filename : Text) where
  check_dep-nil_iff : (t : Target) (d : Text) → (check_dep cfg filename t d ≡ []) ↔ IsKnown cfg d
  unfolding check_dep
  check_dep-nil_iff t d = elim (IsKnown-cases cfg d) [
    | inl (u, e, k) ↦ rw (e, check_dep) (λ h. k, λ h. refl)
    | inr (e, k) ↦ rw (e, check_dep) (λ h. cc, λ h. cc)
  ]

  pub check_deps-nil_iff :
      (t : Target) → (check_deps cfg filename t ≡ []) ↔ All (IsKnown cfg) t.deps
  unfolding check_deps
  check_deps-nil_iff t =
      collect-nil_iff (check_dep cfg filename t) (IsKnown cfg) t.deps (check_dep-nil_iff t)

  check_ref-nil_iff :
      (s : Suite) (r : Text × Text) → (check_ref cfg filename s r ≡ []) ↔ RefKnown cfg r
  unfolding check_ref
  check_ref-nil_iff s (target, preset) = elim (IsKnown-cases cfg target) [
    | inl (t, e, k) ↦
        let (to, from) = preset_test _ (preset == []) (preset_by_name t preset) in
        let (eq, same) = ==_iff preset [] in
        rw (e, check_ref)
          (
            λ h. (t, refl, elim (to h) [ inl b ↦ inl (eq b) | inr p ↦ inr p ]),
            λ (u, f, ref). from (elim ref [
              | inl b ↦ inl (same b)
              | inr (p, q) ↦
                  inr (p, subst (λ w. preset_by_name w preset ≡ some p) (sym (some_same f)) q)
            ]),
          )
    | inr (e, k) ↦ rw (e, check_ref) (λ h. cc, λ h. cc (h.1))
  ]

  pub check_refs-nil_iff :
      (s : Suite)
      → (check_refs cfg filename s ≡ []) ↔ All (λ e. RefKnown cfg (parse_suite_entry e)) s.targets
  unfolding check_refs
  check_refs-nil_iff s =
      collect-nil_iff (λ e. check_ref cfg filename s (parse_suite_entry e))
        (λ e. RefKnown cfg (parse_suite_entry e)) s.targets
        (λ e. check_ref-nil_iff s (parse_suite_entry e))

  check_daemon_conflict-nil_iff :
      (d : Daemon) → (check_daemon_conflict cfg filename d ≡ []) ↔ (¬ (IsKnown cfg d.name))
  unfolding check_daemon_conflict
  check_daemon_conflict-nil_iff d = elim (IsKnown-cases cfg d.name) [
    | inl (t, e, k) ↦ rw (e, check_daemon_conflict) (λ h. cc, λ h. absurd (h k))
    | inr (e, k) ↦ rw (e, check_daemon_conflict) (λ h m. cc, λ h. refl)
  ]

  abbrev daemon_names : Target → TextMap ℕ → List Daemon → List ValidationError
  daemon_names t =
      check_names (λ (d : Daemon). d.name) (λ d. d.line)
        (λ d first. at_daemon cfg filename d (duplicate_daemon d.name t.name first))

  abbrev conflicts : List Daemon → List ValidationError
  conflicts = collect (check_daemon_conflict cfg filename)

  -- The loop over the daemons reports what a loop for names and a loop for conflicts would.
  check_daemons-nil :
      (t : Target) (seen : TextMap ℕ) (ds : List Daemon)
      → (check_daemons cfg filename t seen ds ≡ [])
        ↔ ((daemon_names t seen ds ≡ []) × (conflicts ds ≡ []))
  unfolding check_daemons check_names collect check_daemon_name
  check_daemons-nil t seen [] = (λ h. (refl, refl), λ h. refl)
  check_daemons-nil t seen (d ∷ ds) =
      split (lookup d.name seen) (check_daemons-nil t (insert d.name d.line seen) ds)
    where
      split :
          (o : Option ℕ)
          → (check_daemons cfg filename t (insert d.name d.line seen) ds ≡ [])
            ↔ ((daemon_names t (insert d.name d.line seen) ds ≡ []) × (conflicts ds ≡ []))
          → (check_daemon_name cfg filename t d o
                ++ check_daemon_conflict cfg filename d
                ++ check_daemons cfg filename t (note_daemon d seen o) ds
              ≡ [])
            ↔ ((elim o [
              | some first ↦
                  at_daemon cfg filename d (duplicate_daemon d.name t.name first)
                  ∷ daemon_names t seen ds
              | none ↦ daemon_names t (insert d.name d.line seen) ds
            ]
                  ≡ [])
                × (check_daemon_conflict cfg filename d ++ conflicts ds ≡ []))
      split (some first) ih = (λ h. cc, λ h. cc (h.0))
      split none ih =
          let conflict = check_daemon_conflict cfg filename d in
          let rest = check_daemons cfg filename t (insert d.name d.line seen) ds in
          let (cut, join) = append-nil_iff conflict rest in
          let (cut', join') = append-nil_iff conflict (conflicts ds) in
          (
            λ h. let (c, r) = cut h in let (n, cs) = ih.0 r in (n, join' (c, cs)),
            λ h. let (c, cs) = cut' h.1 in join (c, ih.1 (h.0, cs)),
          )

  unit_test :
      {A : Type 0} (e : A) (o : Option Daemon)
      → ((if nat_eq (line_of (Option.map (λ d. d.line) o)) 0 then e ∷ [] else []) ≡ [])
        ↔ ((d : Daemon) × (o ≡ some d) × (d.line ≢ 0))
  unit_test e none = (λ h. cc, λ h. ground arith)
  unit_test e (some d) = (λ h. (d, refl, ground arith), λ (d', same, ne). ground arith)

  check_workflow_name-nil_iff :
      (t : Target) (name : Text)
      → (check_workflow_name cfg filename t name ≡ []) ↔ UnitKnown cfg t name
  unfolding check_workflow_name
  check_workflow_name-nil_iff t name = elim (IsKnown-cases cfg name) [
    | inl (u, e, k) ↦ rw (e, check_workflow_name) (λ h. inl k, λ h. refl)
    | inr (e, k) ↦
        let (to, from) = unit_test _ (find_daemon t.daemons name) in
        rw (e, check_workflow_name, lookup-daemon_lines)
          (λ h. inr (to h), λ h. elim h [ inl m ↦ cc | inr d ↦ from d ])
  ]

  pub check_units-nil_iff : (t : Target) → (check_units cfg filename t ≡ []) ↔ UnitsKnown cfg t
  unfolding check_units
  check_units-nil_iff t =
      let (cut, join) =
        append-nil_iff (check_daemons cfg filename t [] t.daemons)
          (collect (check_workflow_name cfg filename t) t.workflow) in
      let (daemons, daemons') = check_daemons-nil t [] t.daemons in
      let (names, names') =
        check_names-nil_iff (λ (d : Daemon). d.name) (λ d. d.line)
          (λ d first. at_daemon cfg filename d (duplicate_daemon d.name t.name first)) t.daemons in
      let (apart, apart') =
        collect-nil_iff (check_daemon_conflict cfg filename) (λ d. ¬ (IsKnown cfg d.name)) t.daemons
          check_daemon_conflict-nil_iff in
      let (units, units') =
        collect-nil_iff (check_workflow_name cfg filename t) (UnitKnown cfg t) t.workflow
          (check_workflow_name-nil_iff t) in
      (
        λ h. let (d, w) = cut h in let (n, c) = daemons d in (names n, apart c, units w),
        λ (n, c, w). join (daemons' (names' n, apart' c), units' w),
      )
