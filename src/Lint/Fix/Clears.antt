-- ===== src/Lint/Fix/Clears.antt =====
-- Fixing what prefer-exec found leaves nothing for prefer-exec to find.
use mathlib.Core.Path.{subst}
use go_bake.Base.{
  bytes, ℕ, suc, ◌+◌, ◌≡◌, refl, sym, ap, true, false, Option, none, some, List, [], ◌∷◌, ◌++◌,
  Text, map, length, All, All-append, All-append_left, All-append_right, All-map, ◌==◌, ==_refl,
  arith, append-nil_iff, collect,
}
use go_bake.Dsl.Ast.{Step, BodyEntry, TargetBlock, FileEntry, Bakefile}
use go_bake.Lint.Rules.{
  Finding, targets_of, prefer_exec, prefer_exec_target, prefer_exec_body, prefer_exec_steps,
  prefer_exec_step,
}
use go_bake.Lint.Settings.{
  Settings, Rule, rule_enabled, run, run_rule, tag, prefer_exec_id, registry,
}
use go_bake.Lint.Fix.{wanted, fix_step, fix_steps, fix_body, fix_target, fix_entry, apply_fixes}

-- Every finding of a list is one that the fixes act on.
abbrev Covers : List Finding → List Finding → Type 0
Covers fs = All (λ g. wanted fs g.target_name g.step_index ≡ true)

-- `t` is a target before the fixes, and `u` the same after them.
module _ (fs : List Finding) (path : Text) (t u : TargetBlock) where
  step-cleared :
      (i : ℕ) (s : Step)
      → Covers fs (prefer_exec_step path t i s)
      → prefer_exec_step path u i (fix_step fs t.name i s) ≡ []
  unfolding prefer_exec_step fix_step
  step-cleared i (Step.cmd []) h = refl
  step-cleared i (Step.cmd (tok ∷ toks)) h = ground arith
  step-cleared i (Step.exec argv) h = refl
  step-cleared i (Step.shell r s) h = refl

  steps-cleared :
      (i : ℕ) (ss : List Step)
      → Covers fs (prefer_exec_steps path t i ss)
      → prefer_exec_steps path u i (fix_steps fs t.name i ss) ≡ []
  unfolding prefer_exec_steps fix_steps
  steps-cleared i [] h = refl
  steps-cleared i (s ∷ ss) h = (append-nil_iff _ _).1 (
    step-cleared i s
        (All-append_left _ (prefer_exec_step path t i s) (prefer_exec_steps path t (suc i) ss) h),
    steps-cleared (suc i) ss
        (All-append_right _ (prefer_exec_step path t i s) (prefer_exec_steps path t (suc i) ss) h),
  )

  length-fix_steps : (i : ℕ) (ss : List Step) → length (fix_steps fs t.name i ss) ≡ length ss
  unfolding fix_steps
  length-fix_steps i [] = refl
  length-fix_steps i (s ∷ ss) = ap suc (length-fix_steps (suc i) ss)

  body-cleared :
      (i : ℕ) (es : List BodyEntry)
      → Covers fs (prefer_exec_body path t i es)
      → prefer_exec_body path u i (fix_body fs t.name i es) ≡ []
  unfolding prefer_exec_body fix_body
  body-cleared i [] h = refl
  body-cleared i (BodyEntry.steps ss ∷ es) h = rw (length-fix_steps i ss) (
      (append-nil_iff _ _).1 (
        steps-cleared i ss (
            All-append_left _ (prefer_exec_steps path t i ss)
              (prefer_exec_body path t (i + length ss) es) h),
        body-cleared (i + length ss) es (
            All-append_right _ (prefer_exec_steps path t i ss)
              (prefer_exec_body path t (i + length ss) es) h),
      ))
  body-cleared i (BodyEntry.step s ∷ es) h = (append-nil_iff _ _).1 (
    step-cleared i s
        (All-append_left _ (prefer_exec_step path t i s) (prefer_exec_body path t (suc i) es) h),
    body-cleared (suc i) es
        (All-append_right _ (prefer_exec_step path t i s) (prefer_exec_body path t (suc i) es) h),
  )
  body-cleared i (e ∷ es) h = body-cleared i es h

module _ (fs : List Finding) (path : Text) where
  target-cleared :
      (t : TargetBlock)
      → Covers fs (prefer_exec_target path t)
      → prefer_exec_target path (fix_target fs t) ≡ []
  unfolding prefer_exec_target fix_target
  target-cleared t h = by_form t.cmd_tok t.body h
    where
      by_form :
          (toks : List Text) (body : Option (List BodyEntry))
          → Covers fs (
              prefer_exec_target path
                (record { pos = t.pos; name = t.name; body = body; cmd_tok = toks }))
          → prefer_exec_target path
              (fix_target fs (record { pos = t.pos; name = t.name; body = body; cmd_tok = toks }))
            ≡ []
      by_form (tok ∷ toks) body h =
          unfold prefer_exec_body prefer_exec_steps prefer_exec_step in refl
      by_form [] none h = refl
      by_form [] (some es) h =
          let b : TargetBlock = record {
            pos = t.pos;
            name = t.name;
            body = some es;
            cmd_tok = [];
          } in
          body-cleared fs path b (fix_target fs b) 0 es h

  cleared :
      (es : List FileEntry)
      → Covers fs (collect (prefer_exec_target path) (targets_of es))
      → collect (prefer_exec_target path) (targets_of (map (fix_entry fs) es)) ≡ []
  unfolding collect fix_entry
  cleared [] h = refl
  cleared (FileEntry.target t ∷ es) h = (append-nil_iff _ _).1 (
    target-cleared t (
        All-append_left _ (prefer_exec_target path t)
          (collect (prefer_exec_target path) (targets_of es)) h),
    cleared es (
        All-append_right _ (prefer_exec_target path t)
          (collect (prefer_exec_target path) (targets_of es)) h),
  )
  cleared (_ ∷ es) h = cleared es h

-- A finding that ApplyFixes can act on.
abbrev IsActionable : Finding → Type 0
IsActionable g = (g.fixable ≡ true) × ((g.target_name == []) ≡ false)

wanted-cons :
    (f : Finding) (fs : List Finding) (n : Text) (i : ℕ)
    → wanted fs n i ≡ true
    → wanted (f ∷ fs) n i ≡ true
unfolding wanted
wanted-cons f fs n i h = ground arith

-- The findings of prefer-exec, once tagged, are all acted on.
Covers-tag :
    (gs rest : List Finding) → All IsActionable gs → Covers (map (tag prefer_exec_id) gs ++ rest) gs
unfolding wanted
Covers-tag [] rest h = tt
Covers-tag (g ∷ gs) rest h = (
  ground (arith, ==_refl prefer_exec_id, ==_refl g.target_name, h),
  All-map _ _ gs
      (λ f w.
        wanted-cons (tag prefer_exec_id g) (map (tag prefer_exec_id) gs ++ rest) f.target_name
          f.step_index w)
      (Covers-tag gs rest h.1),
)

module _ (path : Text) (t : TargetBlock) (named : (t.name == []) ≡ false) where
  step-IsActionable : (i : ℕ) (s : Step) → All IsActionable (prefer_exec_step path t i s)
  unfolding prefer_exec_step
  step-IsActionable i (Step.cmd (tok ∷ toks)) = ((refl, named), tt)
  step-IsActionable i _ = tt

  steps-IsActionable : (i : ℕ) (ss : List Step) → All IsActionable (prefer_exec_steps path t i ss)
  unfolding prefer_exec_steps
  steps-IsActionable i [] = tt
  steps-IsActionable i (s ∷ ss) =
      All-append IsActionable (prefer_exec_step path t i s) (prefer_exec_steps path t (suc i) ss)
        (step-IsActionable i s) (steps-IsActionable (suc i) ss)

  body-IsActionable :
      (i : ℕ) (es : List BodyEntry) → All IsActionable (prefer_exec_body path t i es)
  unfolding prefer_exec_body
  body-IsActionable i [] = tt
  body-IsActionable i (BodyEntry.steps ss ∷ es) =
      All-append IsActionable (prefer_exec_steps path t i ss)
        (prefer_exec_body path t (i + length ss) es) (steps-IsActionable i ss)
        (body-IsActionable (i + length ss) es)
  body-IsActionable i (BodyEntry.step s ∷ es) =
      All-append IsActionable (prefer_exec_step path t i s) (prefer_exec_body path t (suc i) es)
        (step-IsActionable i s) (body-IsActionable (suc i) es)
  body-IsActionable i (_ ∷ es) = body-IsActionable i es

target-IsActionable :
    (path : Text) (t : TargetBlock)
    → (t.name == []) ≡ false
    → All IsActionable (prefer_exec_target path t)
unfolding prefer_exec_target
target-IsActionable path t named = by_form t.cmd_tok t.body
  where
    by_form :
        (toks : List Text) (body : Option (List BodyEntry))
        → All IsActionable (
            prefer_exec_target path
              (record { pos = t.pos; name = t.name; body = body; cmd_tok = toks }))
    by_form (tok ∷ toks) body = ((refl, named), tt)
    by_form [] none = tt
    by_form [] (some es) =
        body-IsActionable path (record { pos = t.pos; name = t.name; body = some es; cmd_tok = [] })
          named 0 es

prefer_exec-IsActionable :
    (path : Text) (ts : List TargetBlock)
    → All (λ t. (t.name == []) ≡ false) ts
    → All IsActionable (collect (prefer_exec_target path) ts)
unfolding collect
prefer_exec-IsActionable path [] h = tt
prefer_exec-IsActionable path (t ∷ ts) h =
    All-append IsActionable (prefer_exec_target path t) (collect (prefer_exec_target path) ts)
      (target-IsActionable path t h.0) (prefer_exec-IsActionable path ts h.1)

abbrev other_rules : List Rule → List Rule
other_rules [] = []
other_rules (r ∷ rs) = rs

-- The findings of the first rule of the registry stand first.
run-prefer_exec :
    (cfg : Settings) (path : Text) (ast : Bakefile)
    → rule_enabled cfg prefer_exec_id ≡ true
    → (rest : List Finding) × (run cfg path ast
        ≡ map (tag prefer_exec_id) (prefer_exec path ast) ++ rest)
unfolding run run_rule collect
run-prefer_exec cfg path ast on =
    (collect (run_rule cfg path ast) (other_rules registry), unfold bytes in rw on refl)

-- With the rule prefer-exec enabled, and target names that are not empty, applying the fixes to
-- what the linter finds leaves nothing for prefer-exec to find.
pub prefer_exec-apply_fixes :
    (cfg : Settings) (path : Text) (ast : Bakefile)
    → rule_enabled cfg prefer_exec_id ≡ true
    → All (λ t. (t.name == []) ≡ false) (targets_of ast.entries)
    → prefer_exec path (apply_fixes ast (run cfg path ast)) ≡ []
unfolding prefer_exec apply_fixes
prefer_exec-apply_fixes cfg path ast on named =
    let (rest, e) = run-prefer_exec cfg path ast on in
    cleared (run cfg path ast) path ast.entries (
      subst (λ fs. Covers fs (prefer_exec path ast)) (sym e)
        (Covers-tag (prefer_exec path ast) rest
          (prefer_exec-IsActionable path (targets_of ast.entries) named)))
