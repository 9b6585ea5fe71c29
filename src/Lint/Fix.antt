-- ===== src/Lint/Fix.antt =====
-- ApplyFixes of internal/lint/lint.go. The map `preferExec` from (target, step index) is the test
-- `wanted` on the findings.
pub mod Compiles
pub mod Clears
use go_bake.Base.{
  ℕ, suc, ◌+◌, Bool, true, false, not, ◌&&◌, ◌||◌, Option, none, some, List, [], ◌∷◌, Text, bytes,
  map, length, nat_eq, ◌==◌, if◌then◌else◌,
}
use go_bake.Dsl.Ast.{ExecElem, Step, BodyEntry, TargetBlock, FileEntry, Bakefile}
use go_bake.Lint.Rules.{Finding}
use go_bake.Lint.Settings.{prefer_exec_id}

unfoldable pub wanted : List Finding → Text → ℕ → Bool
unfolding ◌==◌
wanted [] name i = false
wanted (f ∷ fs) name i =
    (f.rule_id == prefer_exec_id
      && f.fixable
      && not (f.target_name == [])
      && f.target_name == name
      && nat_eq f.step_index i)
    || wanted fs name i

-- dsl.NewExecElem
abbrev pub new_exec_elem : Text → ExecElem
new_exec_elem v = record { value = v; quoted = true }

module _ (findings : List Finding) (name : Text) where
  unfoldable pub fix_step : ℕ → Step → Step
  unfolding wanted
  fix_step i (Step.cmd (tok ∷ toks)) =
      if wanted findings name i
      then Step.exec (map new_exec_elem (tok ∷ toks))
      else Step.cmd (tok ∷ toks)
  fix_step i s = s

  unfoldable pub fix_steps : ℕ → List Step → List Step
  unfolding fix_step
  fix_steps i [] = []
  fix_steps i (s ∷ ss) = fix_step i s ∷ fix_steps (suc i) ss

  unfoldable pub fix_body : ℕ → List BodyEntry → List BodyEntry
  unfolding fix_steps
  fix_body i [] = []
  fix_body i (BodyEntry.steps ss ∷ es) =
      BodyEntry.steps (fix_steps i ss) ∷ fix_body (i + length ss) es
  fix_body i (BodyEntry.step s ∷ es) = BodyEntry.step (fix_step i s) ∷ fix_body (suc i) es
  fix_body i (e ∷ es) = e ∷ fix_body i es

module _ (findings : List Finding) where
  abbrev pub fix_option : Text → Option (List BodyEntry) → Option (List BodyEntry)
  fix_option name none = none
  fix_option name (some es) = some (fix_body findings name 0 es)

  -- The single-line form becomes a body with one exec step, whatever the findings are.
  abbrev pub fix_form : TargetBlock → List Text → TargetBlock
  fix_form t [] = record t { body = fix_option t.name t.body }
  fix_form t (tok ∷ toks) = record t {
    body = some (BodyEntry.steps (Step.exec (map new_exec_elem (tok ∷ toks)) ∷ []) ∷ []);
    cmd_tok = [];
  }

  unfoldable pub fix_target : TargetBlock → TargetBlock
  unfolding fix_body
  fix_target t = fix_form t t.cmd_tok

  unfoldable pub fix_entry : FileEntry → FileEntry
  unfolding fix_target
  fix_entry (FileEntry.target t) = FileEntry.target (fix_target t)
  fix_entry e = e

unfoldable pub apply_fixes : Bakefile → List Finding → Bakefile
unfolding fix_entry
apply_fixes ast findings = record ast { entries = map (fix_entry findings) ast.entries }
