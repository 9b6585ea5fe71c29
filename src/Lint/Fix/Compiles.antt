-- ===== src/Lint/Fix/Compiles.antt =====
-- The fixes do not change what is compiled.
use mathlib.Core.Path.{ap₂}
use go_bake.Base.{
  ℕ, suc, ◌+◌, ◌≡◌, ◌⊎◌, refl, ap, ◌∙◌, Bool, Bool-cases, inl, inr, Option, none, some, List, [],
  ◌∷◌, ◌++◌, Text, map, length, All, arith,
}
use go_bake.Config
use go_bake.Config.{File, Target, new_target}
use go_bake.Dsl.Ast.{Position, Step, BodyEntry, TargetBlock, FileEntry, Bakefile}
use go_bake.Dsl.Compile.{
  compile_step, compile_entry, compile_body, compile_target, fold_entries, values,
}
use go_bake.Dsl.Load.{Progress, compile, compile_file_entry, located}
use go_bake.Lint.Rules.{Finding, targets_of}
use go_bake.Lint.Fix.{
  wanted, new_exec_elem, fix_step, fix_steps, fix_body, fix_form, fix_target, fix_entry,
  apply_fixes,
}

values-map-new_exec_elem : (toks : List Text) → values (map new_exec_elem toks) ≡ toks
values-map-new_exec_elem [] = refl
values-map-new_exec_elem (t ∷ ts) = ap (λ (l : List Text). t ∷ l) (values-map-new_exec_elem ts)

module _ (findings : List Finding) (name : Text) where
  compile_step-fix_step :
      (i : ℕ) (s : Step) → compile_step (fix_step findings name i s) ≡ compile_step s
  unfolding fix_step compile_step
  compile_step-fix_step i (Step.cmd []) = refl
  compile_step-fix_step i (Step.cmd (tok ∷ toks)) = elim (Bool-cases (wanted findings name i)) [
    | inl w ↦ rw w (rw (values-map-new_exec_elem toks) refl)
    | inr n ↦ rw n refl
  ]
  compile_step-fix_step i (Step.exec argv) = refl
  compile_step-fix_step i (Step.shell r s) = refl

  map-fix_steps :
      (i : ℕ) (ss : List Step)
      → map compile_step (fix_steps findings name i ss) ≡ map compile_step ss
  unfolding fix_steps
  map-fix_steps i [] = refl
  map-fix_steps i (s ∷ ss) = cc (compile_step-fix_step i s, map-fix_steps (suc i) ss)

  compile_body-fix_body :
      (i : ℕ) (es : List BodyEntry) (t : Target)
      → compile_body t (fix_body findings name i es) ≡ compile_body t es
  unfolding fix_body compile_body compile_entry fold_entries
  compile_body-fix_body i [] t = refl
  compile_body-fix_body i (BodyEntry.steps ss ∷ es) t =
      ap
        (λ (l : List Config.Step).
          compile_body (record t { steps = t.steps ++ l })
            (fix_body findings name (i + length ss) es))
        (map-fix_steps i ss)
      ∙ compile_body-fix_body (i + length ss) es
          (record t { steps = t.steps ++ map compile_step ss })
  compile_body-fix_body i (BodyEntry.step s ∷ es) t =
      ap
        (λ (c : Config.Step).
          compile_body (record t { steps = t.steps ++ c ∷ [] }) (fix_body findings name (suc i) es))
        (compile_step-fix_step i s)
      ∙ compile_body-fix_body (suc i) es (record t { steps = t.steps ++ compile_step s ∷ [] })
  compile_body-fix_body i (e ∷ es) t = compile_body-fix_body i es (compile_entry t e)

-- The parser fills the body or the tokens of the single-line form, never both.
abbrev pub OneForm : TargetBlock → Type 0
OneForm t = (t.cmd_tok ≡ []) ⊎ (t.body ≡ none)

compile_target-fix_target :
    (findings : List Finding) (t : TargetBlock) (p : Bool)
    → OneForm t
    → compile_target (fix_target findings t) p ≡ compile_target t p
unfolding fix_target compile_target
compile_target-fix_target findings t p h = by_form t.cmd_tok t.body h
  where
    by_form :
        (toks : List Text) (body : Option (List BodyEntry))
        → (toks ≡ []) ⊎ (body ≡ none)
        → compile_target
            (fix_target findings
              (record { pos = t.pos; name = t.name; body = body; cmd_tok = toks }))
            p
          ≡ compile_target (record { pos = t.pos; name = t.name; body = body; cmd_tok = toks }) p
    by_form [] none h = refl
    by_form [] (some es) h = compile_body-fix_body findings t.name 0 es (new_target t.name p)
    by_form (tok ∷ toks) none h = rw (values-map-new_exec_elem toks) refl
    by_form (tok ∷ toks) (some es) (inl e) = cc
    by_form (tok ∷ toks) (some es) (inr e) = ground arith

fix_target-pos : (findings : List Finding) (t : TargetBlock) → (fix_target findings t).pos ≡ t.pos
unfolding fix_target
fix_target-pos findings t = by_form t.cmd_tok
  where
    by_form : (toks : List Text) → (fix_form findings t toks).pos ≡ t.pos
    by_form [] = refl
    by_form (tok ∷ toks) = refl

compile_file_entry-fix_entry :
    (findings : List Finding) (p : Progress) (e : FileEntry)
    → All OneForm (targets_of (e ∷ []))
    → compile_file_entry p (fix_entry findings e) ≡ compile_file_entry p e
unfolding fix_entry compile_file_entry
compile_file_entry-fix_entry findings p (FileEntry.target t) h =
    ap₂
      (λ (pos : Position) (c : Target). record p {
        file = record p.file { targets = p.file.targets ++ located pos c ∷ [] };
      })
      (fix_target-pos findings t) (compile_target-fix_target findings t p.file_private h.0)
compile_file_entry-fix_entry findings p _ h = refl

fold-fix_entry :
    (findings : List Finding) (es : List FileEntry) (p : Progress)
    → All OneForm (targets_of es)
    → fold_entries compile_file_entry p (map (fix_entry findings) es)
      ≡ fold_entries compile_file_entry p es
unfolding fold_entries
fold-fix_entry findings [] p h = refl
fold-fix_entry findings (FileEntry.target t ∷ es) p h =
    ap (λ (q : Progress). fold_entries compile_file_entry q (map (fix_entry findings) es))
      (compile_file_entry-fix_entry findings p (FileEntry.target t) (h.0, tt))
    ∙ fold-fix_entry findings es (compile_file_entry p (FileEntry.target t)) h.1
fold-fix_entry findings (e ∷ es) p h =
    ap (λ (q : Progress). fold_entries compile_file_entry q (map (fix_entry findings) es))
      (compile_file_entry-fix_entry findings p e tt)
    ∙ fold-fix_entry findings es (compile_file_entry p e) h

-- Whatever findings are given, applying the fixes leaves the compiled Bakefile as it was, if each
-- target has either a body or a command, as the grammar gives it.
pub compile-apply_fixes :
    (ast : Bakefile) (findings : List Finding)
    → All OneForm (targets_of ast.entries)
    → compile (apply_fixes ast findings) ≡ compile ast
unfolding compile apply_fixes
compile-apply_fixes ast findings h =
    ap (λ (p : Progress). p.file) (fold-fix_entry findings ast.entries _ h)
