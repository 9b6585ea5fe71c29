-- ===== src/Lint/Rules.antt =====
-- The rules of internal/lint: prefer_exec.go, brackets_only.go, require_desc.go and
-- prefer_quoted_exec.go, with Finding of finding.go. No rule returns an error.
use go_bake.Base.{
  ℕ, suc, ◌+◌, Bool, true, false, not, ◌||◌, Option, none, some, List, [], ◌∷◌, ◌++◌, Text, bytes,
  length, collect, if◌then◌else◌,
}
use go_bake.Dsl.Ast.{Step, ExecElem, BodyEntry, PresetEntry, TargetBlock, FileEntry, Bakefile}

pub record Finding : Type 0 where
  pub file : Text
  pub line : ℕ
  pub column : ℕ
  pub message : Text
  pub rule_id : Text
  pub fixable : Bool
  pub target_name : Text
  pub step_index : ℕ

abbrev pub targets_of : List FileEntry → List TargetBlock
targets_of [] = []
targets_of (FileEntry.target t ∷ es) = t ∷ targets_of es
targets_of (_ ∷ es) = targets_of es

abbrev plain : Text → TargetBlock → Text → Bool → Finding
plain path t message fixable = record {
  file = path;
  line = t.pos.line;
  column = 0;
  message = message;
  rule_id = [];
  fixable = fixable;
  target_name = [];
  step_index = 0;
}

module _ (path : Text) where
  abbrev pub prefer_exec_finding : TargetBlock → Text → ℕ → Finding
  prefer_exec_finding t message i = record (plain path t message true) {
    target_name = t.name;
    step_index = i;
  }

  -- One step at the index `stepIdx`.
  unfoldable pub prefer_exec_step : TargetBlock → ℕ → Step → List Finding
  unfolding bytes
  prefer_exec_step t i (Step.cmd (tok ∷ toks)) =
      prefer_exec_finding t (bytes "prefer exec over cmd for step " ++ t.name) i ∷ []
  prefer_exec_step t i _ = []

  unfoldable pub prefer_exec_steps : TargetBlock → ℕ → List Step → List Finding
  unfolding prefer_exec_step
  prefer_exec_steps t i [] = []
  prefer_exec_steps t i (s ∷ ss) = prefer_exec_step t i s ++ prefer_exec_steps t (suc i) ss

  unfoldable pub prefer_exec_body : TargetBlock → ℕ → List BodyEntry → List Finding
  unfolding prefer_exec_steps
  prefer_exec_body t i [] = []
  prefer_exec_body t i (BodyEntry.steps ss ∷ es) =
      prefer_exec_steps t i ss ++ prefer_exec_body t (i + length ss) es
  prefer_exec_body t i (BodyEntry.step s ∷ es) =
      prefer_exec_step t i s ++ prefer_exec_body t (suc i) es
  prefer_exec_body t i (_ ∷ es) = prefer_exec_body t i es

  abbrev prefer_exec_bracketed : TargetBlock → Option (List BodyEntry) → List Finding
  prefer_exec_bracketed t none = []
  prefer_exec_bracketed t (some es) = prefer_exec_body t 0 es

  abbrev prefer_exec_form : TargetBlock → List Text → List Finding
  prefer_exec_form t [] = prefer_exec_bracketed t t.body
  prefer_exec_form t (tok ∷ toks) =
      prefer_exec_finding t
        (bytes "prefer exec over cmd (single-line target); use target "
          ++ (t.name ++ bytes " { steps { exec [\"...\"] } }"))
        0
      ∷ []

  unfoldable pub prefer_exec_target : TargetBlock → List Finding
  unfolding prefer_exec_body bytes
  prefer_exec_target t = prefer_exec_form t t.cmd_tok

  unfoldable pub prefer_exec : Bakefile → List Finding
  unfolding prefer_exec_target collect
  prefer_exec ast = collect prefer_exec_target (targets_of ast.entries)

  abbrev has_bare_step : List BodyEntry → Bool
  has_bare_step [] = false
  has_bare_step (BodyEntry.step _ ∷ es) = true
  has_bare_step (_ ∷ es) = has_bare_step es

  abbrev body_of : Option (List BodyEntry) → List BodyEntry
  body_of none = []
  body_of (some es) = es

  abbrev brackets_only_form : TargetBlock → List Text → List Finding
  brackets_only_form t [] =
      if has_bare_step (body_of t.body)
      then plain path t (bytes "use steps { } wrapper for steps in target " ++ t.name) true ∷ []
      else []
  brackets_only_form t (tok ∷ toks) =
      plain path t (bytes "use bracketed form: target " ++ (t.name ++ bytes " { steps { ... } }"))
        true
      ∷ []

  unfoldable pub brackets_only : Bakefile → List Finding
  unfolding collect bytes
  brackets_only ast = collect (λ t. brackets_only_form t t.cmd_tok) (targets_of ast.entries)

  abbrev has_desc : List BodyEntry → Bool
  has_desc [] = false
  has_desc (BodyEntry.desc _ ∷ es) = true
  has_desc (_ ∷ es) = has_desc es

  unfoldable pub require_desc : Bakefile → List Finding
  unfolding collect bytes
  require_desc ast =
      collect
        (λ t.
          if has_desc (body_of t.body)
          then []
          else plain path t (bytes "target " ++ (t.name ++ bytes " has no desc")) false ∷ [])
        (targets_of ast.entries)

  abbrev any_unquoted : List ExecElem → Bool
  any_unquoted [] = false
  any_unquoted (e ∷ es) = not e.quoted || any_unquoted es

  abbrev step_unquoted : Step → Bool
  step_unquoted (Step.exec argv) = any_unquoted argv
  step_unquoted _ = false

  abbrev steps_unquoted : List Step → Bool
  steps_unquoted [] = false
  steps_unquoted (s ∷ ss) = step_unquoted s || steps_unquoted ss

  abbrev preset_unquoted : List PresetEntry → Bool
  preset_unquoted [] = false
  preset_unquoted (PresetEntry.argv elems ∷ es) = any_unquoted elems || preset_unquoted es
  preset_unquoted (PresetEntry.steps ss ∷ es) = steps_unquoted ss || preset_unquoted es
  preset_unquoted (_ ∷ es) = preset_unquoted es

  unfoldable pub has_unquoted_exec_elems : BodyEntry → Bool
  has_unquoted_exec_elems (BodyEntry.steps ss) = steps_unquoted ss
  has_unquoted_exec_elems (BodyEntry.step s) = step_unquoted s
  has_unquoted_exec_elems (BodyEntry.inputs paths) = any_unquoted paths
  has_unquoted_exec_elems (BodyEntry.outputs paths) = any_unquoted paths
  has_unquoted_exec_elems (BodyEntry.preset p) = preset_unquoted p.body
  has_unquoted_exec_elems _ = false

  abbrev body_unquoted : List BodyEntry → Bool
  body_unquoted [] = false
  body_unquoted (e ∷ es) = has_unquoted_exec_elems e || body_unquoted es

  unfoldable pub prefer_quoted_exec : Bakefile → List Finding
  unfolding collect bytes has_unquoted_exec_elems
  prefer_quoted_exec ast =
      collect
        (λ t.
          if body_unquoted (body_of t.body)
          then record (plain path t
              (bytes "prefer quoted strings in exec/inputs/outputs for target "
                ++ (t.name ++ bytes "; run bake format -w"))
              true) { target_name = t.name }
            ∷ []
          else [])
        (targets_of ast.entries)
