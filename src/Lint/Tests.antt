-- ===== src/Lint/Tests.antt =====
-- The linter on a Bakefile with one single-line target and one with `cmd` steps.
use go_bake.Base.{◌≡◌, refl, true, none, some, inl, inr, [], ◌∷◌, Text, bytes, ◌==◌}
use go_bake.Dsl.Ast.{Step, BodyEntry, TargetBlock, FileEntry, Bakefile}
use go_bake.Dsl.Load.{compile}
use go_bake.Lint.Rules.{prefer_exec}
use go_bake.Lint.Settings.{run, rule_enabled, default_config, prefer_exec_id}
use go_bake.Lint.Fix.{apply_fixes}
use go_bake.Lint.Fix.Compiles.{compile-apply_fixes}
use go_bake.Lint.Fix.Clears.{prefer_exec-apply_fixes}

abbrev single : TargetBlock
single = record {
  pos = record { line = 1; column = 1 };
  name = b'a' ∷ [];
  body = none;
  cmd_tok = (b'x' ∷ []) ∷ (b'y' ∷ []) ∷ [];
}

abbrev bracketed : TargetBlock
bracketed = record {
  pos = record { line = 2; column = 1 };
  name = b'b' ∷ [];
  body = some (
      BodyEntry.step (Step.shell (b's' ∷ []) (b'z' ∷ []))
      ∷ BodyEntry.steps (Step.cmd ((b'x' ∷ []) ∷ []) ∷ Step.cmd ((b'y' ∷ []) ∷ []) ∷ [])
      ∷ []);
  cmd_tok = [];
}

abbrev sample : Bakefile
sample = record { dotenv = []; entries = FileEntry.target single ∷ FileEntry.target bracketed ∷ [] }

abbrev path : Text
path = b'B' ∷ []

compile-apply_fixes_example : compile (apply_fixes sample []) ≡ compile sample
compile-apply_fixes_example = compile-apply_fixes sample [] (inr refl, (inl refl, tt))

default-enables : rule_enabled default_config prefer_exec_id ≡ true
unfolding rule_enabled bytes ◌==◌
default-enables = refl

prefer_exec-apply_fixes_example :
    prefer_exec path (apply_fixes sample (run default_config path sample)) ≡ []
unfolding ◌==◌
prefer_exec-apply_fixes_example =
    prefer_exec-apply_fixes default_config path sample default-enables (refl, (refl, tt))
