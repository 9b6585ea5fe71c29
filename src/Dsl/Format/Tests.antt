-- ===== src/Dsl/Format/Tests.antt =====
-- The formatter on a small file.
use go_bake.Base.{
  ◌≡◌, refl, inl, ◌++◌, none, some, [], ◌∷◌, Text, bytes, collect, text_leb, sort_by, decimal,
  arith,
}
use go_bake.Dsl.Ast.{Position, BodyEntry, Step, SuiteEntry, FileEntry, Bakefile}
use go_bake.Dsl.Load.{raw}
use go_bake.Dsl.Runes.{valid_runes}
use go_bake.Dsl.Format.{any_special, write_env_value}
use go_bake.Dsl.Format.Blocks.{write_entry_text, write_bakefile}
use go_bake.Dsl.Format.Blocks.Canonical.{ordered, write_bakefile-ordered}
use go_bake.Dsl.Format.Blocks.Read.{
  read_value, read_value-write_env_value, read_value-digit, raw-write_entry_text,
}

abbrev nowhere : Position
nowhere = record { line = 0; column = 0 }

abbrev small : Bakefile
small = record {
  dotenv = bytes ".env" ∷ [];
  entries =
      FileEntry.target (record {
        pos = nowhere;
        name = bytes "b";
        body = some (
            BodyEntry.steps (Step.cmd (bytes "make" ∷ []) ∷ [])
            ∷ BodyEntry.env (record { key = bytes "PORT"; value = bytes "80" } ∷ [])
            ∷ BodyEntry.deps (bytes "a" ∷ bytes "c" ∷ [])
            ∷ []);
        cmd_tok = [];
      })
      ∷ FileEntry.target (record {
        pos = nowhere;
        name = bytes "a";
        body = none;
        cmd_tok = bytes "make" ∷ bytes "all" ∷ [];
      })
      ∷ FileEntry.suite (record {
        pos = nowhere;
        name = bytes "ci";
        entries = SuiteEntry.quoted (bytes "b fast") ∷ SuiteEntry.ident (bytes "a") ∷ [];
      })
      ∷ FileEntry.import_line (bytes "lib")
      ∷ [];
}

abbrev eol : Text
eol = 10 ∷ []

runs : Unit {0}
unfolding write_bakefile bytes collect sort_by text_leb decimal
runs = tt

write_bakefile-small :
    write_bakefile small
    ≡ bytes "dotenv .env"
      ++ eol
      ++ eol
      ++ bytes "import \"lib\""
      ++ eol
      ++ eol
      ++ bytes "suite ci {"
      ++ eol
      ++ bytes "  a"
      ++ eol
      ++ bytes "  b.fast"
      ++ eol
      ++ bytes "}"
      ++ eol
      ++ eol
      ++ bytes "target a cmd make all"
      ++ eol
      ++ eol
      ++ bytes "target b {"
      ++ eol
      ++ bytes "  deps a, c"
      ++ eol
      ++ bytes "  env { PORT 80 }"
      ++ eol
      ++ bytes "  steps { cmd make }"
      ++ eol
      ++ bytes "}"
      ++ eol
unfolding runs
write_bakefile-small = refl

write_bakefile-ordered_example : write_bakefile (ordered small) ≡ write_bakefile small
write_bakefile-ordered_example = write_bakefile-ordered small

read_value-write_env_value_example :
    read_value (write_env_value (bytes "debug") ++ b' ' ∷ bytes "}")
    ≡ some (bytes "debug", b' ' ∷ bytes "}")
unfolding bytes valid_runes
read_value-write_env_value_example =
    read_value-write_env_value (bytes "debug") (bytes "}") (inl refl) refl refl

read_value-digit_example :
    (write_env_value (bytes "80") ≡ bytes "80")
    × (read_value (write_env_value (bytes "80") ++ bytes " }") ≡ none)
unfolding bytes any_special
read_value-digit_example = read_value-digit b'8' (bytes "0") (bytes " }") refl refl

raw-write_entry_text_example :
    raw (SuiteEntry.ident (write_entry_text (SuiteEntry.quoted (bytes "b fast")))) ≡ bytes "b fast"
unfolding bytes raw
raw-write_entry_text_example =
    raw-write_entry_text (SuiteEntry.quoted (bytes "b fast")) (refl, omega arith)

-- A quoted name with a dot, which is written as a name and a preset.
raw-dotted :
    raw (SuiteEntry.ident (write_entry_text (SuiteEntry.quoted (bytes "v1.2")))) ≡ bytes "v1 2"
unfolding bytes raw write_entry_text
raw-dotted = refl
