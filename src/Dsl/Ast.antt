-- ===== src/Dsl/Ast.antt =====
-- internal/dsl/ast.go: the syntax tree. A struct whose fields are the alternatives of a grammar
-- rule, of which the parser fills exactly one, is a data type with a constructor for each; a struct
-- that only wraps one list or one text is that list or text.
use go_bake.Base.{ℕ, Bool, Option, List, [], ◌∷◌, Text}

pub record Position : Type 0 where
  pub line : ℕ
  pub column : ℕ

-- An element of a bracketed list, and whether it was quoted.
pub record ExecElem : Type 0 where
  pub value : Text
  pub quoted : Bool

pub record EnvPair : Type 0 where
  pub key : Text
  pub value : Text

pub record ArgsClause : Type 0 where
  pub name : Text
  pub type : Text
  pub short : Text
  pub default : Text

pub data Step : Type 0 where
  exec : List ExecElem → Step
  cmd : List Text → Step
  shell : (runner script : Text) → Step

pub data PresetEntry : Type 0 where
  argv : List ExecElem → PresetEntry
  env : List EnvPair → PresetEntry
  desc : Text → PresetEntry
  steps : List Step → PresetEntry

pub record PresetBlock : Type 0 where
  pub pos : Position
  pub name : Text
  pub body : List PresetEntry

pub data ImageClause : Type 0 where
  ident : Text → ImageClause
  string : Text → ImageClause

pub data ScheduleClause : Type 0 where
  cron : Text → ScheduleClause
  interval : Text → ScheduleClause

pub data WorkflowEntry : Type 0 where
  schedule : ScheduleClause → WorkflowEntry
  ident : Text → WorkflowEntry

mutual
  -- One clause of a target's or a daemon's body.
  pub data BodyEntry : Type 0 where
    deps : List Text → BodyEntry
    steps : List Step → BodyEntry
    step : Step → BodyEntry
    env : List EnvPair → BodyEntry
    args : ArgsClause → BodyEntry
    cwd : Text → BodyEntry
    desc : Text → BodyEntry
    tags : List Text → BodyEntry
    passthrough : ℕ → Option Text → BodyEntry
    inputs : List ExecElem → BodyEntry
    outputs : List ExecElem → BodyEntry
    when_env : Text → BodyEntry
    when_cmd : List ExecElem → BodyEntry
    private : BodyEntry
    preset : PresetBlock → BodyEntry
    pool : Text → BodyEntry
    mutex : Text → BodyEntry
    image : ImageClause → BodyEntry
    unsafe : BodyEntry
    net : Text → BodyEntry
    vol : Text → Option Text → BodyEntry
    workflow : List WorkflowEntry → BodyEntry
    daemon : Position → Text → Entries → BodyEntry

  -- The entries of a daemon's body.
  pub data Entries : Type 0 where
    end : Entries
    entry : BodyEntry → Entries → Entries

abbrev pub to_list : Entries → List BodyEntry
to_list end = []
to_list (entry e es) = e ∷ to_list es

abbrev pub of_list : List BodyEntry → Entries
of_list [] = end
of_list (e ∷ es) = entry e (of_list es)

-- `body` is none in the single-line form, which has `cmd_tok` instead.
pub record TargetBlock : Type 0 where
  pub pos : Position
  pub name : Text
  pub body : Option (List BodyEntry)
  pub cmd_tok : List Text

pub data ProfileEntry : Type 0 where
  dotenv : List ExecElem → ProfileEntry
  env : List EnvPair → ProfileEntry

pub record ProfileBlock : Type 0 where
  pub pos : Position
  pub name : Text
  pub body : List ProfileEntry

pub data SuiteEntry : Type 0 where
  ident : Text → SuiteEntry
  quoted : Text → SuiteEntry

pub record SuiteBlock : Type 0 where
  pub pos : Position
  pub name : Text
  pub entries : List SuiteEntry

pub data FileEntry : Type 0 where
  import_line : Text → FileEntry
  suite : SuiteBlock → FileEntry
  target : TargetBlock → FileEntry
  profile : ProfileBlock → FileEntry
  private : FileEntry

pub record Bakefile : Type 0 where
  pub dotenv : List Text
  pub entries : List FileEntry
