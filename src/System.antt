-- ===== src/System.antt =====
-- The machine that the program runs on, and the libraries that it calls for it: files, processes,
-- containers, hashes and templates. `World` is the state of the machine; an error is its message.
pub mod Tests
use go_bake.Base.{ℕ, Option, List, Text, TextMap, Bool}
use go_bake.Config.{VolumeRef}
use go_bake.Resolve.Expand.{Data}

pub data FileRead : Type 0 where
  not_exist : FileRead
  failed : Text → FileRead
  contents : Text → FileRead

-- os.Stat: the modification time of what is found.
pub data FileStat : Type 0 where
  not_exist : FileStat
  failed : Text → FileStat
  directory : ℕ → FileStat
  file : ℕ → FileStat

-- os.ReadDir: the names, and whether they are directories.
pub data DirRead : Type 0 where
  not_exist : DirRead
  failed : Text → DirRead
  entries : List (Text × Bool) → DirRead

-- A process: its arguments, its directory and its environment.
pub record Process : Type 0 where
  pub argv : List Text
  pub cwd : Text
  pub env : TextMap Text

-- container.RunOptions, less its writers.
pub record ContainerRun : Type 0 where
  pub image : Text
  pub root_dir : Text
  pub target_cwd : Text
  pub networks : List Text
  pub volumes : List VolumeRef
  pub steps : List Process

pub record System : Type 1 where
  pub World : Type 0
  pub environ : List Text
  pub getenv : Text → Text
  pub exec : Process → World → Option Text × World
  pub run_container : ContainerRun → World → Option Text × World
  pub read_file : Text → World → FileRead
  pub read_dir : Text → World → DirRead
  pub write_file : Text → Text → World → Option Text × World
  pub make_dirs : Text → World → Option Text × World
  pub stat : Text → World → FileStat
  -- `none` is a pattern that is not well-formed, and a tree that cannot be walked.
  pub glob : Text → World → Option (List Text)
  pub walk : Text → World → Option (List Text)
  pub rel : Text → Text → Option Text
  pub join : Text → Text → Text
  pub clean : Text → Text
  pub sha256 : Text → Text
  pub hex : Text → Text
  -- text/template; `none` is a template that cannot be parsed or executed.
  pub expand : Data → Text → Option Text
