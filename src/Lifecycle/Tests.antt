-- ===== src/Lifecycle/Tests.antt =====
-- Two daemons, one of which has ended, on the machine of the tests.
use go_bake.Base.{
  ok, ℕ, suc, ◌≡◌, refl, ap, ◌∙◌, Bool, false, some, List, [], ◌∷◌, ◌++◌, map, Text, bytes, lookup,
  insert, ◌==◌, ==_refl, lookup-insert, nat_eq, if◌then◌else◌, contains, AllDistinct,
}
use go_bake.System.Tests.{Machine, machine, fresh, pack, unpack, onto, read_of}
use go_bake.Lifecycle.{
  DaemonEntry, State, StateCodec, load, save, delete, state_path, add_daemon, remove_daemon, check,
  is_daemon_alive,
}
use go_bake.Lifecycle.Files.{Files}
use go_bake.Lifecycle.Health.{Disk, kept, check-alive}

unpack-line : (s r : Text) → unpack (map suc s ++ 0 ∷ r) ≡ s ∷ unpack r
unpack-line [] r = refl
unpack-line (c ∷ s) r = ap (onto c) (unpack-line s r)

pub unpack-pack : (ss : List Text) → unpack (pack ss) ≡ ss
unpack-pack [] = refl
unpack-pack (s ∷ ss) = unpack-line s (pack ss) ∙ ap (λ more. s ∷ more) (unpack-pack ss)

abbrev rows : State → List Text
rows [] = []
rows ((n, e) ∷ s) = n ∷ (e.pid ∷ e.container_id) ∷ rows s

abbrev entry : Text → DaemonEntry
entry [] = record { pid = 0; container_id = [] }
entry (n ∷ c) = record { pid = n; container_id = c }

abbrev unrows : List Text → State
unrows [] = []
unrows (n ∷ []) = []
unrows (n ∷ e ∷ more) = (n, entry e) ∷ unrows more

unrows-rows : (s : State) → unrows (rows s) ≡ s
unrows-rows [] = refl
unrows-rows ((n, e) ∷ s) = ap (λ more. (n, e) ∷ more) (unrows-rows s)

abbrev pub state_codec : StateCodec
state_codec = record { marshal = λ s. pack (rows s); unmarshal = λ t. some (unrows (unpack t)) }

-- The processes that are there.
abbrev process_there : ℕ → Machine → Bool
process_there pid m = nat_eq pid 7

abbrev container_there : Text → Machine → Bool
container_there id m = false

pub files : Files machine state_codec
files = record {
  dirs = λ path w. refl;
  writes = λ path text w. refl;
  reads = λ path text w.
      let here : (if path == path then some text else lookup path w.files) ≡ some text =
        rw (==_refl path) refl in
      ap read_of (lookup-insert path path text w.files ∙ here);
  codec = λ s.
      (s, ap (λ t. some (unrows t)) (unpack-pack (rows s)) ∙ ap some (unrows-rows s), λ name. refl);
}

disk : Disk machine state_codec process_there container_there
unfolding is_daemon_alive
disk = record { files = files; after_dirs = λ path w e. refl; after_write = λ path text w e. refl }

abbrev two : State
two =
    (bytes "api", record { pid = 7; container_id = [] })
    ∷ (bytes "db", record { pid = 8; container_id = [] })
    ∷ []

abbrev before : Machine
before = (save machine state_codec [] two (fresh [])).1

runs : Unit {0}
unfolding save load delete state_path add_daemon remove_daemon check is_daemon_alive lookup insert
    bytes contains ◌==◌
runs = tt

two-loaded : load machine state_codec [] before ≡ ok two
unfolding runs
two-loaded = refl

two-AllDistinct : AllDistinct (map (λ p. p.0) two)
unfolding runs
two-AllDistinct = (refl, (refl, tt))

check-before :
    load machine state_codec [] (check machine state_codec process_there container_there [] before)
    ≡ ok ((bytes "api", record { pid = 7; container_id = [] }) ∷ [])
unfolding runs
check-before = refl

check-alive_example :
    (t : State) × (load machine state_codec []
        (check machine state_codec process_there container_there [] before)
      ≡ ok t)
    × ((name : Text)
        → lookup name t
          ≡ kept machine state_codec process_there container_there (lookup name two) before)
check-alive_example =
    check-alive machine state_codec process_there container_there [] two before disk two-AllDistinct
      two-loaded
