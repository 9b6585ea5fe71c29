-- ===== src/Service/Reload/Diff.antt =====
-- What the slices of DaemonDiff hold, by name.
use mathlib.Core.Path.{subst}
use go_bake.Base.{
  ◌≡◌, refl, ap, ◌∙◌, sym, ◌↔◌, Bool, true, false, not, Option, none, some, List, [], ◌∷◌, map,
  Text, TextMap, lookup, lookup-insert, insert, or_else, or_else-none, contains, AllDistinct,
  Bool-cases, inl, inr, ==_iff, ◌==◌, arith, if◌then◌else◌,
}
use go_bake.Config.{Step, Daemon, find_daemon}
use go_bake.Service.Reload.{
  argv_equal, steps_equal, daemon_equal, daemon_map, missing_from, changed_from, is_absent,
  differs_from,
}

abbrev pub names : List Daemon → List Text
names ds = map (λ d. d.name) ds

-- The image and the command lines: what a daemon is compared by.
abbrev pub SameCommand : Daemon → Daemon → Type 0
SameCommand a b =
    (a.image ≡ b.image) × (map (λ (s : Step). s.argv) a.steps ≡ map (λ (s : Step). s.argv) b.steps)

abbrev head_or : List Text → Text
head_or [] = []
head_or (x ∷ xs) = x

abbrev tail_or {ℓ} : {A : Type ℓ} → List A → List A
tail_or [] = []
tail_or (x ∷ xs) = xs

argv_equal_iff : (a b : List Text) → (argv_equal a b ≡ true) ↔ (a ≡ b)
unfolding argv_equal
argv_equal_iff [] [] = (λ e. refl, λ e. refl)
argv_equal_iff [] (b ∷ bs) = (λ e. absurd (ground arith), λ e. cc)
argv_equal_iff (a ∷ xs) [] = (λ e. absurd (ground arith), λ e. cc)
argv_equal_iff (a ∷ xs) (b ∷ bs) = (
  λ e. ground (arith, ==_iff a b, argv_equal_iff xs bs),
  λ e.
      let h : a ≡ b = ap head_or e in
      let t : xs ≡ bs = ap tail_or e in ground (arith, ==_iff a b, argv_equal_iff xs bs),
)

steps_equal_iff :
    (a b : List Step)
    → (steps_equal a b ≡ true) ↔ (map (λ (s : Step). s.argv) a ≡ map (λ (s : Step). s.argv) b)
unfolding steps_equal
steps_equal_iff [] [] = (λ e. refl, λ e. refl)
steps_equal_iff [] (b ∷ bs) = (λ e. absurd (ground arith), λ e. cc)
steps_equal_iff (a ∷ xs) [] = (λ e. absurd (ground arith), λ e. cc)
steps_equal_iff (a ∷ xs) (b ∷ bs) = (
  λ e.
      let h : a.argv ≡ b.argv = (argv_equal_iff a.argv b.argv).0 (ground arith) in
      let t = (steps_equal_iff xs bs).0 (ground arith) in rw (h, t) refl,
  λ e.
      let h : argv_equal a.argv b.argv ≡ true =
        (argv_equal_iff a.argv b.argv).1 (ap (λ ys. elim ys [ [] ↦ a.argv | y ∷ _ ↦ y ]) e) in
      let t = (steps_equal_iff xs bs).1 (ap tail_or e) in ground arith,
)

pub daemon_equal_iff : (a b : Daemon) → (daemon_equal a b ≡ true) ↔ SameCommand a b
unfolding daemon_equal
daemon_equal_iff a b = (
  λ e. (
    (==_iff a.image b.image).0 (ground arith),
    (steps_equal_iff a.steps b.steps).0 (ground arith),
  ),
  λ h.
      let i : (a.image == b.image) ≡ true = (==_iff a.image b.image).1 h.0 in
      let t = (steps_equal_iff a.steps b.steps).1 h.1 in ground arith,
)

pub find_daemon-absent :
    (ds : List Daemon) (name : Text) → contains (names ds) name ≡ false → find_daemon ds name ≡ none
unfolding find_daemon contains
find_daemon-absent [] name h = refl
find_daemon-absent (d ∷ ds) name h = ground (arith, find_daemon-absent ds name)

lookup-daemon_map_onto :
    (ds : List Daemon) (m : TextMap Daemon) (name : Text)
    → AllDistinct (names ds)
    → lookup name (daemon_map ds m) ≡ or_else (find_daemon ds name) (lookup name m)
unfolding daemon_map find_daemon
lookup-daemon_map_onto [] m name h = refl
lookup-daemon_map_onto (d ∷ ds) m name h = elim (Bool-cases (d.name == name)) [
  | inl here ↦
      let absent : find_daemon ds name ≡ none =
        find_daemon-absent ds name
          (subst (λ x. contains (names ds) x ≡ false) ((==_iff d.name name).0 here) h.0) in
      rw here (
        lookup-daemon_map_onto ds (insert d.name d m) name h.1
        ∙ ap (λ o. or_else o (lookup name (insert d.name d m))) absent
        ∙ lookup-insert d.name name d m
        ∙ ap (λ b. if b then some d else lookup name m) here)
  | inr other ↦ rw other (
      lookup-daemon_map_onto ds (insert d.name d m) name h.1
      ∙ ap (or_else (find_daemon ds name))
          (lookup-insert d.name name d m ∙ ap (λ b. if b then some d else lookup name m) other))
]

pub lookup-daemon_map :
    (ds : List Daemon) (name : Text)
    → AllDistinct (names ds)
    → lookup name (daemon_map ds []) ≡ find_daemon ds name
unfolding lookup
lookup-daemon_map ds name h =
    lookup-daemon_map_onto ds [] name h ∙ or_else-none (find_daemon ds name)

-- The daemon under a name in a slice of DaemonDiff, by the daemons under it in the two files.
abbrev pub missing_one : Option Daemon → Option Daemon → Option Daemon
missing_one none found = found
missing_one (some old) found = none

abbrev pub changed_one : Option Daemon → Option Daemon → Option Daemon
changed_one none found = none
changed_one (some old) none = none
changed_one (some old) (some d) = if not (daemon_equal old d) then some d else none

find-other :
    (b : Bool) (d : Daemon) (ds : List Daemon) (name : Text)
    → (d.name == name) ≡ false
    → find_daemon (if b then d ∷ ds else ds) name ≡ find_daemon ds name
unfolding find_daemon
find-other true d ds name other = rw other refl
find-other false d ds name other = refl

find-missing_here :
    (o : Option Daemon) (d : Daemon) (ds : List Daemon) (name : Text) (found : Option Daemon)
    → (d.name == name) ≡ true
    → find_daemon ds name ≡ missing_one o found
    → find_daemon (if is_absent o then d ∷ ds else ds) name ≡ missing_one o (some d)
unfolding find_daemon
find-missing_here none d ds name found here e = rw here refl
find-missing_here (some old) d ds name found here e = e

pub find-missing_from :
    (m : TextMap Daemon) (ds : List Daemon) (name : Text)
    → find_daemon (missing_from m ds) name ≡ missing_one (lookup name m) (find_daemon ds name)
unfolding find_daemon missing_from
find-missing_from m [] name = elim (lookup name m) as (λ o. none ≡ missing_one o none) [
  | none ↦ refl
  | some old ↦ refl
]
find-missing_from m (d ∷ ds) name = elim (Bool-cases (d.name == name)) [
  | inl here ↦ rw here (
      subst
        (λ x.
          find_daemon (if is_absent (lookup x m) then d ∷ missing_from m ds else missing_from m ds)
            name
          ≡ missing_one (lookup name m) (some d))
        (sym ((==_iff d.name name).0 here))
        (find-missing_here (lookup name m) d (missing_from m ds) name (find_daemon ds name) here
          (find-missing_from m ds name)))
  | inr other ↦ rw other (
      find-other (is_absent (lookup d.name m)) d (missing_from m ds) name other
      ∙ find-missing_from m ds name)
]

find-changed_here :
    (o : Option Daemon) (d : Daemon) (ds : List Daemon) (name : Text)
    → (d.name == name) ≡ true
    → find_daemon ds name ≡ changed_one o none
    → find_daemon (if differs_from o d then d ∷ ds else ds) name ≡ changed_one o (some d)
unfolding find_daemon
find-changed_here none d ds name here e = e
find-changed_here (some old) d ds name here e =
    elim (daemon_equal old d)
      as (λ b. find_daemon (if not b then d ∷ ds else ds) name ≡ (if not b then some d else none)) [
        | true ↦ e
        | false ↦ rw here refl
      ]

pub find-changed_from :
    (m : TextMap Daemon) (ds : List Daemon) (name : Text)
    → AllDistinct (names ds)
    → find_daemon (changed_from m ds) name ≡ changed_one (lookup name m) (find_daemon ds name)
unfolding find_daemon changed_from
find-changed_from m [] name h = elim (lookup name m) as (λ o. none ≡ changed_one o none) [
  | none ↦ refl
  | some old ↦ refl
]
find-changed_from m (d ∷ ds) name h = elim (Bool-cases (d.name == name)) [
  | inl here ↦
      let absent : find_daemon ds name ≡ none =
        find_daemon-absent ds name
          (subst (λ x. contains (names ds) x ≡ false) ((==_iff d.name name).0 here) h.0) in
      rw here (
        subst
          (λ x.
            find_daemon
              (if differs_from (lookup x m) d then d ∷ changed_from m ds else changed_from m ds)
              name
            ≡ changed_one (lookup name m) (some d))
          (sym ((==_iff d.name name).0 here))
          (find-changed_here (lookup name m) d (changed_from m ds) name here
            (find-changed_from m ds name h.1 ∙ ap (changed_one (lookup name m)) absent)))
  | inr other ↦ rw other (
      find-other (differs_from (lookup d.name m) d) d (changed_from m ds) name other
      ∙ find-changed_from m ds name h.1)
]

-- A slice of distinct names.
names-if :
    (b : Bool) (d : Daemon) (ds : List Daemon) (name : Text)
    → contains (names (if b then d ∷ ds else ds)) name
      ≡ (if b then contains (names (d ∷ ds)) name else contains (names ds) name)
names-if true d ds name = refl
names-if false d ds name = refl

AllDistinct-if :
    (b : Bool) (d : Daemon) (ds : List Daemon)
    → contains (names ds) d.name ≡ false
    → AllDistinct (names ds)
    → AllDistinct (names (if b then d ∷ ds else ds))
AllDistinct-if true d ds absent h = (absent, h)
AllDistinct-if false d ds absent h = h

missing_from-absent :
    (m : TextMap Daemon) (ds : List Daemon) (name : Text)
    → contains (names ds) name ≡ false
    → contains (names (missing_from m ds)) name ≡ false
unfolding missing_from contains
missing_from-absent m [] name h = refl
missing_from-absent m (d ∷ ds) name h =
    let rest = missing_from-absent m ds name (ground arith) in
    names-if (is_absent (lookup d.name m)) d (missing_from m ds) name ∙ ground arith

pub missing_from-AllDistinct :
    (m : TextMap Daemon) (ds : List Daemon)
    → AllDistinct (names ds)
    → AllDistinct (names (missing_from m ds))
unfolding missing_from
missing_from-AllDistinct m [] h = tt
missing_from-AllDistinct m (d ∷ ds) h =
    AllDistinct-if (is_absent (lookup d.name m)) d (missing_from m ds)
      (missing_from-absent m ds d.name h.0) (missing_from-AllDistinct m ds h.1)

changed_from-absent :
    (m : TextMap Daemon) (ds : List Daemon) (name : Text)
    → contains (names ds) name ≡ false
    → contains (names (changed_from m ds)) name ≡ false
unfolding changed_from contains
changed_from-absent m [] name h = refl
changed_from-absent m (d ∷ ds) name h =
    let rest = changed_from-absent m ds name (ground arith) in
    names-if (differs_from (lookup d.name m) d) d (changed_from m ds) name ∙ ground arith

pub changed_from-AllDistinct :
    (m : TextMap Daemon) (ds : List Daemon)
    → AllDistinct (names ds)
    → AllDistinct (names (changed_from m ds))
unfolding changed_from
changed_from-AllDistinct m [] h = tt
changed_from-AllDistinct m (d ∷ ds) h =
    AllDistinct-if (differs_from (lookup d.name m) d) d (changed_from m ds)
      (changed_from-absent m ds d.name h.0) (changed_from-AllDistinct m ds h.1)
