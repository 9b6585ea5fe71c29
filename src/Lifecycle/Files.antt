-- ===== src/Lifecycle/Files.antt =====
-- The state file against a map from names to daemons.
use mathlib.Core.Path.{subst}
use go_bake.Base.{
  ok-injective, Result, ok, err, ◌≡◌, refl, ap, ◌∙◌, Option, none, some, [], ◌∷◌, Text, lookup,
  insert, lookup-insert, ==_iff, ◌==◌, arith, if◌then◌else◌, bytes,
}
use go_bake.System.{System, FileRead}
use go_bake.Lifecycle.{
  DaemonEntry, State, StateCodec, delete, state_path, read_state, load, write_state, save, change,
  add_daemon, remove_daemon,
}

pub lookup-delete :
    (name other : Text) (s : State)
    → lookup other (delete name s) ≡ (if name == other then none else lookup other s)
unfolding delete lookup
lookup-delete name other [] = ground arith
lookup-delete name other ((n, e) ∷ s) =
    ground (arith, ==_iff name other, ==_iff n name, ==_iff n other, lookup-delete name other s)

-- The same map.
abbrev pub Same : State → State → Type 0
Same s t = (name : Text) → lookup name s ≡ lookup name t

module _ (sys : System) (json : StateCodec) where
  -- Directories can be made and files written, a file reads as it was written, and JSON gives back
  -- the same map.
  pub record Files : Type 0 where
    pub dirs : (path : Text) (w : sys.World) → (sys.make_dirs path w).0 ≡ none
    pub writes : (path text : Text) (w : sys.World) → (sys.write_file path text w).0 ≡ none
    pub reads :
        (path text : Text) (w : sys.World)
        → sys.read_file path (sys.write_file path text w).1 ≡ FileRead.contents text
    pub codec : (s : State) → (t : State) × (json.unmarshal (json.marshal s) ≡ some t) × Same t s

  -- The state file can be read, and holds the map.
  abbrev pub Holds : Text → State → sys.World → Type 0
  Holds root s w = (t : State) × (load sys json root w ≡ ok t) × Same t s

  module _ (files : Files) (root : Text) where
    -- A state has been saved without an error.
    abbrev pub Saved : State → Option Text × sys.World → Type 0
    Saved s r = (r.0 ≡ none) × Holds root s r.1

    read_state-contents :
        (c : Text) (t : State)
        → json.unmarshal c ≡ some t
        → read_state sys json root (FileRead.contents c) ≡ ok t
    unfolding read_state
    read_state-contents c t e = rw e refl

    write_state-Saved :
        (s : State) (r : Option Text × sys.World)
        → r.0 ≡ none
        → Saved s (write_state sys json root s r)
    unfolding write_state load
    write_state-Saved s (some message, w) e = cc
    write_state-Saved s (none, w) e =
        let path = state_path sys json root in
        let (t, back, same) = files.codec s in
        (
          files.writes path (json.marshal s) w,
          (
            t,
            ap (read_state sys json root) (files.reads path (json.marshal s) w)
                ∙ read_state-contents (json.marshal s) t back,
            same,
          ),
        )

    save-Saved : (s : State) (w : sys.World) → Saved s (save sys json root s w)
    unfolding save
    save-Saved s w =
        let dir = sys.join root (bytes ".bake") in
        write_state-Saved s (sys.make_dirs dir w) (files.dirs dir w)

    -- What AddDaemon and RemoveDaemon do to the map.
    change-Saved :
        (f : State → State) (r : Result State) (s : State) (w : sys.World)
        → r ≡ ok s
        → Saved (f s) (change sys json f root r w)
    unfolding change
    change-Saved f (err message) s w e = cc
    change-Saved f (ok t) s w e =
        subst (λ u. Saved (f u) (save sys json root (f t) w)) (ok-injective e) (save-Saved (f t) w)

    pub add_daemon-Saved :
        (name : Text) (e : DaemonEntry) (s : State) (w : sys.World)
        → load sys json root w ≡ ok s
        → Saved (insert name e s) (add_daemon sys json root name e.pid e.container_id w)
    unfolding add_daemon
    add_daemon-Saved name e s w loaded =
        change-Saved (insert name e) (load sys json root w) s w loaded

    pub remove_daemon-Saved :
        (name : Text) (s : State) (w : sys.World)
        → load sys json root w ≡ ok s
        → Saved (delete name s) (remove_daemon sys json root name w)
    unfolding remove_daemon
    remove_daemon-Saved name s w loaded =
        change-Saved (delete name) (load sys json root w) s w loaded

-- What AddDaemon and RemoveDaemon do to the state file is a write to the map and a removal from it:
-- both succeed, the entry is there afterwards or is not, and every other name keeps its entry.
-- Files can be written and read, and JSON gives back the same map.
pub add_remove-Same :
    (sys : System) (json : StateCodec) (root name : Text) (e : DaemonEntry) (s : State)
    (w : sys.World)
    → Files sys json
    → load sys json root w ≡ ok s
    → let added : Option Text × sys.World = add_daemon sys json root name e.pid e.container_id w in
      let removed : Option Text × sys.World = remove_daemon sys json root name w in
      (added.0 ≡ none)
      × ((t : State) × (load sys json root added.1 ≡ ok t)
          × ((other : Text) → lookup other t ≡ (if name == other then some e else lookup other s)))
      × (removed.0 ≡ none)
      × ((t : State) × (load sys json root removed.1 ≡ ok t)
          × ((other : Text) → lookup other t ≡ (if name == other then none else lookup other s)))
add_remove-Same sys json root name e s w files loaded =
    let (e₁, (t, l, same)) = add_daemon-Saved sys json files root name e s w loaded in
    let (e₂, (u, m, same')) = remove_daemon-Saved sys json files root name s w loaded in
    (
      e₁,
      (t, l, λ other. same other ∙ lookup-insert name other e s),
      e₂,
      (u, m, λ other. same' other ∙ lookup-delete name other s),
    )
