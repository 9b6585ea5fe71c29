-- ===== src/Lifecycle/Health.antt =====
-- What a health check leaves of the state file.
use mathlib.Core.Path.{subst}
use go_bake.Base.{
  Result, ok, err, ℕ, ◌≡◌, refl, sym, ◌∙◌, Bool, true, false, ◌&&◌, ◌||◌, not, Option, none, some,
  [], ◌∷◌, map, Text, lookup, AllDistinct, contains, contains-cons, Bool-cases, inl, inr, ==_iff,
  ◌==◌, arith, if◌then◌else◌, bytes,
}
use go_bake.System.{System}
use go_bake.Lifecycle.Files.{Files, lookup-delete, remove_daemon-Saved}
use go_bake.Lifecycle.{
  DaemonEntry, State, StateCodec, delete, state_path, load, write_state, save, change,
  remove_daemon, is_daemon_alive, check_entries, check_loaded, check,
}

module _ (sys : System) (json : StateCodec) (process_there : ℕ → sys.World → Bool)
    (container_there : Text → sys.World → Bool) where
  abbrev pub alive : DaemonEntry → sys.World → Bool
  alive = is_daemon_alive sys json process_there container_there

  -- Files can be read and written, and writing them starts and ends no process and no container.
  pub record Disk : Type 0 where
    pub files : Files sys json
    pub after_dirs :
        (path : Text) (w : sys.World) (e : DaemonEntry)
        → alive e (sys.make_dirs path w).1 ≡ alive e w
    pub after_write :
        (path text : Text) (w : sys.World) (e : DaemonEntry)
        → alive e (sys.write_file path text w).1 ≡ alive e w

  -- The entry of a daemon that is alive.
  abbrev pub kept : Option DaemonEntry → sys.World → Option DaemonEntry
  kept none w = none
  kept (some e) w = if alive e w then some e else none

  module _ (disk : Disk) (root : Text) where
    -- The same daemons are alive.
    abbrev Steady : sys.World → sys.World → Type 0
    Steady u w = (e : DaemonEntry) → alive e u ≡ alive e w

    write_state-Steady :
        (s : State) (r : Option Text × sys.World) → Steady (write_state sys json root s r).1 r.1
    unfolding write_state
    write_state-Steady s (some message, w) = λ e. refl
    write_state-Steady s (none, w) = disk.after_write (state_path sys json root) (json.marshal s) w

    change-Steady :
        (f : State → State) (r : Result State) (w : sys.World)
        → Steady (change sys json f root r w).1 w
    unfolding change save
    change-Steady f (err message) w = λ e. refl
    change-Steady f (ok s) w =
        let dir = sys.join root (bytes ".bake") in
        λ e. write_state-Steady (f s) (sys.make_dirs dir w) e ∙ disk.after_dirs dir w e

    remove_daemon-Steady :
        (name : Text) (w : sys.World) → Steady (remove_daemon sys json root name w).1 w
    unfolding remove_daemon
    remove_daemon-Steady name w = change-Steady (delete name) (load sys json root w) w

    -- An entry under the name that is not alive.
    abbrev dead_in : State → Text → sys.World → Bool
    dead_in [] name w = false
    dead_in ((n, e) ∷ s) name w = n == name && not (alive e w) || dead_in s name w

    dead_in-steady :
        (s : State) (name : Text) (u w : sys.World)
        → ((e : DaemonEntry) → alive e u ≡ alive e w)
        → dead_in s name u ≡ dead_in s name w
    dead_in-steady [] name u w h = refl
    dead_in-steady ((n, e) ∷ s) name u w h = rw (h e) (rw (dead_in-steady s name u w h) refl)

    Left : State → State → sys.World → sys.World → Type 0
    Left es s w u =
        (t : State) × (load sys json root u ≡ ok t)
        × ((name : Text) → lookup name t ≡ (if dead_in es name w then none else lookup name s))

    check_entries-Left :
        (es s : State) (w : sys.World)
        → load sys json root w ≡ ok s
        → Left es s w (check_entries sys json process_there container_there root es w)
    unfolding check_entries Left
    check_entries-Left [] s w loaded = (s, loaded, λ name. refl)
    check_entries-Left ((n, e) ∷ es) s w loaded = elim (Bool-cases (alive e w)) [
      | inl yes_alive ↦
          let (t, l, eq) = check_entries-Left es s w loaded in
          rw yes_alive (t, l, λ name. ground (arith, eq name))
      | inr dead ↦
          let (_, (s', l', same)) = remove_daemon-Saved sys json disk.files root n s w loaded in
          let steady = remove_daemon-Steady n w in
          let (t, l, eq) = check_entries-Left es s' (remove_daemon sys json root n w).1 l' in
          rw dead (
            t,
            l,
            λ name. ground (
              arith,
              eq name,
              same name,
              lookup-delete n name s,
              dead_in-steady es name (remove_daemon sys json root n w).1 w steady,
            ),
          )
    ]

    dead_in-absent :
        (s : State) (name : Text) (w : sys.World)
        → contains (map (λ p. p.0) s) name ≡ false
        → dead_in s name w ≡ false
    dead_in-absent [] name w h = refl
    dead_in-absent ((n, e) ∷ s) name w h =
        ground (arith, contains-cons n (map (λ p. p.0) s) name, dead_in-absent s name w)

    kept_alive :
        (b : Bool) (o : Option DaemonEntry)
        → (if not b || false then none else o) ≡ (if b then o else none)
    kept_alive true o = refl
    kept_alive false o = refl

    lookup-kept :
        (s : State) (name : Text) (w : sys.World)
        → AllDistinct (map (λ p. p.0) s)
        → (if dead_in s name w then none else lookup name s) ≡ kept (lookup name s) w
    unfolding lookup
    lookup-kept [] name w h = refl
    lookup-kept ((n, e) ∷ s) name w h = elim (Bool-cases (n == name)) [
      | inl here ↦
          let absent =
            subst (λ x. contains (map (λ p. p.0) s) x ≡ false) ((==_iff n name).0 here) h.0 in
          rw here (rw (dead_in-absent s name w absent) (kept_alive (alive e w) (some e)))
      | inr other ↦ rw other (lookup-kept s name w h.1)
    ]

    check-Left :
        (s : State) (w : sys.World)
        → load sys json root w ≡ ok s
        → Left s s w (check sys json process_there container_there root w)
    unfolding check check_loaded
    check-Left s w loaded =
        subst (λ r. Left s s w (check_loaded sys json process_there container_there root r w))
          (sym loaded) (check_entries-Left s s w loaded)

-- A health check leaves in the state file the daemons that are alive, each with the entry that it
-- had, and no others. Files can be written and read, JSON gives back the same map, writing files
-- starts and ends no daemon, and no name stands twice in the map.
pub check-alive :
    (sys : System) (json : StateCodec) (process_there : ℕ → sys.World → Bool)
    (container_there : Text → sys.World → Bool) (root : Text) (s : State) (w : sys.World)
    → Disk sys json process_there container_there
    → AllDistinct (map (λ p. p.0) s)
    → load sys json root w ≡ ok s
    → (t : State) × (load sys json root (check sys json process_there container_there root w)
        ≡ ok t)
      × ((name : Text)
          → lookup name t ≡ kept sys json process_there container_there (lookup name s) w)
unfolding Left
check-alive sys json process_there container_there root s w disk distinct loaded =
    let (t, l, eq) = check-Left sys json process_there container_there disk root s w loaded in
    (
      t,
      l,
      λ name.
          eq name ∙ lookup-kept sys json process_there container_there disk root s name w distinct,
    )
