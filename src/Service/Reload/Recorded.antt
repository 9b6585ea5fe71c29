-- ===== src/Service/Reload/Recorded.antt =====
-- What the operations of a reload do to the state file.
use mathlib.Core.Path.{subst}
use go_bake.Base.{
  Result, ok, err, ℕ, ◌≡◌, refl, sym, ap, ◌∙◌, true, false, Option, none, some, List, [], ◌∷◌, Text,
  TextMap, lookup, insert, lookup-insert, nat_eq, ==_iff, Bool-cases, inl, inr, ◌==◌, ==_refl,
  if◌then◌else◌, ◌&&◌, not,
}
use go_bake.Config.{Daemon, Step}
use go_bake.Resolve.Expand.{is_empty}
use go_bake.System.{System, Process}
use go_bake.Container.Executor.{DaemonRun}
use go_bake.Lifecycle.{DaemonEntry, State, StateCodec, delete, state_path, read_state, load}
use go_bake.Lifecycle.Files.{
  Files, Same, Holds, lookup-delete, add_daemon-Saved, remove_daemon-Saved,
}
use go_bake.Lifecycle.Start.{
  Processes, Started, start_daemon, start_step, start_in_container, start_argv, host_argv,
  container_started, process_started,
}
use go_bake.Service.Reload.{
  stop_running, stop_entry, stop_loaded, stop_and_remove, loaded_or_empty, record_started,
  start_and_record, stop_old, restart,
}
use go_bake.Runner.Run.{load_env}

-- Starting and stopping a process or a container leaves the files of the program alone.
pub record Undisturbed (sys : System) (procs : Processes sys) : Type 0 where
  pub start :
      (path : Text) (p : Process) (w : sys.World)
      → sys.read_file path (procs.start p w).1 ≡ sys.read_file path w
  pub start_container :
      (path : Text) (c : DaemonRun) (w : sys.World)
      → sys.read_file path (procs.start_container c w).1 ≡ sys.read_file path w
  pub stop :
      (path : Text) (pid : ℕ) (w : sys.World)
      → sys.read_file path (procs.stop pid w).1 ≡ sys.read_file path w
  pub stop_container :
      (path id : Text) (w : sys.World)
      → sys.read_file path (procs.stop_container id w).1 ≡ sys.read_file path w

-- The entry of a daemon that has been started, or what there was.
abbrev pub entry_after : Started → Option DaemonEntry → Option DaemonEntry
entry_after (Started.host pid) before = some (record { pid = pid; container_id = [] })
entry_after (Started.boxed id) before = some (record { pid = 0; container_id = id })
entry_after (Started.failed e) before = before

module _ (sys : System) (procs : Processes sys) (root : Text) (dotenv : List Text) where
  -- The entry is the one of a start of the daemon, with the environment of the files as they then
  -- are, or what there was if it could not be started.
  abbrev pub Starts : Daemon → Option DaemonEntry → Option DaemonEntry → Type 0
  Starts d before after =
      (w : sys.World) × (after
        ≡ entry_after
            (start_daemon sys procs root d (loaded_or_empty (load_env sys root dotenv w)) [] [] w).0
            before)

module _ (sys : System) (json : StateCodec) (procs : Processes sys) (files : Files sys json)
    (undisturbed : Undisturbed sys procs) (root : Text) where
  pub Holds-kept :
      (s : State) (u w : sys.World)
      → sys.read_file (state_path sys json root) u ≡ sys.read_file (state_path sys json root) w
      → Holds sys json root s w
      → Holds sys json root s u
  unfolding load
  Holds-kept s u w kept (t, l, same) = (t, ap (read_state sys json root) kept ∙ l, same)

  stop_running-Holds :
      (e : DaemonEntry) (s : State) (w : sys.World)
      → Holds sys json root s w
      → Holds sys json root s (stop_running sys json procs root e w)
  unfolding stop_running
  stop_running-Holds e s w h =
      elim (is_empty e.container_id)
        as (λ b. Holds sys json root s (
          if b
          then if nat_eq e.pid 0 then w else (procs.stop e.pid w).1
          else (procs.stop_container e.container_id w).1)) [
            | true ↦
                elim (nat_eq e.pid 0)
                  as (λ b. Holds sys json root s (if b then w else (procs.stop e.pid w).1)) [
                    | true ↦ h
                    | false ↦
                        Holds-kept s (procs.stop e.pid w).1 w
                          (undisturbed.stop (state_path sys json root) e.pid w) h
                  ]
            | false ↦
                Holds-kept s (procs.stop_container e.container_id w).1 w
                  (undisturbed.stop_container (state_path sys json root) e.container_id w) h
          ]

  -- The state file holds a map in which the entry of the name is as it should be, and the others are
  -- as they were.
  abbrev pub Writes : Text → (Option DaemonEntry → Type 0) → State → sys.World → Type 0
  Writes name P s w =
      (t : State) × Holds sys json root t w
      × P (lookup name t)
      × ((other : Text) → (name == other) ≡ false → lookup other t ≡ lookup other s)

  delete-Same : (name : Text) (t s : State) → Same t s → Same (delete name t) (delete name s)
  delete-Same name t s same other =
      lookup-delete name other t
      ∙ ap (λ o. if name == other then none else o) (same other)
      ∙ sym (lookup-delete name other s)

  delete_absent :
      (name : Text) (t s : State) → lookup name t ≡ none → Same t s → Same t (delete name s)
  delete_absent name t s absent same other = elim (Bool-cases (name == other)) [
    | inl here ↦
        subst (λ x. lookup x t ≡ none) ((==_iff name other).0 here) absent
        ∙ sym (lookup-delete name other s ∙ ap (λ b. if b then none else lookup other s) here)
    | inr there ↦
        same other
        ∙ sym (lookup-delete name other s ∙ ap (λ b. if b then none else lookup other s) there)
  ]

  stop_entry-Holds :
      (name : Text) (o : Option DaemonEntry) (t s : State) (w : sys.World)
      → lookup name t ≡ o
      → load sys json root w ≡ ok t
      → Same t s
      → Holds sys json root (delete name s) (stop_entry sys json procs root name o w)
  unfolding stop_entry
  stop_entry-Holds name none t s w e l same = (t, l, delete_absent name t s e same)
  stop_entry-Holds name (some d) t s w e l same =
      let (t', l', same') = stop_running-Holds d s w (t, l, same) in
      let (_, (u, back, same'')) =
        remove_daemon-Saved sys json files root name t' (stop_running sys json procs root d w) l' in
      (u, back, λ other. same'' other ∙ delete-Same name t' s same' other)

  pub stop_and_remove-Holds :
      (name : Text) (s : State) (w : sys.World)
      → Holds sys json root s w
      → Holds sys json root (delete name s) (stop_and_remove sys json procs root name w)
  unfolding stop_and_remove stop_loaded
  stop_and_remove-Holds name s w (t, l, same) =
      subst (λ r. Holds sys json root (delete name s) (stop_loaded sys json procs root name r w))
        (sym l) (stop_entry-Holds name (lookup name t) t s w refl l same)

  container_started-world :
      (d : Daemon) (r : Result Text × sys.World) → (container_started sys procs root d r).1 ≡ r.1
  unfolding container_started
  container_started-world d (ok id, w) = refl
  container_started-world d (err message, w) = refl

  process_started-world :
      (d : Daemon) (r : Result ℕ × sys.World) → (process_started sys procs root d r).1 ≡ r.1
  unfolding process_started
  process_started-world d (ok pid, w) = refl
  process_started-world d (err message, w) = refl

  start_argv-Holds :
      (d : Daemon) (env : TextMap Text) (argv : List Text) (s : State) (w : sys.World)
      → Holds sys json root s w
      → Holds sys json root s (start_argv sys procs root d env argv w).1
  unfolding start_argv
  start_argv-Holds d env [] s w h = h
  start_argv-Holds d env (a ∷ argv) s w h =
      subst (Holds sys json root s) (sym (process_started-world d _))
        (Holds-kept s _ w (undisturbed.start (state_path sys json root) _ w) h)

  start_in_container-Holds :
      (d : Daemon) (env : TextMap Text) (step : Step) (s : State) (w : sys.World)
      → Holds sys json root s w
      → Holds sys json root s (start_in_container sys procs root d env step w).1
  unfolding start_in_container
  start_in_container-Holds d env step s w h =
      subst (Holds sys json root s) (sym (container_started-world d _))
        (Holds-kept s _ w (undisturbed.start_container (state_path sys json root) _ w) h)

  start_step-Holds :
      (d : Daemon) (env : TextMap Text) (steps : List Step) (s : State) (w : sys.World)
      → Holds sys json root s w
      → Holds sys json root s (start_step sys procs root d env steps w).1
  unfolding start_step
  start_step-Holds d env [] s w h = h
  start_step-Holds d env (step ∷ steps) s w h =
      elim (not (is_empty d.image) && not d.unsafe)
        as (λ b.
          Holds sys json root s
            (if b
              then start_in_container sys procs root d env step w
              else start_argv sys procs root d env (host_argv sys procs root d step) w).1) [
                | true ↦ start_in_container-Holds d env step s w h
                | false ↦ start_argv-Holds d env (host_argv sys procs root d step) s w h
              ]

  pub start_daemon-Holds :
      (d : Daemon) (dotenv : TextMap Text) (s : State) (w : sys.World)
      → Holds sys json root s w
      → Holds sys json root s (start_daemon sys procs root d dotenv [] [] w).1
  unfolding start_daemon
  start_daemon-Holds d dotenv s w h = start_step-Holds d _ d.steps s w h

  inserted :
      (name : Text) (e : DaemonEntry) (s u : State)
      → (h : (t : State) × Same t s × Same u (insert name e t))
      → (lookup name u ≡ some e)
        × ((other : Text) → (name == other) ≡ false → lookup other u ≡ lookup other s)
  inserted name e s u (t, same, written) = (
    written name
        ∙ lookup-insert name name e t
        ∙ ap (λ b. if b then some e else lookup name t) (==_refl name),
    λ other there.
        written other
        ∙ lookup-insert name other e t
        ∙ ap (λ b. if b then some e else lookup other t) there
        ∙ same other,
  )

  record_started-Writes :
      (name : Text) (r : Started) (s : State) (w : sys.World)
      → Holds sys json root s w
      → Writes name
          (λ o. o ≡ entry_after r (lookup name s))
          s
          (record_started sys json procs root name (r, w))
  unfolding record_started
  record_started-Writes name (Started.host pid) s w (t, l, same) =
      let e : DaemonEntry = record { pid = pid; container_id = [] } in
      let (_, (u, back, written)) = add_daemon-Saved sys json files root name e t w l in
      let (here, others) = inserted name e s u (t, same, written) in
      (u, (u, back, λ other. refl), here, others)
  record_started-Writes name (Started.boxed id) s w (t, l, same) =
      let e : DaemonEntry = record { pid = 0; container_id = id } in
      let (_, (u, back, written)) = add_daemon-Saved sys json files root name e t w l in
      let (here, others) = inserted name e s u (t, same, written) in
      (u, (u, back, λ other. refl), here, others)
  record_started-Writes name (Started.failed e) s w h = (s, h, refl, λ other there. refl)

  pub start_and_record-Writes :
      (dotenv : List Text) (d : Daemon) (s : State) (w : sys.World)
      → Holds sys json root s w
      → Writes d.name
          (Starts sys procs root dotenv d (lookup d.name s))
          s
          (start_and_record sys json procs root dotenv d w)
  unfolding start_and_record
  start_and_record-Writes dotenv d s w h =
      let env = loaded_or_empty (load_env sys root dotenv w) in
      let r = start_daemon sys procs root d env [] [] w in
      let (t, held, e, others) =
        record_started-Writes d.name r.0 s r.1 (start_daemon-Holds d env s w h) in
      (t, held, (w, e), others)

  pub stop_old-Writes :
      (d : Daemon) (s : State) (w : sys.World)
      → Holds sys json root s w
      → Writes d.name (λ o. o ≡ none) s (stop_old sys json procs root d w)
  unfolding stop_old
  stop_old-Writes d s w h = (
    delete d.name s,
    stop_and_remove-Holds d.name s w h,
    lookup-delete d.name d.name s ∙ ap (λ b. if b then none else lookup d.name s) (==_refl d.name),
    λ other there.
        lookup-delete d.name other s ∙ ap (λ b. if b then none else lookup other s) there,
  )

  pub restart-Writes :
      (dotenv : List Text) (d : Daemon) (s : State) (w : sys.World)
      → Holds sys json root s w
      → Writes d.name
          (Starts sys procs root dotenv d none)
          s
          (restart sys json procs root dotenv d w)
  unfolding restart stop_old
  restart-Writes dotenv d s w h =
      let (u, held, gone, left) = stop_old-Writes d s w h in
      let (t, held', started, others) =
        start_and_record-Writes dotenv d u (stop_and_remove sys json procs root d.name w) held in
      (
        t,
        held',
        subst (λ o. Starts sys procs root dotenv d o (lookup d.name t)) gone started,
        λ other there. others other there ∙ left other there,
      )
