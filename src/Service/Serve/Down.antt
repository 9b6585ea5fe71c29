-- ===== src/Service/Serve/Down.antt =====
-- What RunDown leaves in the state file.
use mathlib.Core.Path.{subst}
use go_bake.Base.{
  ok, ℕ, ◌≡◌, refl, sym, ap, ◌∙◌, true, false, Option, none, some, [], ◌∷◌, map, Text, lookup,
  contains, ◌==◌, if◌then◌else◌, arith,
}
use go_bake.Resolve.Expand.{is_empty}
use go_bake.System.{System}
use go_bake.Lifecycle.{DaemonEntry, State, StateCodec, delete, load, remove_daemon}
use go_bake.Lifecycle.Files.{Files, Same, Holds, lookup-delete, remove_daemon-Saved}
use go_bake.Lifecycle.Start.{Processes}
use go_bake.Service.Reload.Recorded.{Undisturbed, Holds-kept}
use go_bake.Service.Requests.{ServiceError, not_running, stop_failed}
use go_bake.Service.Serve.{
  stop_one, down_stopped, down_entry, down_all, removed, down_loaded, run_down,
}

-- What becomes of one daemon, by its entry and by what stopping it returns: its error, and the
-- entries behind it.
abbrev pub Downed :
    Text → Option DaemonEntry → Option Text → State → Option ServiceError → State → Type 0
Downed name none stop s e t = (e ≡ some (not_running name)) × Same t s
Downed name (some d) (some message) s e t = (e ≡ some (stop_failed name message)) × Same t s
Downed name (some d) none s e t =
    (e ≡ none)
    × ((other : Text) → lookup other t ≡ (if name == other then none else lookup other s))

abbrev pub stop_result :
    (sys : System) → StateCodec → Processes sys → Option DaemonEntry → sys.World → Option Text
stop_result sys state procs none w = none
stop_result sys state procs (some e) w = (stop_one sys state procs e w).0

module _ (sys : System) (json : StateCodec) (procs : Processes sys) (files : Files sys json)
    (undisturbed : Undisturbed sys procs) (root : Text) where
  stop_one-Holds :
      (e : DaemonEntry) (s : State) (w : sys.World)
      → Holds sys json root s w
      → Holds sys json root s (stop_one sys json procs e w).1
  unfolding stop_one
  stop_one-Holds e s w h =
      elim (is_empty e.container_id)
        as (λ b.
          Holds sys json root s
            (if b then procs.stop e.pid w else procs.stop_container e.container_id w).1) [
              | true ↦
                  Holds-kept sys json procs files undisturbed root s (procs.stop e.pid w).1 w
                    (undisturbed.stop _ e.pid w) h
              | false ↦
                  Holds-kept sys json procs files undisturbed root s
                    (procs.stop_container e.container_id w).1 w
                    (undisturbed.stop_container _ e.container_id w) h
            ]

  down_all-Holds :
      (es s : State) (w : sys.World)
      → Holds sys json root s w
      → (t : State) × Holds sys json root t (down_all sys json procs root es w)
        × ((name : Text)
            → lookup name t ≡ (if contains (map (λ p. p.0) es) name then none else lookup name s))
  unfolding down_all contains
  down_all-Holds [] s w h = (s, h, λ name. refl)
  down_all-Holds ((n, e) ∷ es) s w h =
      let (u, loaded, same) = stop_one-Holds e s w h in
      let stopped = (stop_one sys json procs e w).1 in
      let (_, held) = remove_daemon-Saved sys json files root n u stopped loaded in
      let (t, held', eq) =
        down_all-Holds es (delete n u) (remove_daemon sys json root n stopped).1 held in
      (t, held', λ name. ground (arith, eq name, lookup-delete n name u, same name))

  all-gone :
      (s : State) (name : Text)
      → (if contains (map (λ p. p.0) s) name then none else lookup name s) ≡ none
  unfolding contains lookup
  all-gone [] name = refl
  all-gone ((n, e) ∷ s) name = ground (arith, all-gone s name)

  -- The state file behind a run of RunDown for one daemon, and what it returns.
  abbrev After :
      Text → Option DaemonEntry → Option Text → State → Option ServiceError × sys.World → Type 0
  After name o stop s r = (t : State) × (load sys json root r.1 ≡ ok t) × Downed name o stop s r.0 t

  removed-none : (r : Option Text × sys.World) → r.0 ≡ none → removed sys json procs r ≡ (none, r.1)
  removed-none (none, w) e = refl
  removed-none (some message, w) e = cc

  down_stopped-After :
      (name : Text) (d : DaemonEntry) (s : State) (r : Option Text × sys.World)
      → Holds sys json root s r.1
      → After name (some d) r.0 s (down_stopped sys json procs root name r)
  unfolding down_stopped
  down_stopped-After name d s (some message, w) (t, l, same) = (t, l, (refl, same))
  down_stopped-After name d s (none, w) (u, l, same) =
      let (e, (t, back, eq)) = remove_daemon-Saved sys json files root name u w l in
      subst (After name (some d) none s) (sym (removed-none (remove_daemon sys json root name w) e))
        (
          t,
          back,
          (
            refl,
            λ other.
                eq other
                ∙ lookup-delete name other u
                ∙ ap (λ o. if name == other then none else o) (same other),
          ),
        )

  down_entry-After :
      (name : Text) (o : Option DaemonEntry) (s : State) (w : sys.World)
      → load sys json root w ≡ ok s
      → After name o (stop_result sys json procs o w) s (down_entry sys json procs root name o w)
  unfolding down_entry
  down_entry-After name none s w l = (s, l, (refl, λ other. refl))
  down_entry-After name (some d) s w l =
      down_stopped-After name d s (stop_one sys json procs d w)
        (stop_one-Holds d s w (s, l, λ other. refl))

-- RunDown of one daemon says that it is not running when it has no entry, and leaves the state file
-- when the daemon cannot be stopped; otherwise it returns no error, the entry is gone and the others
-- are as they were. RunDown of all daemons returns no error and leaves no entry, whether they could
-- be stopped or not. Files can be written and read, JSON gives back the same map, and stopping leaves
-- files alone.
pub run_down-Downed :
    (sys : System) (json : StateCodec) (procs : Processes sys) (root : Text) (c : ℕ) (name : Text)
    (s : State) (w : sys.World)
    → Files sys json
    → Undisturbed sys procs
    → load sys json root w ≡ ok s
    → let one : Option ServiceError × sys.World = run_down sys json procs root (c ∷ name) w in
      let all : Option ServiceError × sys.World = run_down sys json procs root [] w in
      ((t : State) × (load sys json root one.1 ≡ ok t)
        × Downed
            (c ∷ name)
            (lookup (c ∷ name) s)
            (stop_result sys json procs (lookup (c ∷ name) s) w)
            s
            one.0
            t)
      × (all.0 ≡ none)
      × ((t : State) × (load sys json root all.1 ≡ ok t) × ((other : Text) → lookup other t ≡ none))
unfolding run_down down_loaded
run_down-Downed sys json procs root c name s w files undisturbed loaded =
    let (t, (u, back, same), eq) =
      down_all-Holds sys json procs files undisturbed root s s w (s, loaded, λ other. refl) in
    rw loaded (
      down_entry-After sys json procs files undisturbed root (c ∷ name) (lookup (c ∷ name) s) s w
          loaded,
      refl,
      (
        u,
        back,
        λ other. same other ∙ eq other ∙ all-gone sys json procs files undisturbed root s other,
      ),
    )
