-- ===== src/Container/Created.antt =====
-- The containers that a part of a run leaves behind.
use mathlib.Core.Path.{subst}
use go_bake.Base.{
  Bool, true, false, Result, ok, err, ◌≡◌, refl, sym, ap, ◌∙◌, List, [], ◌∷◌, ◌++◌, Text, All,
  append-nil, if_both,
}
use go_bake.System.{ContainerRun}
use go_bake.Resolve.Expand.{is_empty}
use go_bake.Container.{Docker, Call, created, removed, started, Answer, Engine, Api, behind, ask}
use go_bake.Container.Executor.{
  run_config, daemon_config, DaemonRun, tail, prepare, create, created_as, connect_all,
  removed_after, removed_on_error, is_done, run_in, run, start_in, start_daemon_container,
  stop_container,
}
use go_bake.Container.Quiet.{
  close, opened, unremoved, unremoved-quiet, IsQuiet, opened-quiet, close-head, Starts, left_by,
  prepare-Quiet, run_in-Quiet, start_in-Quiet,
}

module _ (d : Docker) where
  -- Whatever is started is the container with the name that was asked for.
  behind-Starts :
      {A : Type 0} (id : Text) (r : Result A) (e : Engine d) (cs : List Call) (f : A → Api d Text)
      → ((x : A) (u : Engine d) → Starts id (f x u).result)
      → Starts id (behind d r e cs f).result
  unfolding behind
  behind-Starts id (err m) e cs f h = tt
  behind-Starts id (ok x) e cs f h = h x e

  start_in-Starts :
      (opts : DaemonRun) (id : Text) (e : Engine d) → Starts id (start_in d opts id e).result
  unfolding start_in
  start_in-Starts opts id e =
      let a = connect_all d id (tail opts.networks) e in
      behind-Starts id a.result a.engine a.calls _ (λ _ u.
        let b = ask d (started id) (d.container_start id) u in
        behind-Starts id b.result b.engine b.calls _ (λ _ v. refl))

  -- The containers that are there behind a part of a run, as its result says and as Docker has refused
  -- to remove them.
  abbrev Leaves :
      {A : Type 0} → (Result A → List Text → List Text → List Text) → Answer d A → Type 0
  Leaves g a = (there : List Text) → opened a.calls there ≡ g a.result (unremoved a.calls) there

  behind-Leaves :
      {A B : Type 0} (g : Result B → List Text → List Text → List Text) (r : Result A)
      (e : Engine d) (cs : List Call) (f : A → Api d B)
      → All IsQuiet cs
      → ((m : Text) (there : List Text) → g (err m) [] there ≡ there)
      → ((x : A) (u : Engine d) → Leaves g (f x u))
      → Leaves g (behind d r e cs f)
  unfolding behind
  behind-Leaves g (err m) e cs f q n h there =
      subst (λ xs. opened xs there ≡ g (err m) (unremoved xs) there) (append-nil cs)
        (opened-quiet cs [] there q
          ∙ sym (n m there)
          ∙ ap (λ xs. g (err m) xs there) (sym (unremoved-quiet cs [] q)))
  behind-Leaves g (ok x) e cs f q n h there =
      opened-quiet cs (f x e).calls there q
      ∙ h x e there
      ∙ ap (λ xs. g (f x e).result xs there) (sym (unremoved-quiet cs (f x e).calls q))

  create-Leaves :
      {B : Type 0} (g : Result B → List Text → List Text → List Text) (r : Result Text × d.World)
      (e : Engine d) (f : Text → Api d B)
      → ((m : Text) (there : List Text) → g (err m) [] there ≡ there)
      → ((id : Text) (u : Engine d) (there : List Text)
          → opened (f id u).calls (id ∷ there) ≡ g (f id u).result (unremoved (f id u).calls) there)
      → Leaves g (let a = created_as d r e in behind d a.result a.engine a.calls f)
  unfolding behind
  create-Leaves g (err m, w) e f n h there = sym (n m there)
  create-Leaves g (ok id, w) e f n h there = h id (record e { world = w }) there

  -- A removal takes the container away, or is one that Docker has refused.
  removal-opened :
      (id : Text) (done : Bool) (there : List Text)
      → opened (removed id done ∷ []) (id ∷ there) ≡ unremoved (removed id done ∷ []) ++ there
  removal-opened id true there = close-head id there
  removal-opened id false there = refl

  removed_after-opened :
      {A : Type 0} (id : Text) (a : Answer d A) (there : List Text)
      → All IsQuiet a.calls
      → opened (removed_after d id a).calls (id ∷ there)
        ≡ unremoved (removed_after d id a).calls ++ there
  unfolding removed_after
  removed_after-opened id a there q =
      let cs = removed id (is_done d (d.container_remove id a.engine.world).0) ∷ [] in
      opened-quiet a.calls cs (id ∷ there) q
      ∙ removal-opened id (is_done d (d.container_remove id a.engine.world).0) there
      ∙ ap (λ xs. xs ++ there) (sym (unremoved-quiet a.calls cs q))

  removed_on_error-opened :
      (id : Text) (a : Answer d Text) (there : List Text)
      → All IsQuiet a.calls
      → Starts id a.result
      → opened (removed_on_error d id a).calls (id ∷ there)
        ≡ left_by (removed_on_error d id a).result (unremoved (removed_on_error d id a).calls) there
  unfolding removed_on_error
  removed_on_error-opened id a there q s =
      elim a.result
          as (λ r.
            let b = removed_on_error d id (record a { result = r }) in
            Starts id r
            → opened b.calls (id ∷ there) ≡ left_by b.result (unremoved b.calls) there) [
              | ok x ↦ λ same.
                  ap (λ x. opened x (id ∷ there)) (sym (append-nil a.calls))
                  ∙ opened-quiet a.calls [] (id ∷ there) q
                  ∙ ap (λ y. y ∷ there) (sym same)
              | err m ↦ λ _. removed_after-opened id (record a { result = err m }) there q
            ]
        s

run-opened :
    (d : Docker) (opts : ContainerRun) (e : Engine d) (there : List Text)
    → opened (run d opts e).calls there ≡ unremoved (run d opts e).calls ++ there
unfolding run create
run-opened d opts e there =
    let p = prepare d opts.image opts.networks opts.root_dir opts.volumes e in
    behind-Leaves d (λ _ refused there. refused ++ there) p.result p.engine p.calls _
      (prepare-Quiet d opts.image opts.networks opts.root_dir opts.volumes e) (λ m t. refl)
      (λ x u.
        create-Leaves d {B = Unit {0}} (λ _ refused there. refused ++ there)
          (d.container_create (run_config opts x) u.world) u
          (λ id v. removed_after d id (run_in d opts id v)) (λ m t. refl)
          (λ id v t. removed_after-opened d id (run_in d opts id v) t (run_in-Quiet d opts id v)))
      there

start_daemon_container-opened :
    (d : Docker) (opts : DaemonRun) (e : Engine d) (there : List Text)
    → opened (start_daemon_container d opts e).calls there
      ≡ left_by
          (start_daemon_container d opts e).result
          (unremoved (start_daemon_container d opts e).calls)
          there
unfolding start_daemon_container create
start_daemon_container-opened d opts e there =
    let p = prepare d opts.image opts.networks opts.root_dir opts.volumes e in
    if_both
      (λ (m : Api d Text).
        opened (m e).calls there ≡ left_by (m e).result (unremoved (m e).calls) there)
      (is_empty opts.cmd) refl
      (behind-Leaves d left_by p.result p.engine p.calls _
        (prepare-Quiet d opts.image opts.networks opts.root_dir opts.volumes e) (λ m t. refl)
        (λ x u.
          create-Leaves d left_by (d.container_create (daemon_config opts x) u.world) u
            (λ id v. removed_on_error d id (start_in d opts id v)) (λ m t. refl)
            (λ id v t.
              removed_on_error-opened d id (start_in d opts id v) t (start_in-Quiet d opts id v)
                (start_in-Starts d opts id v)))
        there)

opened-append :
    (cs more : List Call) (there : List Text)
    → opened (cs ++ more) there ≡ opened more (opened cs there)
opened-append [] more there = refl
opened-append (created id ∷ cs) more there = opened-append cs more (id ∷ there)
opened-append (removed id true ∷ cs) more there = opened-append cs more (close id there)
opened-append (removed id false ∷ cs) more there = opened-append cs more there
opened-append (_ ∷ cs) more there = opened-append cs more there

-- The calls of a start, and of a stop of what it has started.
abbrev pub with_stop : (d : Docker) → Answer d Text → List Call
with_stop d a = elim a.result [
  | ok id ↦ a.calls ++ (stop_container d id a.engine).calls
  | err message ↦ a.calls
]

-- The containers that the stop, or else the start, was refused to remove.
abbrev pub refused : (d : Docker) → Answer d Text → List Text
refused d a = elim a.result [
  | ok id ↦ unremoved (stop_container d id a.engine).calls
  | err message ↦ unremoved a.calls
]

with_stop-opened :
    (d : Docker) (a : Answer d Text) (there : List Text)
    → opened a.calls there ≡ left_by a.result (unremoved a.calls) there
    → opened (with_stop d a) there ≡ refused d a ++ there
unfolding stop_container
with_stop-opened d a there h =
    elim a.result
        as (λ r.
          opened a.calls there ≡ left_by r (unremoved a.calls) there
          → opened (with_stop d (record a { result = r })) there
            ≡ refused d (record a { result = r }) ++ there) [
              | ok id ↦ λ e.
                  let done = is_done d (d.container_remove id a.engine.world).0 in
                  opened-append a.calls (removed id done ∷ []) there
                  ∙ ap (opened (removed id done ∷ [])) e
                  ∙ removal-opened d id done there
              | err message ↦ λ e. e
            ]
      h

-- Run asks Docker to remove the container that it has created, whatever call fails, and so does
-- StartDaemonContainer when it returns an error: behind them, the containers from before are there,
-- the one whose name StartDaemonContainer returns, and no other but one that Docker has refused to
-- remove. A StopContainer of that name takes that container away and no other, unless Docker refuses.
pub executor-opened :
    (d : Docker) (opts : ContainerRun) (daemon : DaemonRun) (e : Engine d) (there : List Text)
    → (opened (run d opts e).calls there ≡ unremoved (run d opts e).calls ++ there)
      × (opened (start_daemon_container d daemon e).calls there
          ≡ left_by
              (start_daemon_container d daemon e).result
              (unremoved (start_daemon_container d daemon e).calls)
              there)
      × (opened (with_stop d (start_daemon_container d daemon e)) there
          ≡ refused d (start_daemon_container d daemon e) ++ there)
executor-opened d opts daemon e there =
    let started = start_daemon_container-opened d daemon e there in
    (
      run-opened d opts e there,
      started,
      with_stop-opened d (start_daemon_container d daemon e) there started,
    )
