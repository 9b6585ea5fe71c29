-- ===== src/Container/Quiet.antt =====
-- The calls that create and remove no container.
use go_bake.Base.{
  Result, ok, err, ◌≡◌, refl, ◌∙◌, Bool, true, false, Option, none, some, List, [], ◌∷◌, ◌++◌, Text,
  All, All-append, lookup, bytes, ◌&&◌, nat_eq, ==_refl, ◌==◌, if_both, if◌then◌else◌,
}
use go_bake.Config.{VolumeRef}
use go_bake.System.{Process, ContainerRun}
use go_bake.Resolve.Expand.{is_empty}
use go_bake.Container.{
  Docker, Call, inspected, pulled, network, volume, created, removed, started, connected, executed,
  attached, copied, exec_inspected, Engine, Api, behind, bind, ask, or_fail, known_or, add_network,
  add_volume, ensure_network, ensure_volume,
}
use go_bake.Container.Executor.{
  unless, workspace, policy_or_default, pull_missing, image_there, DaemonRun, tail, pull_as,
  maybe_pull_image, first_network, volume_mounts, prepare, connect_all, exec_step, exec_all,
  step_cwd, run_in, start_in,
}

-- A container less: the first of that name.
abbrev pub close : Text → List Text → List Text
close id [] = []
close id (x ∷ xs) = if x == id then xs else x ∷ close id xs

-- The containers that are there after the calls: those from before, and those that the calls have
-- created and that Docker has not removed.
abbrev pub opened : List Call → List Text → List Text
opened [] there = there
opened (created id ∷ cs) there = opened cs (id ∷ there)
opened (removed id true ∷ cs) there = opened cs (close id there)
opened (removed id false ∷ cs) there = opened cs there
opened (inspected n ∷ cs) there = opened cs there
opened (pulled n ∷ cs) there = opened cs there
opened (network n ∷ cs) there = opened cs there
opened (volume n ∷ cs) there = opened cs there
opened (started id ∷ cs) there = opened cs there
opened (connected n id ∷ cs) there = opened cs there
opened (executed id ∷ cs) there = opened cs there
opened (attached id ∷ cs) there = opened cs there
opened (copied id ∷ cs) there = opened cs there
opened (exec_inspected id ∷ cs) there = opened cs there

-- The containers that Docker has refused to remove.
abbrev pub unremoved : List Call → List Text
unremoved [] = []
unremoved (removed id true ∷ cs) = unremoved cs
unremoved (removed id false ∷ cs) = id ∷ unremoved cs
unremoved (inspected n ∷ cs) = unremoved cs
unremoved (pulled n ∷ cs) = unremoved cs
unremoved (network n ∷ cs) = unremoved cs
unremoved (volume n ∷ cs) = unremoved cs
unremoved (created id ∷ cs) = unremoved cs
unremoved (started id ∷ cs) = unremoved cs
unremoved (connected n id ∷ cs) = unremoved cs
unremoved (executed id ∷ cs) = unremoved cs
unremoved (attached id ∷ cs) = unremoved cs
unremoved (copied id ∷ cs) = unremoved cs
unremoved (exec_inspected id ∷ cs) = unremoved cs

-- A call that neither creates nor removes a container.
abbrev pub IsQuiet : Call → Type 0
IsQuiet c =
    (cs : List Call) (there : List Text)
    → (opened (c ∷ cs) there ≡ opened cs there) × (unremoved (c ∷ cs) ≡ unremoved cs)

pub opened-quiet :
    (cs more : List Call) (there : List Text)
    → All IsQuiet cs
    → opened (cs ++ more) there ≡ opened more there
opened-quiet [] more there q = refl
opened-quiet (c ∷ cs) more there q = (q.0 (cs ++ more) there).0 ∙ opened-quiet cs more there q.1

pub unremoved-quiet :
    (cs more : List Call) → All IsQuiet cs → unremoved (cs ++ more) ≡ unremoved more
unremoved-quiet [] more q = refl
unremoved-quiet (c ∷ cs) more q = (q.0 (cs ++ more) []).1 ∙ unremoved-quiet cs more q.1

pub close-head : (id : Text) (there : List Text) → close id (id ∷ there) ≡ there
close-head id there = rw (==_refl id) refl

-- A result names the container, if it is no error.
abbrev pub Starts : Text → Result Text → Type 0
Starts id (ok x) = x ≡ id
Starts id (err m) = Unit

-- The containers that are there behind a start with a result: those from before, and the one that has
-- been started, or any that was to be removed and could not be.
abbrev pub left_by : Result Text → List Text → List Text → List Text
left_by (ok id) refused there = id ∷ there
left_by (err m) refused there = refused ++ there

module _ (d : Docker) where
  abbrev pub Quiet : {A : Type 0} → Api d A → Type 0
  Quiet m = (e : Engine d) → All IsQuiet (m e).calls

  behind-Quiet :
      {A B : Type 0} (r : Result A) (e : Engine d) (cs : List Call) (f : A → Api d B)
      → All IsQuiet cs
      → ((x : A) → Quiet (f x))
      → All IsQuiet (behind d r e cs f).calls
  unfolding behind
  behind-Quiet (err m) e cs f q h = q
  behind-Quiet (ok x) e cs f q h = All-append IsQuiet cs (f x e).calls q (h x e)

  bind-Quiet :
      {A B : Type 0} (m : Api d A) (f : A → Api d B)
      → Quiet m
      → ((x : A) → Quiet (f x))
      → Quiet (bind d m f)
  bind-Quiet m f q h e = behind-Quiet (m e).result (m e).engine (m e).calls f (q e) h

  ask-Quiet :
      {A : Type 0} (c : Call) (op : d.World → Result A × d.World) → IsQuiet c → Quiet (ask d c op)
  ask-Quiet c op h e = (h, tt)

  known_or-Quiet : (o : Option Text) (m : Api d Text) → Quiet m → Quiet (known_or d o m)
  known_or-Quiet none m q e = q e
  known_or-Quiet (some id) m q e = tt

  or_fail-Quiet : (message : Text) (o : Option Text) → Quiet (or_fail d message o)
  or_fail-Quiet message none e = tt
  or_fail-Quiet message (some x) e = tt

  ensure_network-Quiet : (name : Text) → Quiet (ensure_network d name)
  unfolding ensure_network
  ensure_network-Quiet name e =
      known_or-Quiet (lookup name e.registry.net_ids) _
        (bind-Quiet (ask d (network name) (d.network_create name)) (add_network d name)
          (ask-Quiet (network name) (d.network_create name) (λ cs t. (refl, refl))) (λ x e. tt))
        e

  ensure_volume-Quiet : (ref : VolumeRef) (root : Text) → Quiet (ensure_volume d ref root)
  unfolding ensure_volume
  ensure_volume-Quiet ref root =
      bind-Quiet _ _
        (if_both Quiet (is_empty ref.host_path)
          (λ e.
            known_or-Quiet (lookup ref.name e.registry.vol_ids) _
              (bind-Quiet (ask d (volume ref.name) (d.volume_create ref.name))
                (add_volume d ref.name)
                (ask-Quiet (volume ref.name) (d.volume_create ref.name) (λ cs t. (refl, refl)))
                (λ x e. tt))
              e)
          (or_fail-Quiet ref.host_path (d.abs (d.join root ref.host_path))))
        (λ x e. tt)

  unless-Quiet : (b : Bool) (m : Api d (Unit {0})) → Quiet m → Quiet (unless d b m)
  unless-Quiet true m q e = tt
  unless-Quiet false m q e = q e

  pull_missing-Quiet :
      (image policy : Text) (there : Bool) → Quiet (pull_missing d image policy there)
  unfolding pull_missing
  pull_missing-Quiet image policy there =
      unless-Quiet (there && policy == bytes "if-not-present")
        (ask d (pulled image) (d.image_pull image))
        (ask-Quiet (pulled image) (d.image_pull image) (λ cs t. (refl, refl)))

  pull_as-Quiet : (image policy : Text) → Quiet (pull_as d image policy)
  unfolding pull_as
  pull_as-Quiet image policy =
      unless-Quiet (policy == bytes "never")
        (bind d (image_there d image) (pull_missing d image policy))
        (bind-Quiet (image_there d image) (pull_missing d image policy)
          (λ e. ((λ cs t. (refl, refl)), tt)) (pull_missing-Quiet image policy))

  maybe_pull_image-Quiet : (image : Text) → Quiet (maybe_pull_image d image)
  unfolding maybe_pull_image
  maybe_pull_image-Quiet image = pull_as-Quiet image (policy_or_default d)

  first_network-Quiet : (names : List Text) → Quiet (first_network d names)
  unfolding first_network
  first_network-Quiet [] e = tt
  first_network-Quiet (n ∷ ns) e = ensure_network-Quiet n e

  volume_mounts-Quiet : (refs : List VolumeRef) (root : Text) → Quiet (volume_mounts d refs root)
  unfolding volume_mounts
  volume_mounts-Quiet [] root e = tt
  volume_mounts-Quiet (ref ∷ refs) root e =
      bind-Quiet (ensure_volume d ref root) _ (ensure_volume-Quiet ref root)
        (λ v.
          bind-Quiet (volume_mounts d refs root) _ (volume_mounts-Quiet refs root) (λ mounts e. tt))
        e

  pub prepare-Quiet :
      (image : Text) (networks : List Text) (root : Text) (volumes : List VolumeRef)
      → Quiet (prepare d image networks root volumes)
  unfolding prepare
  prepare-Quiet image networks root volumes =
      bind-Quiet (maybe_pull_image d image) _ (maybe_pull_image-Quiet image) (λ _.
        bind-Quiet (first_network d networks) _ (first_network-Quiet networks) (λ mode.
          bind-Quiet (or_fail d root (d.abs root)) _ (or_fail-Quiet root (d.abs root)) (λ root_abs.
            bind-Quiet (volume_mounts d volumes root) _ (volume_mounts-Quiet volumes root)
              (λ mounts e. tt))))

  connect_all-Quiet : (id : Text) (names : List Text) → Quiet (connect_all d id names)
  unfolding connect_all
  connect_all-Quiet id [] e = tt
  connect_all-Quiet id (n ∷ ns) e =
      bind-Quiet (ensure_network d n) _ (ensure_network-Quiet n)
        (λ net.
          bind-Quiet (ask d (connected net id) (d.network_connect net id)) _
            (ask-Quiet (connected net id) (d.network_connect net id) (λ cs t. (refl, refl)))
            (λ _. connect_all-Quiet id ns))
        e

  exec_step-Quiet : (id : Text) (p : Process) → Quiet (exec_step d id p)
  unfolding exec_step
  exec_step-Quiet id p =
      bind-Quiet (ask d (executed id) (d.exec_create id p)) _
        (ask-Quiet (executed id) (d.exec_create id p) (λ cs t. (refl, refl)))
        (λ x.
          bind-Quiet (ask d (attached x) (d.exec_attach x)) _
            (ask-Quiet (attached x) (d.exec_attach x) (λ cs t. (refl, refl)))
            (λ _.
              bind-Quiet (ask d (copied x) (d.copy_output x)) _
                (ask-Quiet (copied x) (d.copy_output x) (λ cs t. (refl, refl)))
                (λ _.
                  bind-Quiet (ask d (exec_inspected x) (d.exec_inspect x)) _
                    (ask-Quiet (exec_inspected x) (d.exec_inspect x) (λ cs t. (refl, refl)))
                    (λ code. if_both Quiet (nat_eq code 0) (λ e. tt) (λ e. tt)))))

  exec_all-Quiet : (id root cwd : Text) (ps : List Process) → Quiet (exec_all d id root cwd ps)
  unfolding exec_all
  exec_all-Quiet id root cwd [] e = tt
  exec_all-Quiet id root cwd (p ∷ ps) e =
      let rest : Quiet (exec_all d id root cwd ps) = exec_all-Quiet id root cwd ps in
      if_both Quiet (is_empty p.argv) rest
        (bind-Quiet (exec_step d id (record p { cwd = step_cwd d root cwd p.cwd })) _
          (exec_step-Quiet id _) (λ _. rest))
        e

  pub run_in-Quiet : (opts : ContainerRun) (id : Text) → Quiet (run_in d opts id)
  unfolding run_in
  run_in-Quiet opts id =
      bind-Quiet (connect_all d id (tail opts.networks)) _
        (connect_all-Quiet id (tail opts.networks))
        (λ _.
          bind-Quiet (ask d (started id) (d.container_start id)) _
            (ask-Quiet (started id) (d.container_start id) (λ cs t. (refl, refl)))
            (λ _.
              exec_all-Quiet id opts.root_dir
                (if is_empty opts.target_cwd then workspace else d.join workspace opts.target_cwd)
                opts.steps))

  pub start_in-Quiet : (opts : DaemonRun) (id : Text) → Quiet (start_in d opts id)
  unfolding start_in
  start_in-Quiet opts id =
      bind-Quiet (connect_all d id (tail opts.networks)) _
        (connect_all-Quiet id (tail opts.networks))
        (λ _.
          bind-Quiet (ask d (started id) (d.container_start id)) _
            (ask-Quiet (started id) (d.container_start id) (λ cs t. (refl, refl))) (λ _ e. tt))
