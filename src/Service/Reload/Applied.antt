-- ===== src/Service/Reload/Applied.antt =====
-- A reload, from the two Bakefiles to the state file.
use mathlib.Core.Path.{subst}
use go_bake.Base.{
  ◌≡◌, refl, sym, ap, ◌∙◌, ◌⊎◌, inl, inr, not, Option, none, some, List, [], ◌∷◌, Text, lookup,
  AllDistinct, Bool-cases, ==_iff, ok, ◌==◌, if◌then◌else◌, arith, bytes,
}
use go_bake.Config.{File, Target, Daemon, find_daemon, find_target, target_by_name}
use go_bake.Config.Validate.{validate}
use go_bake.Config.Validate.Checks.{UnitsKnown}
use go_bake.Config.Validate.Complete.{validate-nil_iff}
use go_bake.Runner.Dag.Validated.{find_target-All}
use go_bake.System.{System}
use go_bake.Lifecycle.{DaemonEntry, State, StateCodec, load}
use go_bake.Lifecycle.Files.{Files, Holds}
use go_bake.Lifecycle.Start.{Processes}
use go_bake.Service.Reload.{
  daemons_of, up_daemons, daemon_equal, daemon_map, missing_from, changed_from, daemon_diff, each,
  stop_old, restart, start_and_record, apply_daemon_diff,
}
use go_bake.Service.Reload.Diff.{
  names, SameCommand, daemon_equal_iff, find_daemon-absent, lookup-daemon_map, missing_one,
  changed_one, find-missing_from, find-changed_from, missing_from-AllDistinct,
  changed_from-AllDistinct,
}
use go_bake.Service.Reload.Recorded.{
  Undisturbed, Starts, Writes, stop_old-Writes, restart-Writes, start_and_record-Writes,
}

-- What becomes of an entry: the daemon of its name is worked on, or else the entry stays.
abbrev Effect :
    (Daemon → Option DaemonEntry → Option DaemonEntry → Type 0)
    → Option Daemon
    → Option DaemonEntry
    → Option DaemonEntry
    → Type 0
Effect P none before after = after ≡ before
Effect P (some d) before after = P d before after

module _ (sys : System) (procs : Processes sys) (root : Text) (dotenv : List Text) where
  -- What a reload makes of an entry, by the daemons of its name in the old file and in the new one.
  abbrev pub Reloaded :
      Option Daemon → Option Daemon → Option DaemonEntry → Option DaemonEntry → Type 0
  Reloaded none none before after = after ≡ before
  Reloaded (some old) none before after = after ≡ none
  Reloaded none (some d) before after = Starts sys procs root dotenv d before after
  Reloaded (some old) (some d) before after =
      (SameCommand old d × (after ≡ before))
      ⊎ (¬ SameCommand old d × Starts sys procs root dotenv d none after)

module _ (sys : System) (json : StateCodec) (procs : Processes sys) (files : Files sys json)
    (undisturbed : Undisturbed sys procs) (root : Text) where
  -- One turn of a loop writes the entry of its daemon alone.
  abbrev Round :
      (Daemon → Option DaemonEntry → Option DaemonEntry → Type 0)
      → (Daemon → sys.World → sys.World)
      → Type 0
  Round P f =
      (d : Daemon) (s : State) (w : sys.World)
      → Holds sys json root s w
      → Writes sys json procs files undisturbed root d.name (P d (lookup d.name s)) s (f d w)

  each-Effect :
      (P : Daemon → Option DaemonEntry → Option DaemonEntry → Type 0)
      (f : Daemon → sys.World → sys.World) (ds : List Daemon) (s : State) (w : sys.World)
      → Round P f
      → AllDistinct (names ds)
      → Holds sys json root s w
      → (t : State) × Holds sys json root t (each sys json procs root f ds w)
        × ((name : Text) → Effect P (find_daemon ds name) (lookup name s) (lookup name t))
  unfolding each find_daemon
  each-Effect P f [] s w turn h held = (s, held, λ name. refl)
  each-Effect P f (d ∷ ds) s w turn h held =
      let (u, held', here, others) = turn d s w held in
      let (t, held'', rest) = each-Effect P f ds u (f d w) turn h.1 held' in
      (
        t,
        held'',
        λ name. elim (Bool-cases (d.name == name)) [
          | inl same ↦
              let eq = (==_iff d.name name).0 same in
              let absent = find_daemon-absent ds d.name h.0 in
              let stays : lookup d.name t ≡ lookup d.name u =
                subst (λ o. Effect P o (lookup d.name u) (lookup d.name t)) absent (rest d.name) in
              rw same (
                subst (λ x. P d (lookup x s) (lookup x t)) eq
                  (subst (P d (lookup d.name s)) (sym stays) here))
          | inr other ↦ rw other (
              subst (λ o. Effect P (find_daemon ds name) o (lookup name t)) (others name other)
                (rest name))
        ],
      )

  -- The three loops, one behind the other.
  composed :
      (dotenv : List Text) (o n : Option Daemon) (a b c d : Option DaemonEntry)
      → Effect (λ _ before after. after ≡ none) (missing_one n o) a b
      → Effect (λ x before. Starts sys procs root dotenv x none) (changed_one o n) b c
      → Effect (Starts sys procs root dotenv) (missing_one o n) c d
      → Reloaded sys procs root dotenv o n a d
  composed dotenv none none a b c d stop change add = add ∙ change ∙ stop
  composed dotenv (some old) none a b c d stop change add = add ∙ change ∙ stop
  composed dotenv none (some x) a b c d stop change add =
      subst (λ before. Starts sys procs root dotenv x before d) (change ∙ stop) add
  composed dotenv (some old) (some x) a b c d stop change add =
      elim (Bool-cases (daemon_equal old x)) [
        | inl same ↦ inl (
          (daemon_equal_iff old x).0 same,
          add
              ∙ subst
                  (λ e.
                    Effect (λ y before. Starts sys procs root dotenv y none)
                      (if not e then some x else none) b c)
                  same change
              ∙ stop,
        )
        | inr other ↦ inr (
          λ same. ground (arith, (daemon_equal_iff old x).1 same),
          subst (Starts sys procs root dotenv x none) (sym add) (
              subst
                (λ e.
                  Effect (λ y before. Starts sys procs root dotenv y none)
                    (if not e then some x else none) b c)
                other change),
        )
      ]

  -- A slice of DaemonDiff, by the daemons of the two files.
  find-missing :
      (ds others : List Daemon) (name : Text)
      → AllDistinct (names others)
      → find_daemon (missing_from (daemon_map others []) ds) name
        ≡ missing_one (find_daemon others name) (find_daemon ds name)
  find-missing ds others name h =
      find-missing_from (daemon_map others []) ds name
      ∙ ap (λ o. missing_one o (find_daemon ds name)) (lookup-daemon_map others name h)

  apply-Reloaded :
      (cfg : File) (olds news : List Daemon) (s : State) (w : sys.World)
      → AllDistinct (names olds)
      → AllDistinct (names news)
      → Holds sys json root s w
      → (t : State) × Holds sys json root t (
          apply_daemon_diff sys json procs root cfg
            (record {
              added = missing_from (daemon_map olds []) news;
              removed = missing_from (daemon_map news []) olds;
              changed = changed_from (daemon_map olds []) news;
            })
            w)
        × ((name : Text)
            → Reloaded sys procs root cfg.dotenv
                (find_daemon olds name)
                (find_daemon news name)
                (lookup name s)
                (lookup name t))
  unfolding apply_daemon_diff
  apply-Reloaded cfg olds news s w ho hn held =
      let added = missing_from (daemon_map olds []) news in
      let removed = missing_from (daemon_map news []) olds in
      let changed = changed_from (daemon_map olds []) news in
      let stopped = each sys json procs root (stop_old sys json procs root) removed w in
      let restarted =
        each sys json procs root (restart sys json procs root cfg.dotenv) changed stopped in
      let (s₁, held₁, stop) =
        each-Effect (λ _ before after. after ≡ none) (stop_old sys json procs root) removed s w
          (stop_old-Writes sys json procs files undisturbed root)
          (missing_from-AllDistinct (daemon_map news []) olds ho) held in
      let (s₂, held₂, change) =
        each-Effect (λ x before. Starts sys procs root cfg.dotenv x none)
          (restart sys json procs root cfg.dotenv) changed s₁ stopped
          (restart-Writes sys json procs files undisturbed root cfg.dotenv)
          (changed_from-AllDistinct (daemon_map olds []) news hn) held₁ in
      let (s₃, held₃, add) =
        each-Effect (Starts sys procs root cfg.dotenv)
          (start_and_record sys json procs root cfg.dotenv) added s₂ restarted
          (start_and_record-Writes sys json procs files undisturbed root cfg.dotenv)
          (missing_from-AllDistinct (daemon_map olds []) news hn) held₂ in
      (
        s₃,
        held₃,
        λ name.
            composed cfg.dotenv (find_daemon olds name) (find_daemon news name) (lookup name s)
              (lookup name s₁) (lookup name s₂) (lookup name s₃)
              (subst
                (λ o. Effect (λ _ before after. after ≡ none) o (lookup name s) (lookup name s₁))
                (find-missing olds news name hn) (stop name))
              (subst
                (λ o.
                  Effect (λ x before. Starts sys procs root cfg.dotenv x none) o (lookup name s₁)
                    (lookup name s₂))
                (find-changed_from (daemon_map olds []) news name hn
                  ∙ ap (λ o. changed_one o (find_daemon news name))
                      (lookup-daemon_map olds name ho))
                (change name))
              (subst
                (λ o. Effect (Starts sys procs root cfg.dotenv) o (lookup name s₂) (lookup name s₃))
                (find-missing news olds name ho) (add name)),
      )

-- The daemons that Validate lets through have distinct names.
up_daemons-AllDistinct :
    (cfg : File) → validate cfg ≡ [] → AllDistinct (names (up_daemons (some cfg)))
unfolding up_daemons target_by_name
up_daemons-AllDistinct cfg v =
    of_target (find_target cfg.targets (bytes "up"))
      (λ t e.
        (find_target-All (UnitsKnown cfg) cfg.targets (bytes "up") t
          ((validate-nil_iff cfg).0 v).units e).0)
      refl
  where
    of_target :
        (o : Option Target)
        → ((t : Target)
            → find_target cfg.targets (bytes "up") ≡ some t
            → AllDistinct (names t.daemons))
        → find_target cfg.targets (bytes "up") ≡ o
        → AllDistinct (names (daemons_of o))
    of_target none h e = tt
    of_target (some t) h e = h t e

-- A reload brings the state file from the daemons of the old Bakefile's target "up" to those of the
-- new one's. A daemon that only the old file has is out of it; one that only the new file has is
-- started, and has the entry of a start, or what there was if it cannot be started; one that both
-- have with the same image and command lines keeps its entry; one that differs there has the entry
-- of a new start, and none if it cannot be started; every other entry stays. Validate accepts both
-- files, files can be written and read, JSON gives back the same map, and starting and stopping
-- leaves files alone.
pub apply_daemon_diff-Reloaded :
    (sys : System) (json : StateCodec) (procs : Processes sys) (root : Text) (old cfg : File)
    (s : State) (w : sys.World)
    → Files sys json
    → Undisturbed sys procs
    → validate old ≡ []
    → validate cfg ≡ []
    → load sys json root w ≡ ok s
    → (t : State) × (load sys json root
          (apply_daemon_diff sys json procs root cfg (daemon_diff (some old) (some cfg)) w)
        ≡ ok t)
      × ((name : Text)
          → Reloaded sys procs root cfg.dotenv
              (find_daemon (up_daemons (some old)) name)
              (find_daemon (up_daemons (some cfg)) name)
              (lookup name s)
              (lookup name t))
unfolding daemon_diff
apply_daemon_diff-Reloaded sys json procs root old cfg s w files undisturbed vo vn loaded =
    let (t, (u, back, same), eq) =
      apply-Reloaded sys json procs files undisturbed root cfg (up_daemons (some old))
        (up_daemons (some cfg)) s w (up_daemons-AllDistinct old vo) (up_daemons-AllDistinct cfg vn)
        (s, loaded, λ name. refl) in
    (
      u,
      back,
      λ name.
          subst
            (Reloaded sys procs root cfg.dotenv (find_daemon (up_daemons (some old)) name)
              (find_daemon (up_daemons (some cfg)) name) (lookup name s))
            (sym (same name)) (eq name),
    )
