-- ===== src/Service/Serve.antt =====
-- RunDown of internal/baked/run.go, and runRequest, replayQueue and the end of handleConn of
-- cmd/baked/main.go. A request for the status or a reload, and the lock that lets one request run at
-- a time, are left out.
pub mod Down
pub mod Replay
use go_bake.Base.{
  Result, ok, err, ℕ, Bool, true, false, Option, none, some, List, [], ◌∷◌, Text, lookup, ◌==◌,
  if◌then◌else◌,
}
use go_bake.Config.{File, suite_by_name}
use go_bake.Cache.{Codec}
use go_bake.Resolve.Expand.{is_empty}
use go_bake.System.{System}
use go_bake.Lifecycle.{DaemonEntry, State, StateCodec, load, remove_daemon}
use go_bake.Lifecycle.Start.{Processes}
use go_bake.Service.Queue.{
  Request, QueueEntry, QueueCodec, Queue, Queued, enqueue, dequeue, pending,
}
use go_bake.Service.Requests.{
  ServiceError, load_failed, remove_failed, not_running, stop_failed, missing_request, no_config,
  Service, run_target, run_suite, run_up,
}

-- Response; the messages are values, and no request here has output.
pub record Response : Type 0 where
  pub exit_code : ℕ
  pub error : Option ServiceError

module _ (sys : System) (state : StateCodec) (procs : Processes sys) where
  unfoldable pub stop_one : DaemonEntry → sys.World → Option Text × sys.World
  stop_one e w =
      if is_empty e.container_id then procs.stop e.pid w else procs.stop_container e.container_id w

  abbrev pub removed : Option Text × sys.World → Option ServiceError × sys.World
  removed (none, w) = (none, w)
  removed (some message, w) = (some (remove_failed message), w)

  unfoldable pub down_stopped :
      Text → Text → Option Text × sys.World → Option ServiceError × sys.World
  unfolding remove_daemon
  down_stopped root name (some message, w) = (some (stop_failed name message), w)
  down_stopped root name (none, w) = removed (remove_daemon sys state root name w)

  unfoldable pub down_entry : Text → Text → Option DaemonEntry → Service sys
  unfolding down_stopped stop_one
  down_entry root name none w = (some (not_running name), w)
  down_entry root name (some e) w = down_stopped root name (stop_one e w)

  -- The loop over all daemons, which passes over errors.
  unfoldable pub down_all : Text → State → sys.World → sys.World
  unfolding remove_daemon stop_one
  down_all root [] w = w
  down_all root ((name, e) ∷ s) w =
      down_all root s (remove_daemon sys state root name (stop_one e w).1).1

  unfoldable pub down_loaded : Text → Text → Result State → Service sys
  unfolding down_entry down_all lookup
  down_loaded root name (err message) w = (some (load_failed message), w)
  down_loaded root name (ok s) w =
      if is_empty name then (none, down_all root s w) else down_entry root name (lookup name s) w

  unfoldable pub run_down : Text → Text → Service sys
  unfolding down_loaded load
  run_down root name w = down_loaded root name (load sys state root w) w

  module _ (json : Codec) (docker : Bool) (root : Text) where
    abbrev pub answered : Option ServiceError × sys.World → Response × sys.World
    answered (none, w) = (record { exit_code = 0; error = none }, w)
    answered (some e, w) = (record { exit_code = 1; error = some e }, w)

    abbrev is_some {ℓ} : {A : Type ℓ} → Option A → Bool
    is_some none = false
    is_some (some x) = true

    abbrev pub incomplete : Response
    incomplete = record { exit_code = 2; error = some missing_request }

    unfoldable pub run_named : File → Text → sys.World → Response × sys.World
    unfolding run_suite run_target suite_by_name
    run_named cfg name w =
        if is_empty name
        then (incomplete, w)
        else if is_some (suite_by_name cfg name)
        then answered (run_suite sys json docker cfg name w)
        else answered (run_target sys json docker cfg name w)

    unfoldable pub run_request : File → Request → sys.World → Response × sys.World
    unfolding run_named run_up run_down
    run_request cfg req w =
        if req.up
        then answered (run_up sys state procs json docker cfg w)
        else if req.down
        then answered (run_down root req.daemon w)
        else run_named cfg req.run w

    module _ (qjson : QueueCodec) (now : sys.World → ℕ) where
      abbrev pub dequeue_one : Text → Queue → sys.World → Queue × sys.World
      dequeue_one id q w = let d = dequeue sys qjson now id q w in (d.queue, d.world)

      unfoldable pub replay_all : File → List QueueEntry → Queue × sys.World → Queue × sys.World
      unfolding run_request dequeue
      replay_all cfg [] s = s
      replay_all cfg (e ∷ es) (q, w) =
          replay_all cfg es (dequeue_one e.id q (run_request cfg e.request w).1)

      -- A nil file is `none`.
      unfoldable pub replay_queue : Option File → Queue × sys.World → Queue × sys.World
      unfolding replay_all
      replay_queue none s = s
      replay_queue (some cfg) (q, w) = replay_all cfg (pending q) (q, w)

      unfoldable pub serve_with : File → Request → Queue → sys.World → Response × Queue × sys.World
      unfolding run_request enqueue dequeue
      serve_with cfg req q w =
          let (id, queued) = enqueue sys qjson now req root q w in
          let done = run_request cfg req queued.world in
          let (rest, after) = dequeue_one id queued.queue done.1 in (done.0, rest, after)

      unfoldable pub serve :
          Option File → Request → Queue → sys.World → Response × Queue × sys.World
      unfolding serve_with
      serve none req q w = (record { exit_code = 2; error = some no_config }, q, w)
      serve (some cfg) req q w = serve_with cfg req q w
