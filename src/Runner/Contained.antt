-- ===== src/Runner/Contained.antt =====
-- The container of a target in internal/runner/runner.go: what System leaves open as
-- `run_container` is Run of internal/runner/container/executor.go.
mod Tests
use go_bake.Base.{Option, none, some, Text, Result, ok, err}
use go_bake.System.{System}
use go_bake.Container.{Docker, Engine}
use go_bake.Container.Executor.{run}

-- Where Docker's state and the registry of a run lie in the state of the machine.
pub record Place (sys : System) (d : Docker) : Type 0 where
  pub engine : sys.World → Engine d
  pub put : Engine d → sys.World → sys.World

abbrev message_of : Result (Unit {0}) → Option Text
message_of (ok u) = none
message_of (err message) = some message

abbrev pub with_docker : (sys : System) (d : Docker) → Place sys d → System
with_docker sys d place = record sys {
  run_container =
      λ opts w. let a = run d opts (place.engine w) in (message_of a.result, place.put a.engine w);
}
