-- ===== src/Container.antt =====
-- internal/runner/container/registry.go: networks and volumes, created at their first use. The
-- Docker API is a parameter; a part of a run returns its result and the calls that it has made.
pub mod Executor
pub mod Quiet
pub mod Created
pub mod Tests
use go_bake.Base.{
  Result, ok, err, ℕ, Bool, Option, none, some, List, [], ◌∷◌, ◌++◌, Text, TextMap, bytes, lookup,
  insert, if◌then◌else◌,
}
use go_bake.Config.{VolumeRef}
use go_bake.System.{Process}
use go_bake.Resolve.Expand.{is_empty}

-- A mount of a path of the host, or else of a volume.
pub record Mount : Type 0 where
  pub is_bind : Bool
  pub source : Text
  pub target : Text

-- container.Config and container.HostConfig.
pub record Config : Type 0 where
  pub image : Text
  pub cmd : List Text
  pub env : TextMap Text
  pub working_dir : Text
  pub mounts : List Mount
  pub network_mode : Text
  pub auto_remove : Bool

pub record Docker : Type 1 where
  pub World : Type 0
  pub image_inspect : Text → World → Bool × World
  pub image_pull : Text → World → Result (Unit {0}) × World
  pub network_create : Text → World → Result Text × World
  pub volume_create : Text → World → Result Text × World
  pub container_create : Config → World → Result Text × World
  pub network_connect : (network container : Text) → World → Result (Unit {0}) × World
  pub container_start : Text → World → Result (Unit {0}) × World
  pub container_remove : Text → World → Result (Unit {0}) × World
  pub exec_create : Text → Process → World → Result Text × World
  pub exec_attach : Text → World → Result (Unit {0}) × World
  -- Copying the output; the end of the stream is no error.
  pub copy_output : Text → World → Result (Unit {0}) × World
  pub exec_inspect : Text → World → Result ℕ × World
  -- filepath.Abs, filepath.Rel and filepath.Join, and the pull policy of the environment.
  pub abs : Text → Option Text
  pub rel : Text → Text → Option Text
  pub join : Text → Text → Text
  pub pull_policy : Text

-- The calls of the API; `created` is a container that has been created, and a removal is `done` if
-- it has given no error.
pub data Call : Type 0 where
  inspected pulled network volume : (name : Text) → Call
  created started : (id : Text) → Call
  removed : (id : Text) (done : Bool) → Call
  connected : (network id : Text) → Call
  executed attached copied exec_inspected : (id : Text) → Call

pub record Registry : Type 0 where
  pub net_ids : TextMap Text
  pub vol_ids : TextMap Text

module _ (d : Docker) where
  pub record Engine : Type 0 where
    pub world : d.World
    pub registry : Registry

  pub record Answer (A : Type 0) : Type 0 where
    pub result : Result A
    pub engine : Engine
    pub calls : List Call

  abbrev pub Api : Type 0 → Type 0
  Api A = Engine → Answer A

  abbrev pub pure : {A : Type 0} → A → Api A
  pure a e = record { result = ok a; engine = e; calls = [] }

  abbrev pub fail : {A : Type 0} → Text → Api A
  fail message e = record { result = err message; engine = e; calls = [] }

  -- What comes behind a call, if there is no error.
  unfoldable pub behind : {A B : Type 0} → Result A → Engine → List Call → (A → Api B) → Answer B
  behind (err message) e calls f = record { result = err message; engine = e; calls = calls }
  behind (ok x) e calls f = let b = f x e in record b { calls = calls ++ b.calls }

  abbrev pub bind : {A B : Type 0} → Api A → (A → Api B) → Api B
  bind m f e = let a = m e in behind a.result a.engine a.calls f

  -- One call of the API.
  abbrev pub ask : {A : Type 0} → Call → (d.World → Result A × d.World) → Api A
  ask c op e =
      let r = op e.world in
      record { result = r.0; engine = record e { world = r.1 }; calls = c ∷ [] }

  abbrev pub add_network : Text → Text → Api Text
  add_network name id e = record {
    result = ok id;
    engine = record e {
      registry = record e.registry { net_ids = insert name id e.registry.net_ids };
    };
    calls = [];
  }

  abbrev pub add_volume : Text → Text → Api Text
  add_volume name id e = record {
    result = ok id;
    engine = record e {
      registry = record e.registry { vol_ids = insert name id e.registry.vol_ids };
    };
    calls = [];
  }

  abbrev pub known_or : Option Text → Api Text → Api Text
  known_or none create = create
  known_or (some id) create = pure id

  unfoldable pub ensure_network : Text → Api Text
  unfolding behind lookup insert
  ensure_network name e =
      known_or (lookup name e.registry.net_ids)
        (bind (ask (network name) (d.network_create name)) (add_network name)) e

  unfoldable pub ensure_named_volume : Text → Api Text
  unfolding behind lookup insert
  ensure_named_volume name e =
      known_or (lookup name e.registry.vol_ids)
        (bind (ask (volume name) (d.volume_create name)) (add_volume name)) e

  abbrev pub or_fail : Text → Option Text → Api Text
  or_fail message none = fail message
  or_fail message (some x) = pure x

  unfoldable pub ensure_volume : VolumeRef → Text → Api (Text × Text)
  unfolding ensure_named_volume bytes
  ensure_volume ref root_dir =
      bind
        (if is_empty ref.host_path
          then ensure_named_volume ref.name
          else or_fail ref.host_path (d.abs (d.join root_dir ref.host_path)))
        (λ source. pure (source, bytes "/mnt/" ++ ref.name))
