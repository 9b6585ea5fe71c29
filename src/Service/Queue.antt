-- ===== src/Service/Queue.antt =====
-- internal/baked/queue.go: the requests that wait, kept in .bake/queue.json. JSON, the clock and
-- what Sscanf reads with "q%d" are parameters. The mutex is left out: every operation here holds it
-- from its first line to its last.
pub mod Kept
pub mod Reached
pub mod Tests
use go_bake.Base.{
  Result, ok, err, ℕ, suc, Bool, Option, none, some, List, [], ◌∷◌, ◌++◌, Text, bytes, decimal, leb,
  length, ◌==◌, if◌then◌else◌,
}
use go_bake.Resolve.Expand.{is_empty}
use go_bake.System.{System, FileRead}

-- internal/daemonproto
pub record Request : Type 0 where
  pub run : Text
  pub up : Bool
  pub down : Bool
  pub daemon : Text
  pub reload : Bool
  pub status : Bool
  pub workspace : Text

pub record QueueEntry : Type 0 where
  pub id : Text
  pub request : Request
  pub workspace : Text
  pub enqueued_at : ℕ

pub record QueueCodec : Type 0 where
  pub marshal : List QueueEntry → Text
  pub unmarshal : Text → Option (List QueueEntry)
  -- `none` is an error and a negative number.
  pub scan_id : Text → Option ℕ

pub record Queue : Type 0 where
  pub path : Text
  pub entries : List QueueEntry
  pub next_id : ℕ

abbrev entries_or_none : Option (List QueueEntry) → List QueueEntry
entries_or_none none = []
entries_or_none (some es) = es

unfoldable pub id_of : ℕ → Text
unfolding bytes decimal
id_of n = bytes "q" ++ decimal n

-- The number that follows, if it is not below the next one.
abbrev pub next_after : Option ℕ → ℕ → ℕ
next_after none next = next
next_after (some n) next = if leb next n then suc n else next

-- The first entry of the id is taken out, if there is one.
unfoldable pub without : Text → List QueueEntry → Option (List QueueEntry)
unfolding ◌==◌
without id [] = none
without id (e ∷ es) =
    let rest : Option (List QueueEntry) = elim (without id es) [
      | none ↦ none
      | some more ↦ some (e ∷ more)
    ] in
    if e.id == id then some es else rest

abbrev pub pending : Queue → List QueueEntry
pending q = q.entries

abbrev pub len : Queue → ℕ
len q = length q.entries

module _ (sys : System) (json : QueueCodec) (now : sys.World → ℕ) where
  unfoldable pub queue_path : Text → Text
  unfolding bytes
  queue_path root = sys.join root (sys.join (bytes ".bake") (bytes "queue.json"))

  unfoldable pub read_entries : FileRead → List QueueEntry
  read_entries FileRead.not_exist = []
  read_entries (FileRead.failed e) = []
  read_entries (FileRead.contents c) = if is_empty c then [] else entries_or_none (json.unmarshal c)

  -- The loop over the entries that have been read.
  unfoldable pub next_of : List QueueEntry → ℕ → ℕ
  next_of [] next = next
  next_of (e ∷ es) next = next_of es (next_after (json.scan_id e.id) next)

  unfoldable pub new_queue : Text → sys.World → Queue
  unfolding read_entries next_of queue_path
  new_queue root w =
      let entries = read_entries (sys.read_file (queue_path root) w) in
      record { path = queue_path root; entries = entries; next_id = next_of entries 0 }

  unfoldable pub flush : Queue → sys.World → Option Text × sys.World
  flush q w = sys.write_file q.path (json.marshal q.entries) w

  -- A queue with the state of the machine, and the error of an operation.
  pub record Queued : Type 0 where
    pub queue : Queue
    pub error : Option Text
    pub world : sys.World

  unfoldable pub flushed : Queue → sys.World → Queued
  unfolding flush
  flushed q w = let r = flush q w in record { queue = q; error = r.0; world = r.1 }

  unfoldable pub enqueue : Request → Text → Queue → sys.World → Text × Queued
  unfolding flushed id_of
  enqueue req workspace q w =
      let e : QueueEntry = record {
        id = id_of q.next_id;
        request = req;
        workspace = workspace;
        enqueued_at = now w;
      } in
      (
        id_of q.next_id,
        flushed (record q { entries = q.entries ++ e ∷ []; next_id = suc q.next_id }) w,
      )

  unfoldable pub dequeued : Option (List QueueEntry) → Queue → sys.World → Queued
  unfolding flushed
  dequeued none q w = record { queue = q; error = none; world = w }
  dequeued (some es) q w = flushed (record q { entries = es }) w

  unfoldable pub dequeue : Text → Queue → sys.World → Queued
  unfolding dequeued without
  dequeue id q w = dequeued (without id q.entries) q w
