-- ===== src/Service/Serve/Replay.antt =====
-- What a replay does to the queue, and a request that is served.
use go_bake.Base.{
  ◌≡◌, refl, ap, ◌∙◌, ℕ, Bool, false, Option, none, some, List, [], ◌∷◌, ◌++◌, map, Text, contains,
  ==_refl, arith,
}
use go_bake.Config.{File}
use go_bake.Cache.{Codec}
use go_bake.System.{System}
use go_bake.Lifecycle.{StateCodec}
use go_bake.Lifecycle.Start.{Processes}
use go_bake.Service.Queue.{
  Request, QueueEntry, QueueCodec, Queue, id_of, without, flush, flushed, enqueue, dequeued,
  dequeue,
}
use go_bake.Service.Queue.Kept.{ids, view, QueueFile, left, left_of, left-here, left-there}
use go_bake.Service.Queue.Reached.{Reached, Reached-requests}
use go_bake.Service.Serve.{run_request, dequeue_one, replay_all, replay_queue, serve_with, serve}

without-first : (e : QueueEntry) (es : List QueueEntry) → without e.id (e ∷ es) ≡ some es
unfolding without
without-first e es = rw (==_refl e.id) refl

left-snoc :
    (es : List QueueEntry) (e : QueueEntry)
    → contains (ids es) e.id ≡ false
    → left e.id (es ++ e ∷ []) ≡ es
unfolding contains
left-snoc [] e h = left-here e.id e [] (==_refl e.id)
left-snoc (x ∷ es) e h =
    left-there e.id x (es ++ e ∷ []) (ground arith)
    ∙ ap (λ xs. x ∷ xs) (left-snoc es e (ground arith))

module _ (sys : System) (state : StateCodec) (procs : Processes sys) (json : Codec) (docker : Bool)
    (root : Text) (qjson : QueueCodec) (now : sys.World → ℕ) where
  -- The requests run one after the other, and behind each the file is written without it.
  unfoldable pub drained : File → Queue → List QueueEntry → sys.World → sys.World
  unfolding run_request flush
  drained cfg q [] w = w
  drained cfg q (e ∷ es) w =
      drained cfg q es
        (flush sys qjson now (record q { entries = es })
          (run_request sys state procs json docker root cfg e.request w).1).1

  dequeue-first :
      (q : Queue) (e : QueueEntry) (es : List QueueEntry) (w : sys.World)
      → dequeue_one sys state procs json docker root qjson now e.id
          (record q { entries = e ∷ es })
          w
        ≡ (record q { entries = es }, (flush sys qjson now (record q { entries = es }) w).1)
  unfolding dequeue dequeued flushed
  dequeue-first q e es w =
      ap
        (λ o.
          let d = dequeued sys qjson now o (record q { entries = e ∷ es }) w in (d.queue, d.world))
        (without-first e es)

  replay_all-drained :
      (cfg : File) (q : Queue) (es : List QueueEntry) (w : sys.World)
      → replay_all sys state procs json docker root qjson now cfg es (record q { entries = es }, w)
        ≡ (record q { entries = [] }, drained cfg q es w)
  unfolding replay_all drained
  replay_all-drained cfg q [] w = refl
  replay_all-drained cfg q (e ∷ es) w =
      ap (replay_all sys state procs json docker root qjson now cfg es)
        (dequeue-first q e es (run_request sys state procs json docker root cfg e.request w).1)
      ∙ replay_all-drained cfg q es _

  dequeued-entries :
      (o : Option (List QueueEntry)) (q : Queue) (w : sys.World)
      → (dequeued sys qjson now o q w).queue.entries ≡ left_of o q.entries
  unfolding dequeued flushed
  dequeued-entries none q w = refl
  dequeued-entries (some es) q w = refl

  serve_with-entries :
      (cfg : File) (req : Request) (q : Queue) (w : sys.World)
      → contains (ids q.entries) (id_of q.next_id) ≡ false
      → (serve_with sys state procs json docker root qjson now cfg req q w).1.entries ≡ q.entries
  unfolding serve_with enqueue flushed dequeue
  serve_with-entries cfg req q w h =
      dequeued-entries (without (id_of q.next_id) (q.entries ++ _ ∷ [])) _ _
      ∙ left-snoc q.entries
          (record { id = id_of q.next_id; request = req; workspace = root; enqueued_at = now w }) h

-- A replay runs the requests that wait one after the other, in their order and each once; behind
-- each the file is written without it and the earlier ones, and the queue is empty at the end.
-- Serving a request leaves in the queue what waited before, and nothing of the request, whether it
-- fails or not. The queue may have any history since its file was missing; files can be written and
-- read, JSON gives back the entries, and nothing else writes the file.
pub replay_queue-drained :
    (sys : System) (state : StateCodec) (procs : Processes sys) (json : Codec) (docker : Bool)
    (root : Text) (qjson : QueueCodec) (now : sys.World → ℕ) (cfg : File) (req : Request)
    (ps : List (Text × Request)) (q : Queue) (w : sys.World)
    → QueueFile sys qjson
    → Reached sys qjson now root ps q w
    → (replay_queue sys state procs json docker root qjson now (some cfg) (q, w) ≡ (
      record q { entries = [] },
      drained sys state procs json docker root qjson now cfg q q.entries w,
    ))
      × (map view (serve sys state procs json docker root qjson now (some cfg) req q w).1.entries
          ≡ ps)
unfolding replay_queue serve
replay_queue-drained sys state procs json docker root qjson now cfg req ps q w file r =
    let (requests, distinct, absent, back) = Reached-requests sys qjson now root ps q w file r in
    (
      replay_all-drained sys state procs json docker root qjson now cfg q q.entries w,
      ap (map view)
            (serve_with-entries sys state procs json docker root qjson now cfg req q w absent)
          ∙ requests,
    )
