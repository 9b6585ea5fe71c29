-- ===== src/Service/Queue/Reached.antt =====
-- The queue over any history of its operations and of restarts of the service.
use mathlib.Core.Path.{subst}
use go_bake.Base.{
  ◌≡◌, refl, sym, ap, ◌∙◌, ℕ, suc, false, Option, none, some, List, [], ◌∷◌, ◌++◌, map, Text, All,
  All-append, All-map, contains, AllDistinct, AllDistinct-snoc, arith,
}
use go_bake.System.{System, FileRead}
use go_bake.Service.Queue.{
  Request, QueueEntry, QueueCodec, Queue, id_of, without, queue_path, read_entries, new_queue,
  flush, flushed, enqueue, dequeued, dequeue,
}
use go_bake.Service.Queue.Kept.{
  ids, view, others, QueueFile, left_of, left-All, left-AllDistinct, left-others, Named,
  next-absent, next_of-Named,
}

-- The states that the service can bring the queue to, with the requests that have been put in and
-- not been taken out. It starts without a file; in between, the machine may change in any way that
-- leaves the file alone.
pub data Reached (sys : System) (json : QueueCodec) (now : sys.World → ℕ) (root : Text)
    : List (Text × Request) → Queue → sys.World → Type 0 where
  at_start :
      (w : sys.World)
      → sys.read_file (queue_path sys json now root) w ≡ FileRead.not_exist
      → Reached sys json now root [] (new_queue sys json now root w) w
  enqueued :
      (req : Request) (workspace : Text) (ps : List (Text × Request)) (q : Queue) (w : sys.World)
      → Reached sys json now root ps q w
      → Reached sys json now root
          (ps ++ (id_of q.next_id, req) ∷ [])
          (enqueue sys json now req workspace q w).1.queue
          (enqueue sys json now req workspace q w).1.world
  dequeued_one :
      (id : Text) (ps : List (Text × Request)) (q : Queue) (w : sys.World)
      → Reached sys json now root ps q w
      → Reached sys json now root
          (others id ps)
          (dequeue sys json now id q w).queue
          (dequeue sys json now id q w).world
  restarted :
      (ps : List (Text × Request)) (q : Queue) (w : sys.World)
      → Reached sys json now root ps q w
      → Reached sys json now root ps (new_queue sys json now root w) w
  elsewhere :
      (ps : List (Text × Request)) (q : Queue) (w u : sys.World)
      → Reached sys json now root ps q w
      → sys.read_file (queue_path sys json now root) u
        ≡ sys.read_file (queue_path sys json now root) w
      → Reached sys json now root ps q u

module _ (sys : System) (json : QueueCodec) (now : sys.World → ℕ) (root : Text) where
  -- The entries that the file holds.
  abbrev pub stored : sys.World → List QueueEntry
  stored w = read_entries sys json now (sys.read_file (queue_path sys json now root) w)

  record IsQueue (ps : List (Text × Request)) (q : Queue) (w : sys.World) : Type 0 where
    path : q.path ≡ queue_path sys json now root
    requests : map view q.entries ≡ ps
    ids_named : All (Named q.next_id) q.entries
    distinct : AllDistinct (ids q.entries)
    file : stored w ≡ q.entries

  module _ (qf : QueueFile sys json) where
    stored-flush :
        (q : Queue) (w : sys.World)
        → q.path ≡ queue_path sys json now root
        → stored (flush sys json now q w).1 ≡ q.entries
    unfolding flush read_entries
    stored-flush q w e =
        ap
          (λ p.
            read_entries sys json now
              (sys.read_file p (sys.write_file q.path (json.marshal q.entries) w).1))
          (sym e)
        ∙ ap (read_entries sys json now) (qf.reads q.path (json.marshal q.entries) w)
        ∙ rw (qf.filled q.entries) (rw (qf.codec q.entries) refl)

    Named-suc : (next : ℕ) (es : List QueueEntry) → All (Named next) es → All (Named (suc next)) es
    Named-suc next es h =
        All-map (Named next) (Named (suc next)) es
          (λ e (n, named, lt). (n, named, omega (arith, lt))) h

    map-append :
        {A B : Type 0} (f : A → B) (xs ys : List A) → map f (xs ++ ys) ≡ map f xs ++ map f ys
    map-append f [] ys = refl
    map-append f (x ∷ xs) ys = ap (λ zs. f x ∷ zs) (map-append f xs ys)

    enqueue-IsQueue :
        (req : Request) (workspace : Text) (ps : List (Text × Request)) (q : Queue) (w : sys.World)
        → IsQueue ps q w
        → IsQueue
            (ps ++ (id_of q.next_id, req) ∷ [])
            (enqueue sys json now req workspace q w).1.queue
            (enqueue sys json now req workspace q w).1.world
    unfolding enqueue flushed
    enqueue-IsQueue req workspace ps q w h =
        let e : QueueEntry = record {
          id = id_of q.next_id;
          request = req;
          workspace = workspace;
          enqueued_at = now w;
        } in
        let next : Queue = record q { entries = q.entries ++ e ∷ []; next_id = suc q.next_id } in
        record {
          path = h.path;
          requests = map-append view q.entries (e ∷ []) ∙ ap (λ xs. xs ++ view e ∷ []) h.requests;
          ids_named =
              All-append (Named (suc q.next_id)) q.entries (e ∷ [])
                (Named-suc q.next_id q.entries h.ids_named) ((q.next_id, refl, omega arith), tt);
          distinct = subst AllDistinct (sym (map-append (λ x. x.id) q.entries (e ∷ []))) (
              AllDistinct-snoc (ids q.entries) (id_of q.next_id) h.distinct
                (next-absent sys json now qf q.next_id q.entries h.ids_named));
          file = stored-flush next w h.path;
        }

    dequeued-IsQueue :
        (o : Option (List QueueEntry)) (ps : List (Text × Request)) (q : Queue) (w : sys.World)
        → q.path ≡ queue_path sys json now root
        → stored w ≡ q.entries
        → map view (left_of o q.entries) ≡ ps
        → All (Named q.next_id) (left_of o q.entries)
        → AllDistinct (ids (left_of o q.entries))
        → IsQueue ps (dequeued sys json now o q w).queue (dequeued sys json now o q w).world
    unfolding dequeued flushed
    dequeued-IsQueue none ps q w p f r n d = record {
      path = p;
      requests = r;
      ids_named = n;
      distinct = d;
      file = f;
    }
    dequeued-IsQueue (some es) ps q w p f r n d = record {
      path = p;
      requests = r;
      ids_named = n;
      distinct = d;
      file = stored-flush (record q { entries = es }) w p;
    }

    dequeue-IsQueue :
        (id : Text) (ps : List (Text × Request)) (q : Queue) (w : sys.World)
        → IsQueue ps q w
        → IsQueue
            (others id ps)
            (dequeue sys json now id q w).queue
            (dequeue sys json now id q w).world
    unfolding dequeue
    dequeue-IsQueue id ps q w h =
        dequeued-IsQueue (without id q.entries) (others id ps) q w h.path h.file
          (left-others id q.entries h.distinct ∙ ap (others id) h.requests)
          (left-All (Named q.next_id) id q.entries h.ids_named)
          (left-AllDistinct id q.entries h.distinct)

    new_queue-IsQueue :
        (ps : List (Text × Request)) (limit : ℕ) (es : List QueueEntry) (w : sys.World)
        → stored w ≡ es
        → map view es ≡ ps
        → All (Named limit) es
        → AllDistinct (ids es)
        → IsQueue ps (new_queue sys json now root w) w
    unfolding new_queue
    new_queue-IsQueue ps limit es w s r n d = record {
      path = refl;
      requests = ap (map view) s ∙ r;
      ids_named =
          next_of-Named sys json now qf (stored w) 0 limit (subst (All (Named limit)) (sym s) n);
      distinct = subst (λ xs. AllDistinct (ids xs)) (sym s) d;
      file = refl;
    }

    Reached-IsQueue :
        {ps : List (Text × Request)} {q : Queue} {w : sys.World}
        → Reached sys json now root ps q w
        → IsQueue ps q w
    Reached-IsQueue (at_start w missing) =
        new_queue-IsQueue [] 0 [] w
          (ap (read_entries sys json now) missing ∙ unfold read_entries in refl) refl tt tt
    Reached-IsQueue (enqueued req workspace ps q w r) =
        enqueue-IsQueue req workspace ps q w (Reached-IsQueue r)
    Reached-IsQueue (dequeued_one id ps q w r) = dequeue-IsQueue id ps q w (Reached-IsQueue r)
    Reached-IsQueue (restarted ps q w r) =
        let h = Reached-IsQueue r in
        new_queue-IsQueue ps q.next_id q.entries w h.file h.requests h.ids_named h.distinct
    Reached-IsQueue (elsewhere ps q w u r same) =
        let h = Reached-IsQueue r in
        record {
          path = h.path;
          requests = h.requests;
          ids_named = h.ids_named;
          distinct = h.distinct;
          file = ap (read_entries sys json now) same ∙ h.file;
        }

-- Whatever requests are put into the queue and taken out, and however often the service is started
-- again in between, the queue holds the requests that were put in and not taken out, in the order
-- in which they came; no id stands twice, the id of the next request is not in use, and a service
-- started now reads the same entries. The service starts without a file, files can be written and
-- read, JSON gives back the entries, and nothing else writes the file.
pub Reached-requests :
    (sys : System) (json : QueueCodec) (now : sys.World → ℕ) (root : Text)
    (ps : List (Text × Request)) (q : Queue) (w : sys.World)
    → QueueFile sys json
    → Reached sys json now root ps q w
    → (map view q.entries ≡ ps)
      × AllDistinct (map (λ e. e.id) q.entries)
      × (contains (map (λ e. e.id) q.entries) (id_of q.next_id) ≡ false)
      × ((new_queue sys json now root w).entries ≡ q.entries)
unfolding new_queue
Reached-requests sys json now root ps q w qf r =
    let h = Reached-IsQueue sys json now root qf r in
    (h.requests, h.distinct, next-absent sys json now qf q.next_id q.entries h.ids_named, h.file)
