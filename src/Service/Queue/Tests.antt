-- ===== src/Service/Queue/Tests.antt =====
-- A queue on the machine of the tests.
use go_bake.Base.{
  ℕ, zero, suc, ◌+◌, ◌-◌, ◌<◌, ◌≤◌, ◌≡◌, refl, ap, ◌∙◌, Bool, true, false, Option, none, some, List,
  [], ◌∷◌, ◌++◌, map, Text, bytes, lookup, insert, ◌==◌, digits, decimal, ltb, contains,
  AllDistinct, arith, Bool-cases, inl, inr,
}
use go_bake.System.Tests.{Machine, machine, fresh, pack, unpack}
use go_bake.Lifecycle.Tests.{files, unpack-pack}
use go_bake.Service.Queue.{
  Request, QueueEntry, QueueCodec, Queue, id_of, new_queue, enqueue, dequeue,
}
use go_bake.Service.Queue.Kept.{QueueFile, view}
use go_bake.Service.Queue.Reached.{
  Reached, at_start, enqueued, dequeued_one, restarted, Reached-requests,
}
use Prim.Native.Nat.{◌*◌, ◌/◌, ◌%◌}

-- The number that decimal digits stand for.
abbrev value_onto : ℕ → Text → ℕ
value_onto acc [] = acc
value_onto acc (c ∷ s) = value_onto (acc * 10 + (c - 48)) s

value-snoc :
    (acc : ℕ) (s : Text) (c : ℕ) → value_onto acc (s ++ c ∷ []) ≡ value_onto acc s * 10 + (c - 48)
value-snoc acc [] c = refl
value-snoc acc (d ∷ s) c = value-snoc (acc * 10 + (d - 48)) s c

value-digits : (fuel n : ℕ) → n < fuel → value_onto 0 (digits fuel n) ≡ n
unfolding digits
value-digits zero n h = absurd (omega (arith, h))
value-digits (suc fuel) n h = elim (Bool-cases (ltb n 10)) [
  | inl small ↦ rw small (omega arith)
  | inr large ↦
      let big : 10 ≤ n = ground arith in
      let less : n / 10 < fuel = omega arith in
      rw large (
        value-snoc 0 (digits fuel (n / 10)) (48 + n % 10)
        ∙ ap (λ v. v * 10 + (48 + n % 10 - 48)) (value-digits fuel (n / 10) less)
        ∙ omega arith)
]

-- Sscanf with "q%d", on the ids of the queue.
abbrev scan_id : Text → Option ℕ
scan_id [] = none
scan_id (c ∷ s) = some (value_onto 0 s)

scan_id-id_of : (n : ℕ) → scan_id (id_of n) ≡ some n
unfolding id_of bytes decimal
scan_id-id_of n = ap some (value-digits (suc n) n (omega arith))

abbrev bit : Bool → ℕ
bit false = 0
bit true = 1

abbrev is_bit : ℕ → Bool
is_bit zero = false
is_bit (suc n) = true

abbrev rows : List QueueEntry → List Text
rows [] = []
rows (e ∷ es) =
    let r = e.request in
    e.id
    ∷ e.workspace
    ∷ r.run
    ∷ r.daemon
    ∷ r.workspace
    ∷ (e.enqueued_at ∷ bit r.up ∷ bit r.down ∷ bit r.reload ∷ bit r.status ∷ [])
    ∷ rows es

abbrev entry_of : (id workspace run daemon request_workspace flags : Text) → List QueueEntry
entry_of id workspace run daemon place (t ∷ up ∷ down ∷ reload ∷ status ∷ []) =
    record {
      id = id;
      request = record {
        run = run;
        up = is_bit up;
        down = is_bit down;
        daemon = daemon;
        reload = is_bit reload;
        status = is_bit status;
        workspace = place;
      };
      workspace = workspace;
      enqueued_at = t;
    }
    ∷ []
entry_of id workspace run daemon place _ = []

abbrev unrows : List Text → List QueueEntry
unrows (a ∷ b ∷ c ∷ d ∷ e ∷ f ∷ more) = entry_of a b c d e f ++ unrows more
unrows _ = []

is_bit-bit : (b : Bool) → is_bit (bit b) ≡ b
is_bit-bit true = refl
is_bit-bit false = refl

unrows-rows : (es : List QueueEntry) → unrows (rows es) ≡ es
unrows-rows [] = refl
unrows-rows (e ∷ es) =
    let r = e.request in
    rw (is_bit-bit r.up) (
      rw (is_bit-bit r.down)
        (rw (is_bit-bit r.reload) (rw (is_bit-bit r.status) (ap (λ xs. e ∷ xs) (unrows-rows es)))))

abbrev from_text : Text → Option (List QueueEntry)
from_text [] = none
from_text (c ∷ t) = some (unrows (unpack t))

abbrev pub queue_codec : QueueCodec
queue_codec = record {
  marshal = λ es. 1 ∷ pack (rows es);
  unmarshal = from_text;
  scan_id = scan_id;
}

pub queue_file : QueueFile machine queue_codec
queue_file = record {
  writes = λ path text w. refl;
  reads = λ path text w. files.reads path text w;
  filled = λ es. refl;
  codec = λ es. ap (λ t. some (unrows t)) (unpack-pack (rows es)) ∙ ap some (unrows-rows es);
  scan = scan_id-id_of;
}

abbrev pub clock : Machine → ℕ
clock m = 0

abbrev pub request : Text → Request
request name = record {
  run = name;
  up = false;
  down = false;
  daemon = [];
  reload = false;
  status = false;
  workspace = [];
}

abbrev pub Held : Type 0
Held = Queue × Machine

abbrev begun : Held
begun = (new_queue machine queue_codec clock [] (fresh []), fresh [])

abbrev put_in : Text → Held → Held
put_in name (q, w) =
    let s = (enqueue machine queue_codec clock (request name) [] q w).1 in (s.queue, s.world)

abbrev start_again : Held → Held
start_again (q, w) = (new_queue machine queue_codec clock [] w, w)

abbrev taken : Text → Held → Held
taken id (q, w) = let s = dequeue machine queue_codec clock id q w in (s.queue, s.world)

-- Two requests, a start_again, a third request, and the first one is done.
abbrev two_in : Held
two_in = put_in (bytes "b") (put_in (bytes "a") begun)

abbrev pub held : Held
held = taken (id_of 0) (put_in (bytes "c") (start_again two_in))

runs : Unit {0}
unfolding new_queue enqueue dequeue id_of bytes decimal lookup insert ◌==◌
runs = tt

held-requests :
    map view held.0.entries
    ≡ (bytes "q1", request (bytes "b")) ∷ (bytes "q2", request (bytes "c")) ∷ []
unfolding runs
held-requests = refl

abbrev pub waiting : List (Text × Request)
waiting = (bytes "q1", request (bytes "b")) ∷ (bytes "q2", request (bytes "c")) ∷ []

pub held-Reached : Reached machine queue_codec clock [] waiting held.0 held.1
unfolding runs
held-Reached = dequeued_one (id_of 0) _ _ _ (
    enqueued (request (bytes "c")) [] _ _ _ (
      restarted _ _ _ (
        enqueued (request (bytes "b")) [] _ _ _
          (enqueued (request (bytes "a")) [] _ _ _ (at_start (fresh []) refl)))))

Reached-requests_example :
    (map view held.0.entries ≡ waiting)
    × AllDistinct (map (λ e. e.id) held.0.entries)
    × (contains (map (λ e. e.id) held.0.entries) (id_of held.0.next_id) ≡ false)
    × ((new_queue machine queue_codec clock [] held.1).entries ≡ held.0.entries)
Reached-requests_example =
    Reached-requests machine queue_codec clock [] waiting held.0 held.1 queue_file held-Reached
