-- ===== src/Service/Queue/Kept.antt =====
-- What the operations of the queue do to the ids of its entries.
use mathlib.Core.Path.{subst}
use go_bake.Base.{
  ◌≡◌, refl, sym, ap, ◌∙◌, ℕ, ◌≤◌, ◌<◌, true, false, Option, none, some, List, [], ◌∷◌, map, Text,
  All, contains, AllDistinct, Bool-cases, inl, inr, ==_iff, ◌==◌, if◌then◌else◌, arith,
}
use go_bake.Resolve.Expand.{is_empty}
use go_bake.System.{System, FileRead}
use go_bake.Service.Queue.{Request, QueueEntry, QueueCodec, id_of, next_after, without, next_of}

abbrev pub ids : List QueueEntry → List Text
ids es = map (λ e. e.id) es

-- What a client sees of an entry.
abbrev pub view : QueueEntry → Text × Request
view e = (e.id, e.request)

-- The requests without those of an id.
abbrev pub others : Text → List (Text × Request) → List (Text × Request)
others id [] = []
others id ((i, r) ∷ ps) = let rest = others id ps in if i == id then rest else (i, r) ∷ rest

-- Files can be written and read, JSON gives back the entries in a text that is not empty, and Sscanf
-- reads the number of an id.
pub record QueueFile (sys : System) (json : QueueCodec) : Type 0 where
  pub writes : (path text : Text) (w : sys.World) → (sys.write_file path text w).0 ≡ none
  pub reads :
      (path text : Text) (w : sys.World)
      → sys.read_file path (sys.write_file path text w).1 ≡ FileRead.contents text
  pub filled : (es : List QueueEntry) → is_empty (json.marshal es) ≡ false
  pub codec : (es : List QueueEntry) → json.unmarshal (json.marshal es) ≡ some es
  pub scan : (n : ℕ) → json.scan_id (id_of n) ≡ some n

-- The entries without the first one of an id.
abbrev pub left_of : Option (List QueueEntry) → List QueueEntry → List QueueEntry
left_of none es = es
left_of (some more) es = more

abbrev pub left : Text → List QueueEntry → List QueueEntry
left id es = left_of (without id es) es

left_of-kept :
    (e : QueueEntry) (es : List QueueEntry) (o : Option (List QueueEntry))
    → left_of (elim o [ none ↦ none | some more ↦ some (e ∷ more) ]) (e ∷ es) ≡ e ∷ left_of o es
left_of-kept e es none = refl
left_of-kept e es (some more) = refl

left-cons :
    (id : Text) (e : QueueEntry) (es : List QueueEntry)
    → left id (e ∷ es) ≡ (if e.id == id then es else e ∷ left id es)
unfolding without
left-cons id e es = elim (Bool-cases (e.id == id)) [
  | inl here ↦ rw here refl
  | inr there ↦ rw there (left_of-kept e es (without id es))
]

pub left-here :
    (id : Text) (e : QueueEntry) (es : List QueueEntry)
    → (e.id == id) ≡ true
    → left id (e ∷ es) ≡ es
left-here id e es here = left-cons id e es ∙ ap (λ b. if b then es else e ∷ left id es) here

pub left-there :
    (id : Text) (e : QueueEntry) (es : List QueueEntry)
    → (e.id == id) ≡ false
    → left id (e ∷ es) ≡ e ∷ left id es
left-there id e es there = left-cons id e es ∙ ap (λ b. if b then es else e ∷ left id es) there

pub left-All :
    (P : QueueEntry → Type 0) (id : Text) (es : List QueueEntry) → All P es → All P (left id es)
unfolding without
left-All P id [] h = tt
left-All P id (e ∷ es) h = elim (Bool-cases (e.id == id)) [
  | inl here ↦ subst (All P) (sym (left-here id e es here)) h.1
  | inr there ↦ subst (All P) (sym (left-there id e es there)) (h.0, left-All P id es h.1)
]

left-absent :
    (id other : Text) (es : List QueueEntry)
    → contains (ids es) other ≡ false
    → contains (ids (left id es)) other ≡ false
unfolding without contains
left-absent id other [] h = refl
left-absent id other (e ∷ es) h = elim (Bool-cases (e.id == id)) [
  | inl here ↦
      subst (λ xs. contains (ids xs) other ≡ false) (sym (left-here id e es here)) (ground arith)
  | inr there ↦
      let rest = left-absent id other es (ground arith) in
      subst (λ xs. contains (ids xs) other ≡ false) (sym (left-there id e es there)) (ground arith)
]

pub left-AllDistinct :
    (id : Text) (es : List QueueEntry) → AllDistinct (ids es) → AllDistinct (ids (left id es))
unfolding without
left-AllDistinct id [] h = tt
left-AllDistinct id (e ∷ es) h = elim (Bool-cases (e.id == id)) [
  | inl here ↦ subst (λ xs. AllDistinct (ids xs)) (sym (left-here id e es here)) h.1
  | inr there ↦
      subst (λ xs. AllDistinct (ids xs)) (sym (left-there id e es there))
        (left-absent id e.id es h.0, left-AllDistinct id es h.1)
]

others-absent :
    (id : Text) (es : List QueueEntry)
    → contains (ids es) id ≡ false
    → others id (map view es) ≡ map view es
unfolding contains
others-absent id [] h = refl
others-absent id (e ∷ es) h =
    let there : (e.id == id) ≡ false = ground arith in
    ap (λ b. if b then others id (map view es) else view e ∷ others id (map view es)) there
    ∙ ap (λ xs. view e ∷ xs) (others-absent id es (ground arith))

-- Taking the first entry of an id takes them all, when ids are distinct.
pub left-others :
    (id : Text) (es : List QueueEntry)
    → AllDistinct (ids es)
    → map view (left id es) ≡ others id (map view es)
unfolding without
left-others id [] h = refl
left-others id (e ∷ es) h = elim (Bool-cases (e.id == id)) [
  | inl here ↦
      ap (map view) (left-here id e es here)
      ∙ sym (
          others-absent id es
            (subst (λ x. contains (ids es) x ≡ false) ((==_iff e.id id).0 here) h.0))
      ∙ sym (ap (λ b. if b then others id (map view es) else view e ∷ others id (map view es)) here)
  | inr there ↦
      ap (map view) (left-there id e es there)
      ∙ ap (λ xs. view e ∷ xs) (left-others id es h.1)
      ∙ sym
          (ap (λ b. if b then others id (map view es) else view e ∷ others id (map view es)) there)
]

-- The number of an id is below the next one.
abbrev pub Named : ℕ → QueueEntry → Type 0
Named next e = (n : ℕ) × (e.id ≡ id_of n) × (n < next)

module _ (sys : System) (json : QueueCodec) (now : sys.World → ℕ) (file : QueueFile sys json) where
  id_of-injective : (m n : ℕ) → id_of m ≡ id_of n → m ≡ n
  id_of-injective m n e = some-injective (sym (file.scan m) ∙ ap json.scan_id e ∙ file.scan n)
    where
      some-injective : {a b : ℕ} → some a ≡ some b → a ≡ b
      some-injective e = cc

  pub next-absent :
      (next : ℕ) (es : List QueueEntry)
      → All (Named next) es
      → contains (ids es) (id_of next) ≡ false
  unfolding contains
  next-absent next [] h = refl
  next-absent next (e ∷ es) ((n, named, lt), h) =
      let rest = next-absent next es h in
      elim (Bool-cases (e.id == id_of next)) [
        | inl here ↦
            let same = id_of-injective n next (sym named ∙ (==_iff e.id (id_of next)).0 here) in
            absurd (omega (arith, same, lt))
        | inr there ↦ ground arith
      ]

  next_of-above : (es : List QueueEntry) (next : ℕ) → next ≤ next_of sys json now es next
  unfolding next_of
  next_of-above [] next = ground arith
  next_of-above (e ∷ es) next =
      let rest = next_of-above es (next_after (json.scan_id e.id) next) in
      let up = next_after-above (json.scan_id e.id) next in omega (arith, rest, up)
    where
      next_after-above : (o : Option ℕ) (next : ℕ) → next ≤ next_after o next
      next_after-above none next = ground arith
      next_after-above (some n) next = ground arith

  pub next_of-Named :
      (es : List QueueEntry) (next limit : ℕ)
      → All (Named limit) es
      → All (Named (next_of sys json now es next)) es
  unfolding next_of
  next_of-Named [] next limit h = tt
  next_of-Named (e ∷ es) next limit ((n, named, lt), h) =
      let scanned : json.scan_id e.id ≡ some n = ap json.scan_id named ∙ file.scan n in
      let above = next_of-above es (next_after (json.scan_id e.id) next) in
      let reached : n < next_after (json.scan_id e.id) next = rw scanned (ground arith) in
      (
        (n, named, omega (arith, above, reached)),
        next_of-Named es (next_after (json.scan_id e.id) next) limit h,
      )
