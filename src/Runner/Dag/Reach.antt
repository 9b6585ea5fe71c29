-- ===== src/Runner/Dag/Reach.antt =====
-- TopoOrder collects exactly the names that the dependencies lead to, each once.
use mathlib.Core.Path.{subst}
use go_bake.Base.{
  ℕ, zero, suc, ◌≡◌, refl, Bool-cases, inl, inr, Option, none, some, List, [], ◌∷◌, Text, All, Has,
  AllDistinct, contains, contains-cons, contains-nil, length, ==_iff, All-map, ◌==◌, arith,
}
use go_bake.Config.{File, Target, target_by_name}
use go_bake.Runner.Dag.{
  Visits, Outcome, ok, unknown_dependency, out_of_fuel, ◌>>=◌, visit, visit_all, mark, emit, start,
  topo_order,
}
use go_bake.Runner.Dag.Visit.{>>=-eq-ok, ok-injective}
use go_bake.Runner.Dag.Grows.{DepsIn, IsSound, Grows, visit-Grows}

-- The names that the dependencies of `root` lead to.
pub data Reaches (cfg : File) (root : Text) : Text → Type 0 where
  here : Reaches cfg root root
  dep :
      {x d : Text}
      → Reaches cfg root x
      → (tgt : Target) → target_by_name cfg x ≡ some tgt
      → Has tgt.deps d
      → Reaches cfg root d

module _ (cfg : File) (root : Text) where
  abbrev OnlyReached : Visits → Type 0
  OnlyReached s = (x : Text) → Has s.visited x → Reaches cfg root x

  abbrev Reached : Outcome Visits → Type 0
  Reached (ok t) = OnlyReached t
  Reached (unknown_dependency d) = Reaches cfg root d × (target_by_name cfg d ≡ none)
  Reached out_of_fuel = Unit

  Reached-bind :
      (m : Outcome Visits) (f : Visits → Outcome Visits)
      → Reached m
      → ((t : Visits) → OnlyReached t → Reached (f t))
      → Reached (m >>= f)
  Reached-bind (ok t) f h k = k t h
  Reached-bind (unknown_dependency d) f h k = h
  Reached-bind out_of_fuel f h k = tt

  visit_all-Reached :
      (v : Text → Visits → Outcome Visits)
      → ((n : Text) (s : Visits) → Reaches cfg root n → OnlyReached s → Reached (v n s))
      → (ds : List Text) (s : Visits) → ((d : Text) → Has ds d → Reaches cfg root d)
      → OnlyReached s
      → Reached (visit_all v ds s)
  unfolding visit_all
  visit_all-Reached v h [] s r only = only
  visit_all-Reached v h (d ∷ ds) s r only =
      Reached-bind (v d s) (visit_all v ds)
        (h d s (r d (ground (arith, contains-cons d ds d, ==_iff d d))) only)
        (λ t. visit_all-Reached v h ds t (λ e m. r e (ground (arith, contains-cons d ds e))))

  mark-OnlyReached :
      (n : Text) (s : Visits) → Reaches cfg root n → OnlyReached s → OnlyReached (mark n s)
  mark-OnlyReached n s r only x m = elim (Bool-cases (n == x)) [
    | inl e ↦ subst (Reaches cfg root) ((==_iff n x).0 e) r
    | inr e ↦ only x (ground (arith, contains-cons n s.visited x))
  ]

  visit-Reached :
      (fuel : ℕ) (n : Text) (s : Visits)
      → Reaches cfg root n
      → OnlyReached s
      → Reached (visit cfg fuel n s)
  unfolding visit
  visit-Reached zero n s r only = tt
  visit-Reached (suc fuel) n s r only = elim (Bool-cases (contains s.visited n)) [
    | inl known ↦ rw known only
    | inr unseen ↦ rw unseen (found (target_by_name cfg n) refl (visit-Reached fuel))
  ]
    where
      found :
          (o : Option Target)
          → target_by_name cfg n ≡ o
          → ((m : Text) (t : Visits)
              → Reaches cfg root m
              → OnlyReached t
              → Reached (visit cfg fuel m t))
          → Reached (elim o [
            | none ↦ unknown_dependency n
            | some tgt ↦ do t ← visit_all (visit cfg fuel) tgt.deps (mark n s); ok (emit n t)
          ])
      found none e ih = (r, e)
      found (some tgt) e ih =
          Reached-bind (visit_all (visit cfg fuel) tgt.deps (mark n s)) (λ t. ok (emit n t))
            (visit_all-Reached (visit cfg fuel) ih tgt.deps (mark n s) (λ d m. dep r tgt e m)
              (mark-OnlyReached n s r only))
            (λ t h. h)

-- Nothing is visited before the run, and everything visited is emitted after it.
start-IsSound : (cfg : File) → IsSound cfg start
start-IsSound cfg = record { distinct = tt; marked = λ x h. h; closed = tt }

pub record Settled (cfg : File) (name : Text) (order : List Text) : Type 0 where
  pub target : Has order name
  pub distinct : AllDistinct order
  pub closed : All (DepsIn cfg order) order
  pub reached : (x : Text) → Has order x → Reaches cfg name x

-- A run from the empty state leaves no name visited that it does not emit.
start-emits :
    {cfg : File} {s : Visits} (x : Text) → Grows cfg start s → Has s.visited x → Has s.order x
start-emits {cfg} {s} x g h = elim (Bool-cases (contains s.order x)) [
  | inl m ↦ m
  | inr n ↦ let (old, _) = g.settles x h n in absurd (ground (arith, contains-nil x))
]

Settled-start :
    {cfg : File} {name : Text} {s : Visits}
    → Grows cfg start s
    → Has s.visited name
    → OnlyReached cfg name s
    → Settled cfg name s.order
Settled-start {cfg} {name} {s} g known only =
    let v : IsSound cfg s = g.sound (start-IsSound cfg) in
    record {
      target = start-emits name g known;
      distinct = v.distinct;
      closed =
          All-map (DepsIn cfg s.visited) (DepsIn cfg s.order) s.order
            (λ x h u f.
              All-map (Has s.visited) (Has s.order) u.deps (λ d m. start-emits d g m) (h u f))
            v.closed;
      reached = λ x m. only x (v.marked x m);
    }

start-Reached : (cfg : File) (fuel : ℕ) (name : Text) → Reached cfg name (visit cfg fuel name start)
start-Reached cfg fuel name =
    visit-Reached cfg name fuel name start here (λ x h. absurd (ground (arith, contains-nil x)))

-- When TopoOrder succeeds, the order holds the target, no name twice, only names that the target's
-- dependencies lead to, and with each target all of its dependencies.
pub topo_order-Settled :
    (cfg : File) (name : Text) (order : List Text)
    → topo_order cfg name ≡ ok order
    → Settled cfg name order
unfolding topo_order
topo_order-Settled cfg name order e =
    let fuel = suc (length cfg.targets) in
    let (s, run, out) = >>=-eq-ok (visit cfg fuel name start) (λ t. ok t.order) e in
    let (g, known) = visit-Grows cfg fuel name start s run in
    subst (Settled cfg name) (ok-injective out)
      (Settled-start g known (subst (Reached cfg name) run (start-Reached cfg fuel name)))

-- When TopoOrder reports an unknown dependency, the dependencies lead to that name, and no target
-- has it.
pub topo_order-unknown :
    (cfg : File) (name d : Text)
    → topo_order cfg name ≡ unknown_dependency d
    → Reaches cfg name d × (target_by_name cfg d ≡ none)
unfolding topo_order
topo_order-unknown cfg name d e =
    let fuel = suc (length cfg.targets) in
    subst (Reached cfg name) (>>=-eq-unknown (visit cfg fuel name start) e)
      (start-Reached cfg fuel name)
  where
    >>=-eq-unknown :
        (m : Outcome Visits)
        → (m >>= (λ s. ok s.order)) ≡ unknown_dependency d
        → m ≡ unknown_dependency d
    >>=-eq-unknown (ok s) h = cc
    >>=-eq-unknown (unknown_dependency x) h = cc
    >>=-eq-unknown out_of_fuel h = cc
