-- ===== src/Runner/Dag/Total.antt =====
-- The fuel of `topo_order` is enough: each visit that goes deeper marks one more target.
use native.Mathlib.Nat.{le_refl}
use go_bake.Base.{
  ℕ, zero, suc, ◌≤◌, ◌<◌, ◌≡◌, ◌≢◌, refl, false, Bool-cases, inl, inr, Option, none, some, List, [],
  ◌∷◌, Text, contains, contains-cons, length, ==_iff, arith, if◌then◌else◌,
}
use go_bake.Config.{File, Target, find_target, target_by_name}
use go_bake.Runner.Dag.{
  Visits, Outcome, ok, unknown_dependency, out_of_fuel, ◌>>=◌, visit, visit_all, mark, emit, start,
  topo_order,
}

-- The number of targets whose name is not visited.
unvisited : List Target → List Text → ℕ
unvisited [] v = 0
unvisited (t ∷ ts) v = if contains v t.name then unvisited ts v else suc (unvisited ts v)

unvisited-le : (ts : List Target) (v : List Text) → unvisited ts v ≤ length ts
unfolding unvisited
unvisited-le [] v = omega arith
unvisited-le (t ∷ ts) v = ground (arith, unvisited-le ts v)

unvisited-mark :
    (ts : List Target) (v : List Text) (n : Text) → unvisited ts (n ∷ v) ≤ unvisited ts v
unfolding unvisited
unvisited-mark [] v n = omega arith
unvisited-mark (t ∷ ts) v n = ground (arith, contains-cons n v t.name, unvisited-mark ts v n)

-- Marking the name of a target that was not visited leaves fewer.
unvisited-lt :
    (ts : List Target) (v : List Text) (n : Text) (tgt : Target)
    → find_target ts n ≡ some tgt
    → contains v n ≡ false
    → unvisited ts (n ∷ v) < unvisited ts v
unfolding unvisited find_target
unvisited-lt [] v n tgt f u = absurd (ground arith)
unvisited-lt (t ∷ ts) v n tgt f u = ground (
  arith,
  contains-cons n v t.name,
  ==_iff t.name n,
  ==_iff n t.name,
  unvisited-mark ts v n,
  unvisited-lt ts v n tgt,
)

module _ (cfg : File) where
  abbrev left : Visits → ℕ
  left s = unvisited cfg.targets s.visited

  -- A visit ends, with no more targets left than before.
  abbrev Ends : ℕ → Outcome Visits → Type 0
  Ends n (ok t) = left t ≤ n
  Ends n (unknown_dependency d) = Unit
  Ends n out_of_fuel = ⊥

  Ends-bind :
      {n : ℕ} (m : Outcome Visits) (f : Visits → Outcome Visits)
      → Ends n m
      → ((t : Visits) → left t ≤ n → Ends n (f t))
      → Ends n (m >>= f)
  Ends-bind (ok t) f h k = k t h
  Ends-bind (unknown_dependency d) f h k = h
  Ends-bind out_of_fuel f h k = h

  Ends-le : (n k : ℕ) (m : Outcome Visits) → n ≤ k → Ends n m → Ends k m
  Ends-le n k (ok t) h e = omega arith
  Ends-le n k (unknown_dependency d) h e = e
  Ends-le n k out_of_fuel h e = e

  visit_all-Ends :
      (fuel n : ℕ) (v : Text → Visits → Outcome Visits)
      → ((d : Text) (s : Visits) → left s < fuel → Ends (left s) (v d s))
      → n < fuel
      → (ds : List Text) (s : Visits) → left s ≤ n
      → Ends n (visit_all v ds s)
  unfolding visit_all
  visit_all-Ends fuel n v h lt [] s le = le
  visit_all-Ends fuel n v h lt (d ∷ ds) s le =
      Ends-bind (v d s) (visit_all v ds) (Ends-le (left s) n (v d s) le (h d s (omega arith)))
        (visit_all-Ends fuel n v h lt ds)

  visit-Ends :
      (fuel : ℕ) (n : Text) (s : Visits) → left s < fuel → Ends (left s) (visit cfg fuel n s)
  unfolding visit target_by_name
  visit-Ends zero n s lt = absurd (omega arith)
  visit-Ends (suc fuel) n s lt = elim (Bool-cases (contains s.visited n)) [
    | inl known ↦ rw known (le_refl _)
    | inr unseen ↦ rw unseen (found (find_target cfg.targets n) refl unseen (visit-Ends fuel))
  ]
    where
      found :
          (o : Option Target)
          → find_target cfg.targets n ≡ o
          → contains s.visited n ≡ false
          → ((d : Text) (t : Visits) → left t < fuel → Ends (left t) (visit cfg fuel d t))
          → Ends (left s) (elim o [
            | none ↦ unknown_dependency n
            | some tgt ↦ do t ← visit_all (visit cfg fuel) tgt.deps (mark n s); ok (emit n t)
          ])
      found none e u ih = tt
      found (some tgt) e u ih =
          let fewer = unvisited-lt cfg.targets s.visited n tgt e u in
          Ends-le (left (mark n s)) (left s)
            (visit_all (visit cfg fuel) tgt.deps (mark n s) >>= λ t. ok (emit n t))
            (omega (arith, fewer))
            (Ends-bind (visit_all (visit cfg fuel) tgt.deps (mark n s)) (λ t. ok (emit n t))
              (visit_all-Ends fuel (left (mark n s)) (visit cfg fuel) ih (omega (arith, fewer))
                tgt.deps (mark n s) (le_refl _))
              (λ t h. h))

-- TopoOrder ends, with an order or with an unknown dependency: its fuel never runs out.
pub topo_order-total : (cfg : File) (name : Text) → topo_order cfg name ≢ out_of_fuel
unfolding topo_order
topo_order-total cfg name e = go (visit cfg (suc (length cfg.targets)) name start) enough e
  where
    enough : Ends cfg (left cfg start) (visit cfg (suc (length cfg.targets)) name start)
    enough =
        visit-Ends cfg (suc (length cfg.targets)) name start
          (omega (arith, unvisited-le cfg.targets []))

    go : (m : Outcome Visits) → Ends cfg (left cfg start) m → (m >>= λ s. ok s.order) ≢ out_of_fuel
    go (ok s) h e' = cc
    go (unknown_dependency d) h e' = cc
    go out_of_fuel h e' = h
