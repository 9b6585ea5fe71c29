-- ===== src/Runner/Dag/Order.antt =====
-- Without a cycle, TopoOrder puts every dependency before the targets that need it.
use mathlib.Core.Path.{subst}
use go_bake.Base.{
  sym, ℕ, zero, suc, ◌<◌, ◌≡◌, refl, false, Bool-cases, inl, inr, some, List, [], ◌∷◌, ◌++◌, Text,
  All, All-map, Has, contains, contains-cons, contains-nil, contains-append, length, ==_iff,
  ==_refl, ◌==◌, arith,
}
use go_bake.Config.{File, Target, target_by_name}
use go_bake.Runner.Dag.{Visits, Outcome, ok, out_of_fuel, visit, visit_all, mark, start, topo_order}
use go_bake.Runner.Dag.Visit.{>>=-eq-ok, ok-injective, visit_cases, seen, new}
use go_bake.Runner.Dag.Grows.{DepsIn, Grows, same_target, visit-Grows}

-- `rank` puts each dependency below its target, so the dependencies have no cycle.
abbrev pub IsRanked : File → (Text → ℕ) → Type 0
IsRanked cfg rank =
    (name : Text) (tgt : Target)
    → target_by_name cfg name ≡ some tgt
    → All (λ d. rank d < rank name) tgt.deps

-- Every name stands behind its dependencies; `before` are the names that stand before the list.
abbrev pub DepsFirst : File → List Text → List Text → Type 0
DepsFirst cfg before [] = Unit
DepsFirst cfg before (n ∷ ns) = DepsIn cfg before n × DepsFirst cfg (n ∷ before) ns

DepsFirst-snoc :
    (cfg : File) (before ns : List Text) (name : Text)
    → DepsFirst cfg before ns
    → ((more : List Text)
        → ((x : Text) → Has before x → Has more x)
        → ((x : Text) → Has ns x → Has more x)
        → DepsIn cfg more name)
    → DepsFirst cfg before (ns ++ name ∷ [])
DepsFirst-snoc cfg before [] name h last =
    (last before (λ x m. m) (λ x m. absurd (ground (arith, contains-nil x))), tt)
DepsFirst-snoc cfg before (n ∷ ns) name h last = (
  h.0,
  DepsFirst-snoc cfg (n ∷ before) ns name h.1 (λ more old rest.
      last more (λ x m. old x (ground (arith, contains-cons n before x)))
        (λ x m. elim (Bool-cases (n == x)) [
          | inl e ↦ old x (ground (arith, contains-cons n before x))
          | inr e ↦ rest x (ground (arith, contains-cons n ns x))
        ])),
)

visit-zero : (cfg : File) (name : Text) (s : Visits) → visit cfg zero name s ≡ out_of_fuel
unfolding visit
visit-zero cfg name s = refl

emitted_last : (xs : List Text) (x : Text) → Has (xs ++ x ∷ []) x
emitted_last xs x = ground (arith, contains-append xs (x ∷ []) x, contains-cons x [] x, ==_refl x)

module _ (cfg : File) (rank : Text → ℕ) (ranked : IsRanked cfg rank) where
  -- The names that are being visited rank above `n`.
  abbrev Above : ℕ → Visits → Type 0
  Above n s = (x : Text) → Has s.visited x → contains s.order x ≡ false → n < rank x

  Above-Grows : {n : ℕ} {s t : Visits} → Grows cfg s t → Above n s → Above n t
  Above-Grows g a x v m = let (old, out) = g.settles x v m in a x old out

  -- What a visit of a name establishes.
  record Orders (name : Text) (s t : Visits) : Type 0 where
    grows : Grows cfg s t
    emitted : Has t.order name
    sorted : DepsFirst cfg [] s.order → DepsFirst cfg [] t.order

  visit_all-Orders :
      (v : Text → Visits → Outcome Visits)
      → ((d : Text) (s t : Visits) → v d s ≡ ok t → Above (rank d) s → Orders d s t)
      → (ds : List Text) (s t : Visits) → visit_all v ds s ≡ ok t
      → All (λ d. Above (rank d) s) ds
      → All (Has t.order) ds
        × ((x : Text) → Has s.order x → Has t.order x)
        × (DepsFirst cfg [] s.order → DepsFirst cfg [] t.order)
  unfolding visit_all
  visit_all-Orders v h [] s t e a =
      let same = ok-injective e in
      (tt, λ x m. subst (λ u. Has u.order x) same m, subst (λ u. DepsFirst cfg [] u.order) same)
  visit_all-Orders v h (d ∷ ds) s t e a =
      let (s₁, first, rest) = >>=-eq-ok (v d s) (visit_all v ds) e in
      let o : Orders d s s₁ = h d s s₁ first a.0 in
      let (all, more, sorted) = visit_all-Orders v h ds s₁ t rest (
        All-map (λ c. Above (rank c) s) (λ c. Above (rank c) s₁) ds (λ c. Above-Grows o.grows)
          a.1) in
      ((more d o.emitted, all), λ x m. more x (o.grows.order x m), λ p. sorted (o.sorted p))

  Above-mark :
      (name d : Text) (s : Visits)
      → rank d < rank name
      → Above (rank name) s
      → Above (rank d) (mark name s)
  Above-mark name d s lt a x v m =
      ground (arith, contains-cons name s.visited x, ==_iff name x, a x)

  visit-Orders :
      (fuel : ℕ) (name : Text) (s t : Visits)
      → visit cfg fuel name s ≡ ok t
      → Above (rank name) s
      → Orders name s t
  visit-Orders zero name s t e a = cc (visit-zero cfg name s)
  visit-Orders (suc fuel) name s t e a =
      let (g, known) = visit-Grows cfg (suc fuel) name s t e in
      elim (visit_cases cfg fuel name s e) [
        | seen old same ↦ record {
          grows = g;
          emitted = elim (Bool-cases (contains t.order name)) [
            | inl m ↦ m
            | inr n ↦
                absurd
                  (omega (arith, a name old (subst (λ u. contains u.order name ≡ false) same n)))
          ];
          sorted =
              subst (λ u. DepsFirst cfg [] s.order → DepsFirst cfg [] u.order) (sym same) (λ p. p);
        }
        | new unseen tgt found s₁ run last ↦
            let (all, more, sorted) =
              visit_all-Orders (visit cfg fuel) (visit-Orders fuel) tgt.deps (mark name s) s₁ run (
                All-map (λ d. rank d < rank name) (λ d. Above (rank d) (mark name s)) tgt.deps
                  (λ d lt. Above-mark name d s lt a) (ranked name tgt found)) in
            record {
              grows = g;
              emitted = rw last (emitted_last s₁.order name);
              sorted = λ p. rw last (
                  DepsFirst-snoc cfg [] s₁.order name (sorted p) (λ wide _ rest u f.
                    All-map (Has s₁.order) (Has wide) u.deps rest
                      (subst (λ w. All (Has s₁.order) w.deps) (same_target found f) all)));
            }
      ]

-- Where the dependencies have no cycle, TopoOrder's result puts each target behind all of its
-- dependencies.
pub topo_order-DepsFirst :
    (cfg : File) (rank : Text → ℕ) (name : Text) (order : List Text)
    → IsRanked cfg rank
    → topo_order cfg name ≡ ok order
    → DepsFirst cfg [] order
unfolding topo_order
topo_order-DepsFirst cfg rank name order ranked e =
    let fuel = suc (length cfg.targets) in
    let (s, run, out) = >>=-eq-ok (visit cfg fuel name start) (λ t. ok t.order) e in
    let o : Orders cfg rank ranked name start s =
      visit-Orders cfg rank ranked fuel name start s run
        (λ x h. absurd (ground (arith, contains-nil x))) in
    subst (DepsFirst cfg []) (ok-injective out) (o.sorted tt)
