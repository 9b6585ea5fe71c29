-- ===== src/Runner/Dag/Visit.antt =====
-- The proof rule for `visit` of TopoOrder, and what every visit does to its state.
use mathlib.Core.Path.{subst}
use go_bake.Base.{
  zero, suc, ℕ, ◌≡◌, refl, false, Bool-cases, inl, inr, Option, none, some, List, [], ◌∷◌, Text,
  All, Has, contains, contains-cons, ==_refl, arith,
}
use go_bake.Config.{File, Target, target_by_name}
use go_bake.Runner.Dag.{
  Visits, Outcome, ok, unknown_dependency, out_of_fuel, ◌>>=◌, visit, visit_all, mark, emit,
}

pub >>=-eq-ok {ℓ κ} :
    {A : Type ℓ} {C : Type κ} (run : Outcome A) (next : A → Outcome C) {c : C}
    → (run >>= next) ≡ ok c
    → (r : A) × (run ≡ ok r) × (next r ≡ ok c)
>>=-eq-ok (ok r) next passed = (r, refl, passed)
>>=-eq-ok (unknown_dependency d) next passed = cc
>>=-eq-ok out_of_fuel next passed = cc

pub ok-injective {ℓ} : {A : Type ℓ} {a b : A} → ok a ≡ ok b → a ≡ b
ok-injective e = cc

module _ (cfg : File) (fuel : ℕ) (name : Text) (s : Visits) where
  -- A successful visit found its name visited, or visited the target's dependencies.
  pub data VisitCase (s' : Visits) : Type 0 where
    seen : Has s.visited name → s' ≡ s → VisitCase s'
    new :
        contains s.visited name ≡ false
        → (tgt : Target) → target_by_name cfg name ≡ some tgt
        → (s₁ : Visits) → visit_all (visit cfg fuel) tgt.deps (mark name s) ≡ ok s₁
        → s' ≡ emit name s₁
        → VisitCase s'

  abbrev descend : Option Target → Outcome Visits
  descend none = unknown_dependency name
  descend (some tgt) = do s' ← visit_all (visit cfg fuel) tgt.deps (mark name s); ok (emit name s')

  VisitCase-descend :
      {s' : Visits} (o : Option Target)
      → contains s.visited name ≡ false
      → target_by_name cfg name ≡ o
      → descend o ≡ ok s'
      → VisitCase s'
  VisitCase-descend none unseen found e = cc
  VisitCase-descend (some tgt) unseen found e =
      let (s₁, run, last) =
        >>=-eq-ok (visit_all (visit cfg fuel) tgt.deps (mark name s)) (λ t. ok (emit name t)) e in
      new unseen tgt found s₁ run (cc)

  pub visit_cases : {s' : Visits} → visit cfg (suc fuel) name s ≡ ok s' → VisitCase s'
  unfolding visit
  visit_cases {s'} e = elim (Bool-cases (contains s.visited name)) [
    | inl known ↦ seen known (ground arith)
    | inr unseen ↦ VisitCase-descend (target_by_name cfg name) unseen refl (ground arith)
  ]

-- What to show of a relation between the states before and after a visit.
pub record Rule (cfg : File) (R : Visits → Visits → Type 0) : Type 0 where
  pub same : (s : Visits) → R s s
  pub both : {s t u : Visits} → R s t → R t u → R s u
  pub grows : {s t : Visits} → R s t → (x : Text) → Has s.visited x → Has t.visited x
  pub step :
      (name : Text) (tgt : Target) (s t : Visits)
      → contains s.visited name ≡ false
      → target_by_name cfg name ≡ some tgt
      → All (Has t.visited) tgt.deps
      → R (mark name s) t
      → R s (emit name t)

module _ {cfg : File} {R : Visits → Visits → Type 0} (rule : Rule cfg R) where
  open rule use {same, both, grows, step}

  -- A visit is in the relation, and leaves its name visited.
  abbrev Runs : Text → Visits → Visits → Type 0
  Runs name s t = R s t × Has t.visited name

  visit_all_rule :
      (v : Text → Visits → Outcome Visits)
      → ((name : Text) (s t : Visits) → v name s ≡ ok t → Runs name s t)
      → (ds : List Text) (s t : Visits) → visit_all v ds s ≡ ok t
      → R s t × All (Has t.visited) ds
  unfolding visit_all
  visit_all_rule v h [] s t e = (subst (R s) (ok-injective e) (same s), tt)
  visit_all_rule v h (d ∷ ds) s t e =
      let (s₁, first, rest) = >>=-eq-ok (v d s) (visit_all v ds) e in
      let (r₁, known) = h d s s₁ first in
      let (r₂, all) = visit_all_rule v h ds s₁ t rest in (both r₁ r₂, (grows r₂ d known, all))

  pub visit_rule :
      (fuel : ℕ) (name : Text) (s t : Visits) → visit cfg fuel name s ≡ ok t → Runs name s t
  unfolding visit
  visit_rule zero name s t e = cc
  visit_rule (suc fuel) name s t e = elim (visit_cases cfg fuel name s e) [
    | seen known e' ↦ rw e' (same s, known)
    | new unseen tgt found s₁ run e' ↦
        let (r, deps) =
          visit_all_rule (visit cfg fuel) (visit_rule fuel) tgt.deps (mark name s) s₁ run in
        rw e' (
          step name tgt s s₁ unseen found deps r,
          grows r name (rw contains-cons (rw ==_refl refl)),
        )
  ]
