-- ===== src/Runner/Dag/Grows.antt =====
-- What every visit does to `visited` and `order`: they only grow, a name is emitted once, and
-- only names that the visit itself marked are emitted or left without being emitted.
use mathlib.Core.Path.{subst}
use go_bake.Base.{
  ℕ, ◌≡◌, false, Option, some, List, [], ◌∷◌, ◌++◌, Text, All, All-map, Has, AllDistinct,
  AllDistinct-snoc, contains, contains-append, contains-cons, contains-nil, ==_iff, ==_refl, arith,
  All-append,
}
use go_bake.Config.{File, Target, target_by_name}
use go_bake.Runner.Dag.{Visits, ok, visit, mark, emit}
use go_bake.Runner.Dag.Visit.{Rule, visit_rule}

pub same_target : {o : Option Target} {a b : Target} → o ≡ some a → o ≡ some b → a ≡ b
same_target p q = cc

module _ (cfg : File) where
  -- The dependencies of a target are among the names.
  abbrev pub DepsIn : List Text → Text → Type 0
  DepsIn names x = (tgt : Target) → target_by_name cfg x ≡ some tgt → All (Has names) tgt.deps

  pub record IsSound (s : Visits) : Type 0 where
    pub distinct : AllDistinct s.order
    pub marked : (x : Text) → Has s.order x → Has s.visited x
    pub closed : All (DepsIn s.visited) s.order

  pub record Grows (s t : Visits) : Type 0 where
    pub visited : (x : Text) → Has s.visited x → Has t.visited x
    pub order : (x : Text) → Has s.order x → Has t.order x
    pub fresh :
        (x : Text) → Has t.order x → contains s.order x ≡ false → contains s.visited x ≡ false
    pub settles :
        (x : Text)
        → Has t.visited x
        → contains t.order x ≡ false
        → Has s.visited x × (contains s.order x ≡ false)
    pub sound : IsSound s → IsSound t

  Grows-refl : (s : Visits) → Grows s s
  Grows-refl s = record {
    visited = λ x h. h;
    order = λ x h. h;
    fresh = λ x h n. cc;
    settles = λ x h n. (h, n);
    sound = λ h. h;
  }

  Grows-trans : {s t u : Visits} → Grows s t → Grows t u → Grows s u
  Grows-trans {s} {t} {u} a b = record {
    visited = λ x h. b.visited x (a.visited x h);
    order = λ x h. b.order x (a.order x h);
    fresh = λ x h n. ground (arith, a.fresh x, b.fresh x, a.visited x);
    settles = λ x h n. let (v, m) = b.settles x h n in a.settles x v m;
    sound = λ h. b.sound (a.sound h);
  }

  module _ (name : Text) (tgt : Target) (s t : Visits) (unseen : contains s.visited name ≡ false)
      (found : target_by_name cfg name ≡ some tgt) (deps : All (Has t.visited) tgt.deps)
      (g : Grows (mark name s) t) where
    emit-fresh :
        (x : Text)
        → Has (t.order ++ name ∷ []) x
        → contains s.order x ≡ false
        → contains s.visited x ≡ false
    emit-fresh x h n = ground (
      arith,
      contains-append t.order (name ∷ []) x,
      contains-cons name [] x,
      contains-cons name s.visited x,
      contains-nil x,
      ==_iff name x,
      g.fresh x,
    )

    emit-settles :
        (x : Text)
        → Has t.visited x
        → contains (t.order ++ name ∷ []) x ≡ false
        → Has s.visited x × (contains s.order x ≡ false)
    emit-settles x h n = ground (
      arith,
      contains-append t.order (name ∷ []) x,
      contains-cons name [] x,
      contains-cons name s.visited x,
      contains-nil x,
      ==_iff name x,
      g.settles x,
    )

    emit-new : IsSound s → contains t.order name ≡ false
    emit-new v =
        ground (arith, contains-cons name s.visited name, ==_refl name, g.fresh name, v.marked name)

    mark-IsSound : IsSound s → IsSound (mark name s)
    mark-IsSound v = record {
      distinct = v.distinct;
      marked = λ x h. ground (arith, contains-cons name s.visited x, v.marked x);
      closed =
          All-map (DepsIn s.visited) (DepsIn (name ∷ s.visited)) s.order
            (λ x h u f.
              All-map (Has s.visited) (Has (name ∷ s.visited)) u.deps
                (λ d m. ground (arith, contains-cons name s.visited d)) (h u f))
            v.closed;
    }

    emit-IsSound : IsSound s → IsSound (emit name t)
    emit-IsSound v =
        let w : IsSound t = g.sound (mark-IsSound v) in
        record {
          distinct = AllDistinct-snoc t.order name w.distinct (emit-new v);
          marked = λ x h. ground (
            arith,
            contains-append t.order (name ∷ []) x,
            contains-cons name [] x,
            contains-cons name s.visited x,
            contains-nil x,
            ==_iff name x,
            w.marked x,
            g.visited x,
          );
          closed =
              All-append (DepsIn t.visited) t.order (name ∷ []) w.closed
                (λ u f. found_deps u f, tt);
        }
      where
        found_deps : DepsIn t.visited name
        found_deps u f = subst (λ w. All (Has t.visited) w.deps) (same_target found f) deps

    emit-Grows : Grows s (emit name t)
    emit-Grows = record {
      visited = λ x h. ground (arith, contains-cons name s.visited x, g.visited x);
      order = λ x h. ground (arith, contains-append t.order (name ∷ []) x, g.order x);
      fresh = emit-fresh;
      settles = emit-settles;
      sound = emit-IsSound;
    }

  Grows-rule : Rule cfg Grows
  Grows-rule = record {
    same = Grows-refl;
    both = Grows-trans;
    grows = λ g. g.visited;
    step = emit-Grows;
  }

  pub visit-Grows :
      (fuel : ℕ) (name : Text) (s t : Visits)
      → visit cfg fuel name s ≡ ok t
      → Grows s t × Has t.visited name
  visit-Grows = visit_rule Grows-rule
