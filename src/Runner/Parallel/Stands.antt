-- ===== src/Runner/Parallel/Stands.antt =====
-- Where a run by levels stands, and that each step keeps it.
use mathlib.Core.Path.{subst}
use go_bake.Base.{
  ◌≢◌, nat_eq, ◌⊎◌, inl, inr, ℕ, zero, suc, ◌<◌, ◌≡◌, refl, sym, ap, ◌∙◌, true, false, Option, none,
  some, List, [], ◌∷◌, Text, Has, contains, contains-cons, contains-nil, ==_iff, ◌==◌, arith,
  Bool-cases,
}
use go_bake.Config.{File, target_by_name}
use go_bake.Runner.Steps.{RunError}
use go_bake.Runner.Levels.Place.{in_level}
use go_bake.Runner.Levels.Groups.{InLevel}
use go_bake.Runner.Parallel.{
  Group, Idle, pools, locks, gives_up_pool, enter_pool, lock, give_up_pool, enters, gives_up,
  cancels, cancel, returns, begins, Reached, at_start, after, Stopped, failed, done, leave,
  keep_first, spawn, enter, return, give_up, begin, start, is_some,
}

leave-Has : (n x : Text) (xs : List Text) → Has (leave n xs) x → Has xs x
unfolding leave
leave-Has n x [] h = h
leave-Has n x (y ∷ xs) h = elim (Bool-cases (y == n)) [
  | inl e ↦ ground (arith, contains-cons y xs x)
  | inr e ↦ ground (arith, contains-cons y xs x, contains-cons y (leave n xs) x, leave-Has n x xs)
]

leave-other : (n x : Text) (xs : List Text) → Has xs x → (n == x) ≡ false → Has (leave n xs) x
unfolding leave
leave-other n x [] h o = h
leave-other n x (y ∷ xs) h o = elim (Bool-cases (y == n)) [
  | inl e ↦ ground (arith, contains-cons y xs x, ==_iff y n)
  | inr e ↦ ground (arith, contains-cons y xs x, contains-cons y (leave n xs) x, leave-other n x xs)
]

spawn-Has : (cfg : File) (x : Text) (names : List Text) → Has (spawn cfg names) x → Has names x
unfolding spawn
spawn-Has cfg x [] h = h
spawn-Has cfg x (n ∷ names) h = elim (Bool-cases (is_some (target_by_name cfg n))) [
  | inl e ↦
      ground
        (arith, contains-cons n names x, contains-cons n (spawn cfg names) x, spawn-Has cfg x names)
  | inr e ↦ ground (arith, contains-cons n names x, spawn-Has cfg x names)
]

spawn-known :
    (cfg : File) (x : Text) (names : List Text)
    → is_some (target_by_name cfg x) ≡ true
    → Has names x
    → Has (spawn cfg names) x
unfolding spawn
spawn-known cfg x [] k h = h
spawn-known cfg x (n ∷ names) k h = elim (Bool-cases (is_some (target_by_name cfg n))) [
  | inl e ↦
      ground (
        arith,
        contains-cons n names x,
        contains-cons n (spawn cfg names) x,
        spawn-known cfg x names,
      )
  | inr e ↦ ground (arith, contains-cons n names x, spawn-known cfg x names, ==_iff n x)
]

abbrev pub levels_from : ℕ → List (List Text) → List (List Text)
levels_from zero levels = levels
levels_from (suc i) [] = []
levels_from (suc i) (l ∷ levels) = levels_from i levels

levels_from-cons :
    (i : ℕ) (levels more : List (List Text)) (l : List Text)
    → levels_from i levels ≡ l ∷ more
    → (levels_from (suc i) levels ≡ more) × ((x : Text) → in_level levels i x ≡ contains l x)
unfolding in_level
levels_from-cons zero [] more l e = cc
levels_from-cons zero (l' ∷ levels) more l e = (cc, λ x. ap (λ ls. in_level ls zero x) e)
levels_from-cons (suc i) [] more l e = cc
levels_from-cons (suc i) (l' ∷ levels) more l e = levels_from-cons i levels more l e

levels_from-nil :
    (i j : ℕ) (levels : List (List Text)) (x : Text)
    → levels_from i levels ≡ []
    → InLevel levels j x
    → j < i
unfolding in_level
levels_from-nil i j [] x e h = cc
levels_from-nil zero j (l ∷ levels) x e h = cc
levels_from-nil (suc i) zero (l ∷ levels) x e h = omega arith
levels_from-nil (suc i) (suc j) (l ∷ levels) x e h = omega (arith, levels_from-nil i j levels x e h)

-- Some goroutine of the level has the target, or it has ended without an error.
abbrev pub Present : Group → Text → Type 0
Present s x =
    Has s.waiting x ⊎ (Has s.entered x ⊎ (Has s.pooled x ⊎ (Has s.running x ⊎ Has s.finished x)))

-- What moves from one list to another is in one of them.
moved : (n x : Text) (xs ys : List Text) → Has xs x → Has (leave n xs) x ⊎ Has (n ∷ ys) x
moved n x xs ys m = elim (Bool-cases (n == x)) [
  | inl here ↦ inr (ground (arith, contains-cons n ys x))
  | inr other ↦ inl (leave-other n x xs m other)
]

behind_it : (n x : Text) (ys : List Text) → Has ys x → Has (n ∷ ys) x
behind_it n x ys m = ground (arith, contains-cons n ys x)

none_of : (x : Text) (xs : List Text) → xs ≡ [] → ¬ Has xs x
none_of x xs e m = absurd (ground (arith, contains-nil x, subst (λ ys. Has ys x) e m))

-- Where a run by levels stands: behind `begun` levels, the last of which is running.
pub record Stands (levels : List (List Text)) (s : Group) : Type 0 where
  pub begun : ℕ
  pub left : levels_from begun levels ≡ s.levels
  pub earlier : (j : ℕ) (x : Text) → suc j < begun → InLevel levels j x → Has s.finished x
  pub current : (x : Text) → Has s.waiting x → (j : ℕ) × (suc j ≡ begun) × InLevel levels j x
  pub present :
      s.first_error ≡ none → (j : ℕ) (x : Text) → suc j ≡ begun → InLevel levels j x → Present s x

module _ (cfg : File) (max_parallel : ℕ) (levels : List (List Text))
    (known : (j : ℕ) (x : Text) → InLevel levels j x → is_some (target_by_name cfg x) ≡ true) where
  start-Stands : Stands levels (start levels)
  start-Stands = record {
    begun = zero;
    left = refl;
    earlier = λ j x lt. absurd (omega (arith, lt));
    current = λ x h. absurd (ground (arith, contains-nil x));
    present = λ e j x same. absurd (omega (arith, same));
  }

  -- A level is over: all of it has ended without an error.
  level_over :
      (s : Group) (v : Stands levels s)
      → s.waiting ≡ []
      → Idle s
      → s.first_error ≡ none
      → (j : ℕ) (x : Text) → j < v.begun
      → InLevel levels j x
      → Has s.finished x
  level_over s v w (en, po, ru) f j x lt h = elim (Bool-cases (nat_eq (suc j) v.begun)) [
    | inl last ↦ elim (v.present f j x (ground (arith, last)) h) [
      | inl m ↦ absurd (none_of x s.waiting w m)
      | inr (inl m) ↦ absurd (none_of x s.entered en m)
      | inr (inr (inl m)) ↦ absurd (none_of x s.pooled po m)
      | inr (inr (inr (inl m))) ↦ absurd (none_of x s.running ru m)
      | inr (inr (inr (inr m))) ↦ m
    ]
    | inr before ↦ v.earlier j x (ground (arith, before, lt)) h
  ]

  enter-Stands : (s : Group) (n : Text) → Stands levels s → Stands levels (enter n s)
  enter-Stands s n v = record {
    begun = v.begun;
    left = v.left;
    earlier = v.earlier;
    current = λ x h. v.current x (leave-Has n x s.waiting h);
    present = λ e j x same h. elim (v.present e j x same h) [
      | inl m ↦ elim (moved n x s.waiting s.entered m) [ inl a ↦ inl a | inr b ↦ inr (inl b) ]
      | inr (inl m) ↦ inr (inl (behind_it n x s.entered m))
      | inr (inr m) ↦ inr (inr m)
    ];
  }

  enter_pool-Stands : (s : Group) (n : Text) → Stands levels s → Stands levels (enter_pool n s)
  enter_pool-Stands s n v = record {
    begun = v.begun;
    left = v.left;
    earlier = v.earlier;
    current = v.current;
    present = λ e j x same h. elim (v.present e j x same h) [
      | inl m ↦ inl m
      | inr (inl m) ↦ elim (moved n x s.entered s.pooled m) [
        | inl a ↦ inr (inl a)
        | inr b ↦ inr (inr (inl b))
      ]
      | inr (inr (inl m)) ↦ inr (inr (inl (behind_it n x s.pooled m)))
      | inr (inr (inr m)) ↦ inr (inr (inr m))
    ];
  }

  lock-Stands : (s : Group) (n : Text) → Stands levels s → Stands levels (lock n s)
  lock-Stands s n v = record {
    begun = v.begun;
    left = v.left;
    earlier = v.earlier;
    current = v.current;
    present = λ e j x same h. elim (v.present e j x same h) [
      | inl m ↦ inl m
      | inr (inl m) ↦ inr (inl m)
      | inr (inr (inl m)) ↦ elim (moved n x s.pooled s.running m) [
        | inl a ↦ inr (inr (inl a))
        | inr b ↦ inr (inr (inr (inl b)))
      ]
      | inr (inr (inr (inl m))) ↦ inr (inr (inr (inl (behind_it n x s.running m))))
      | inr (inr (inr (inr m))) ↦ inr (inr (inr (inr m)))
    ];
  }

  -- An error is there, so that nothing is left to show of the last level.
  keep_first-some : (e : Option RunError) (new : RunError) → keep_first e new ≢ none
  keep_first-some none new h = cc
  keep_first-some (some e) new h = cc

  give_up-Stands :
      (s : Group) (n : Text) (e : RunError) → Stands levels s → Stands levels (give_up n e s)
  give_up-Stands s n e v = record {
    begun = v.begun;
    left = v.left;
    earlier = v.earlier;
    current = λ x h. v.current x (leave-Has n x s.waiting h);
    present = λ none_failed. absurd (keep_first-some s.first_error e none_failed);
  }

  give_up_pool-Stands :
      (s : Group) (n : Text) (e : RunError) → Stands levels s → Stands levels (give_up_pool n e s)
  give_up_pool-Stands s n e v = record {
    begun = v.begun;
    left = v.left;
    earlier = v.earlier;
    current = v.current;
    present = λ none_failed. absurd (keep_first-some s.first_error e none_failed);
  }

  cancel-Stands : (s : Group) → Stands levels s → Stands levels (cancel s)
  cancel-Stands s v = record {
    begun = v.begun;
    left = v.left;
    earlier = v.earlier;
    current = v.current;
    present = v.present;
  }

  return-Stands :
      (s : Group) (n : Text) (result : Option RunError)
      → Stands levels s
      → Stands levels (return n result s)
  return-Stands s n none v = record {
    begun = v.begun;
    left = v.left;
    earlier =
        λ j x lt h. let m = v.earlier j x lt h in ground (arith, contains-cons n s.finished x, m);
    current = v.current;
    present = λ e j x same h. elim (v.present e j x same h) [
      | inl m ↦ inl m
      | inr (inl m) ↦ inr (inl m)
      | inr (inr (inl m)) ↦ inr (inr (inl m))
      | inr (inr (inr (inl m))) ↦ elim (moved n x s.running s.finished m) [
        | inl a ↦ inr (inr (inr (inl a)))
        | inr b ↦ inr (inr (inr (inr b)))
      ]
      | inr (inr (inr (inr m))) ↦ inr (inr (inr (inr (behind_it n x s.finished m))))
    ];
  }
  return-Stands s n (some e) v = record {
    begun = v.begun;
    left = v.left;
    earlier = v.earlier;
    current = v.current;
    present = λ none_failed. absurd (keep_first-some s.first_error e none_failed);
  }

  begin-Stands :
      (s : Group) (level : List Text) (more : List (List Text))
      → s.waiting ≡ []
      → Idle s
      → s.first_error ≡ none
      → s.levels ≡ level ∷ more
      → Stands levels s
      → Stands levels (begin cfg level more s)
  begin-Stands s level more w r f l v =
      let (left, names) = levels_from-cons v.begun levels more level (v.left ∙ l) in
      record {
        begun = suc v.begun;
        left = left;
        earlier = λ j x lt h. level_over s v w r f j x (omega (arith, lt)) h;
        current = λ x h. (v.begun, refl, names x ∙ spawn-Has cfg x level h);
        present = λ e j x same h.
            let here : InLevel levels v.begun x =
              subst (λ k. InLevel levels k x) (omega (arith, same)) h in
            inl (spawn-known cfg x level (known j x h) (sym (names x) ∙ here));
      }

  pub Reached-Stands : {s : Group} → Reached cfg max_parallel levels s → Stands levels s
  Reached-Stands at_start = start-Stands
  Reached-Stands (after {s} r (enters n h lt)) = enter-Stands s n (Reached-Stands r)
  Reached-Stands (after {s} r (gives_up n e h c)) = give_up-Stands s n e (Reached-Stands r)
  Reached-Stands (after {s} r (pools n h c)) = enter_pool-Stands s n (Reached-Stands r)
  Reached-Stands (after {s} r (locks n h c)) = lock-Stands s n (Reached-Stands r)
  Reached-Stands (after {s} r (gives_up_pool n e h p c)) =
      give_up_pool-Stands s n e (Reached-Stands r)
  Reached-Stands (after {s} r (cancels c)) = cancel-Stands s (Reached-Stands r)
  Reached-Stands (after {s} r (returns n result h)) = return-Stands s n result (Reached-Stands r)
  Reached-Stands (after {s} r (begins level more w q f l)) =
      begin-Stands s level more w q f l (Reached-Stands r)

  pub Stopped-finished :
      (s : Group)
      → Stands levels s
      → Stopped s
      → s.first_error ≡ none
      → (j : ℕ) (x : Text) → InLevel levels j x
      → Has s.finished x
  Stopped-finished s v (failed e w r f) well j x h = cc
  Stopped-finished s v (done w r f l) well j x h =
      level_over s v w r f j x (levels_from-nil v.begun j levels x (v.left ∙ l) h) h
