-- ===== src/Resolve/Args/Blobs.antt =====
-- Passthrough arguments: the parts between the "--" reach the slots in order.
use go_bake.Base.{
  ◌≡◌, ◌≢◌, refl, ap, ◌∙◌, ℕ, zero, suc, ◌≤◌, false, none, some, List, [], ◌∷◌, ◌++◌, Text, All,
  contains, length, length-append, nat_eq, ◌==◌, arith,
}
use go_bake.Resolve.Args.{
  dashes, cut, split_blobs, StepMap, step_args, fill_slots, passthrough_by_step,
}

-- No argument of the list is "--".
abbrev pub Plain : List Text → Type 0
Plain args = contains args dashes ≡ false

not_first : (a : Text) (args : List Text) → Plain (a ∷ args) → (a == dashes) ≡ false
unfolding contains
not_first a args h = ground arith

pub cut-append :
    (before rest : List Text) → Plain before → cut (before ++ dashes ∷ rest) ≡ (before, some rest)
unfolding cut contains
cut-append [] rest h = refl
cut-append (a ∷ before) rest h =
    rw (not_first a before h) (ap (λ p. (a ∷ p.0, p.1)) (cut-append before rest (ground arith)))

cut-Plain : (args : List Text) → Plain args → cut args ≡ (args, none)
unfolding cut contains
cut-Plain [] h = refl
cut-Plain (a ∷ args) h =
    rw (not_first a args h) (ap (λ p. (a ∷ p.0, p.1)) (cut-Plain args (ground arith)))

abbrev pub join_blobs : List (List Text) → List Text
join_blobs [] = []
join_blobs (b ∷ []) = b
join_blobs (b ∷ c ∷ blobs) = b ++ dashes ∷ join_blobs (c ∷ blobs)

-- No blob holds a "--", and the last one is not empty.
abbrev pub AreBlobs : List (List Text) → Type 0
AreBlobs [] = Unit
AreBlobs (b ∷ []) = Plain b × (b ≢ [])
AreBlobs (b ∷ c ∷ blobs) = Plain b × AreBlobs (c ∷ blobs)

split_blobs-cons :
    (fuel : ℕ) (a : Text) (args blob rest : List Text)
    → cut (a ∷ args) ≡ (blob, some rest)
    → split_blobs (suc fuel) (a ∷ args) ≡ blob ∷ split_blobs fuel rest
unfolding split_blobs
split_blobs-cons fuel a args blob rest e =
    ap (λ p. elim p.1 [ none ↦ p.0 ∷ [] | some more ↦ p.0 ∷ split_blobs fuel more ]) e

split_blobs-last :
    (fuel : ℕ) (args : List Text) → args ≢ [] → Plain args → split_blobs (suc fuel) args ≡ args ∷ []
unfolding split_blobs
split_blobs-last fuel [] h p = absurd (h refl)
split_blobs-last fuel (a ∷ args) h p =
    ap (λ p. elim p.1 [ none ↦ p.0 ∷ [] | some more ↦ p.0 ∷ split_blobs fuel more ])
      (cut-Plain (a ∷ args) p)

split_blobs-more :
    (fuel : ℕ) (blob rest : List Text)
    → Plain blob
    → split_blobs (suc fuel) (blob ++ dashes ∷ rest) ≡ blob ∷ split_blobs fuel rest
split_blobs-more fuel [] rest p = split_blobs-cons fuel dashes rest [] rest (cut-append [] rest p)
split_blobs-more fuel (a ∷ blob) rest p =
    split_blobs-cons fuel a (blob ++ dashes ∷ rest) (a ∷ blob) rest (cut-append (a ∷ blob) rest p)

-- Splitting gives back the blobs that were joined, with fuel for their arguments.
pub split_blobs-join_blobs :
    (fuel : ℕ) (blobs : List (List Text))
    → AreBlobs blobs
    → length (join_blobs blobs) ≤ fuel
    → split_blobs fuel (join_blobs blobs) ≡ blobs
unfolding split_blobs
split_blobs-join_blobs zero [] h enough = refl
split_blobs-join_blobs (suc fuel) [] h enough = refl
split_blobs-join_blobs zero ([] ∷ []) h enough = absurd (h.1 refl)
split_blobs-join_blobs zero ((a ∷ b) ∷ []) h enough = absurd (omega (arith, enough))
split_blobs-join_blobs (suc fuel) (b ∷ []) h enough = split_blobs-last fuel b h.1 h.0
split_blobs-join_blobs zero (b ∷ c ∷ blobs) h enough =
    absurd (omega (arith, enough, length-append b (dashes ∷ join_blobs (c ∷ blobs))))
split_blobs-join_blobs (suc fuel) (b ∷ c ∷ blobs) h enough =
    split_blobs-more fuel b (join_blobs (c ∷ blobs)) h.0
    ∙ ap (λ bs. b ∷ bs)
        (split_blobs-join_blobs fuel (c ∷ blobs) h.1
          (omega (arith, enough, length-append b (dashes ∷ join_blobs (c ∷ blobs)))))

-- No step twice.
abbrev pub Once : List ℕ → Type 0
Once [] = Unit
Once (s ∷ slots) = All (λ t. nat_eq t s ≡ false) slots × Once slots

-- Each slot that has a blob is given that blob.
abbrev pub Filled : StepMap → List ℕ → List (List Text) → Type 0
Filled m [] blobs = Unit
Filled m (s ∷ slots) [] = Unit
Filled m (s ∷ slots) (blob ∷ blobs) = (step_args m s ≡ blob) × Filled m slots blobs

step_args-fill_slots :
    (slots : List ℕ) (blobs : List (List Text)) (m : StepMap) (s : ℕ)
    → All (λ t. nat_eq t s ≡ false) slots
    → step_args (fill_slots slots blobs m) s ≡ step_args m s
unfolding fill_slots step_args
step_args-fill_slots [] blobs m s h = refl
step_args-fill_slots (t ∷ slots) [] m s h = refl
step_args-fill_slots (t ∷ slots) (blob ∷ blobs) m s h =
    ground (arith, step_args-fill_slots slots blobs ((t, blob) ∷ m) s h.1, h.0)

fill_slots-Filled :
    (slots : List ℕ) (blobs : List (List Text)) (m : StepMap)
    → Once slots
    → Filled (fill_slots slots blobs m) slots blobs
unfolding fill_slots step_args
fill_slots-Filled [] blobs m h = tt
fill_slots-Filled (s ∷ slots) [] m h = tt
fill_slots-Filled (s ∷ slots) (blob ∷ blobs) m h = (
  ground (arith, step_args-fill_slots slots blobs ((s, blob) ∷ m) s h.0),
  fill_slots-Filled slots blobs ((s, blob) ∷ m) h.1,
)

-- With two slots or more, none of them for the same step, the arguments behind the "--" that are
-- the blobs joined by "--" give each slot its blob, if no blob holds a "--" and the last one is not
-- empty.
pub passthrough_by_step-Filled :
    (s t : ℕ) (slots : List ℕ) (blobs : List (List Text))
    → Once (s ∷ t ∷ slots)
    → AreBlobs blobs
    → Filled (passthrough_by_step (s ∷ t ∷ slots) (some (join_blobs blobs))) (s ∷ t ∷ slots) blobs
unfolding passthrough_by_step
passthrough_by_step-Filled s t slots blobs once h =
    rw (split_blobs-join_blobs (length (join_blobs blobs)) blobs h (omega arith))
      (fill_slots-Filled (s ∷ t ∷ slots) blobs [] once)
