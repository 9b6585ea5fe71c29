-- ===== src/Config/Validate/Distinct.antt =====
-- The loops of Validate that look for a second occurrence report nothing exactly when there is
-- none.
use go_bake.Base.{
  ℕ, ◌≡◌, ◌↔◌, refl, false, Bool-cases, inl, inr, Option, none, some, List, [], ◌∷◌, Text, TextMap,
  All, AllDistinct, contains, lookup, insert, lookup-insert, map, ==_iff, arith, if◌then◌else◌, ltb,
  length,
}
use go_bake.Config.{Preset, Target, File, PassthroughSlot}
use go_bake.Config.Validate.{
  ValidationError, check_names, check_presets, check_slots, check_passthrough, has_step,
}

abbrev IsNew : TextMap ℕ → Text → Type 0
IsNew seen x = lookup x seen ≡ none

-- A name is new after a write exactly when it was new and is not the name written.
All-IsNew-insert :
    (x : Text) (n : ℕ) (seen : TextMap ℕ) (ys : List Text)
    → All (IsNew (insert x n seen)) ys ↔ (All (IsNew seen) ys × (contains ys x ≡ false))
unfolding contains
All-IsNew-insert x n seen [] = (λ h. (tt, refl), λ h. tt)
All-IsNew-insert x n seen (y ∷ ys) =
    let (to, from) = All-IsNew-insert x n seen ys in
    (
      λ h.
          let (news, absent) = to h.1 in
          (
            (ground (arith, lookup-insert x y n seen), news),
            ground (arith, lookup-insert x y n seen, ==_iff x y, ==_iff y x),
          ),
      λ h. (
        ground (arith, lookup-insert x y n seen, ==_iff x y, ==_iff y x),
        from (h.0.1, ground (arith)),
      ),
    )

module _ {ℓ} {A : Type ℓ} (name : A → Text) (line : A → ℕ) (err : A → ℕ → ValidationError) where
  check_names-nil :
      (seen : TextMap ℕ) (xs : List A)
      → (check_names name line err seen xs ≡ [])
        ↔ (AllDistinct (map name xs) × All (IsNew seen) (map name xs))
  unfolding check_names
  check_names-nil seen [] = (λ h. (tt, tt), λ h. refl)
  check_names-nil seen (x ∷ xs) =
      split (lookup (name x) seen) refl (check_names-nil (insert (name x) (line x) seen) xs)
    where
      split :
          (o : Option ℕ)
          → lookup (name x) seen ≡ o
          → (check_names name line err (insert (name x) (line x) seen) xs ≡ []) ↔ (
              AllDistinct (map name xs) × All (IsNew (insert (name x) (line x) seen)) (map name xs))
          → (elim o [
            | some first ↦ err x first ∷ check_names name line err seen xs
            | none ↦ check_names name line err (insert (name x) (line x) seen) xs
          ]
              ≡ [])
            ↔ (AllDistinct (map name (x ∷ xs)) × All (IsNew seen) (map name (x ∷ xs)))
      split (some first) e ih = (λ h. cc, λ h. cc (h.1.0))
      split none e ih =
          let (to, from) = All-IsNew-insert (name x) (line x) seen (map name xs) in
          (
            λ h. let (d, n) = ih.0 h in let (news, absent) = to n in ((absent, d), (e, news)),
            λ h. ih.1 (h.0.1, from (h.1.1, h.0.0)),
          )

  pub check_names-nil_iff :
      (xs : List A) → (check_names name line err [] xs ≡ []) ↔ AllDistinct (map name xs)
  check_names-nil_iff xs =
      let (to, from) = check_names-nil [] xs in (λ h. (to h).0, λ h. from (h, all_new xs))
    where
      all_new : (ys : List A) → All (IsNew []) (map name ys)
      all_new [] = tt
      all_new (y ∷ ys) = (unfold lookup in refl, all_new ys)

-- No step index twice.
abbrev pub DistinctSteps : List ℕ → Type 0
DistinctSteps [] = Unit
DistinctSteps (n ∷ ns) = (has_step ns n ≡ false) × DistinctSteps ns

module _ (cfg : File) (filename : Text) (t : Target) where
  -- No name of the list is among those seen.
  abbrev Apart : List Text → List Text → Type 0
  Apart seen = All (λ x. contains seen x ≡ false)

  Apart-cons :
      (x : Text) (seen ys : List Text)
      → Apart (x ∷ seen) ys ↔ (Apart seen ys × (contains ys x ≡ false))
  unfolding contains
  Apart-cons x seen [] = (λ h. (tt, refl), λ h. tt)
  Apart-cons x seen (y ∷ ys) =
      let (to, from) = Apart-cons x seen ys in
      (
        λ h.
            let (news, absent) = to h.1 in
            ((ground arith, news), ground (arith, ==_iff x y, ==_iff y x)),
        λ h. (ground (arith, ==_iff x y, ==_iff y x), from (h.0.1, ground arith)),
      )

  check_presets-nil :
      (seen : List Text) (vs : List Preset)
      → (check_presets cfg filename t seen vs ≡ [])
        ↔ (AllDistinct (map (λ v. v.name) vs) × Apart seen (map (λ v. v.name) vs))
  unfolding check_presets
  check_presets-nil seen [] = (λ h. (tt, tt), λ h. refl)
  check_presets-nil seen (v ∷ vs) =
      let (to, from) = check_presets-nil (v.name ∷ seen) vs in
      let (apart, join) = Apart-cons v.name seen (map (λ u. u.name) vs) in
      elim (Bool-cases (contains seen v.name)) [
        | inl old ↦ rw old (λ h. cc, λ h. cc (h.1.0))
        | inr fresh ↦ rw fresh (
          λ h. let (d, n) = to h in let (news, absent) = apart n in ((absent, d), (refl, news)),
          λ h. from (h.0.1, join (h.1.1, h.0.0)),
        )
      ]

  pub check_presets-nil_iff :
      (check_presets cfg filename t [] t.presets ≡ []) ↔ AllDistinct (map (λ v. v.name) t.presets)
  check_presets-nil_iff =
      let (to, from) = check_presets-nil [] t.presets in
      (λ h. (to h).0, λ h. from (h, all_apart t.presets))
    where
      all_apart : (vs : List Preset) → Apart [] (map (λ v. v.name) vs)
      all_apart [] = tt
      all_apart (v ∷ vs) = (unfold contains in refl, all_apart vs)

  abbrev ApartSteps : List ℕ → List ℕ → Type 0
  ApartSteps seen = All (λ n. has_step seen n ≡ false)

  ApartSteps-cons :
      (n : ℕ) (seen ms : List ℕ)
      → ApartSteps (n ∷ seen) ms ↔ (ApartSteps seen ms × (has_step ms n ≡ false))
  ApartSteps-cons n seen [] = (λ h. (tt, refl), λ h. tt)
  ApartSteps-cons n seen (m ∷ ms) =
      let (to, from) = ApartSteps-cons n seen ms in
      (
        λ h. let (news, absent) = to h.1 in ((ground arith, news), ground arith),
        λ h. (ground arith, from (h.0.1, ground arith)),
      )

  check_slots-nil :
      (seen : List ℕ) (slots : List PassthroughSlot)
      → (check_slots cfg filename t seen slots ≡ [])
        ↔ (DistinctSteps (map (λ p. p.step) slots) × ApartSteps seen (map (λ p. p.step) slots))
  unfolding check_slots
  check_slots-nil seen [] = (λ h. (tt, tt), λ h. refl)
  check_slots-nil seen (slot ∷ slots) =
      let (to, from) = check_slots-nil (slot.step ∷ seen) slots in
      let (apart, join) = ApartSteps-cons slot.step seen (map (λ p. p.step) slots) in
      elim (Bool-cases (has_step seen slot.step)) [
        | inl old ↦ rw old (λ h. cc, λ h. cc (h.1.0))
        | inr fresh ↦ rw fresh (
          λ h. let (d, n) = to h in let (news, absent) = apart n in ((absent, d), (refl, news)),
          λ h. from (h.0.1, join (h.1.1, h.0.0)),
        )
      ]

  -- Fewer than two slots are distinct, so the early `continue` skips nothing.
  check_passthrough-eq-check_slots :
      check_passthrough cfg filename t ≡ check_slots cfg filename t [] t.passthrough
  unfolding check_passthrough
  check_passthrough-eq-check_slots = short t.passthrough
    where
      short :
          (slots : List PassthroughSlot)
          → (if ltb (length slots) 2 then [] else check_slots cfg filename t [] slots)
            ≡ check_slots cfg filename t [] slots
      short [] = unfold check_slots in refl
      short (p ∷ []) = unfold check_slots in refl
      short (p ∷ q ∷ slots) = ground arith

  pub check_passthrough-nil_iff :
      (check_passthrough cfg filename t ≡ []) ↔ DistinctSteps (map (λ p. p.step) t.passthrough)
  check_passthrough-nil_iff =
      let (to, from) = check_slots-nil [] t.passthrough in
      rw check_passthrough-eq-check_slots (λ h. (to h).0, λ h. from (h, all_apart t.passthrough))
    where
      all_apart : (slots : List PassthroughSlot) → ApartSteps [] (map (λ p. p.step) slots)
      all_apart [] = tt
      all_apart (p ∷ slots) = (refl, all_apart slots)
