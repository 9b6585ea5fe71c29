-- ===== src/Dsl/Order/Again.antt =====
-- The canonical order of a body that is in the canonical order.
use go_bake.Base.{
  ℕ, suc, ◌≡◌, refl, ap, ◌∙◌, inl, inr, Bool-cases, List, [], ◌∷◌, ◌++◌, append-nil, All, collect,
  nat_eq, nat_eq_iff, if◌then◌else◌, arith,
}
use go_bake.Dsl.Ast.{BodyEntry}
use go_bake.Dsl.Order.{group, slice, canonical, order_body_entries}

slice-append : (xs ys : List BodyEntry) (g : ℕ) → slice (xs ++ ys) g ≡ slice xs g ++ slice ys g
unfolding slice
slice-append [] ys g = refl
slice-append (x ∷ xs) ys g = ground (arith, slice-append xs ys g)

slice-slice :
    (es : List BodyEntry) (h g : ℕ) → slice (slice es h) g ≡ (if nat_eq h g then slice es g else [])
unfolding slice
slice-slice [] h g = ground arith
slice-slice (e ∷ es) h g =
    ground
      (arith, slice-slice es h g, nat_eq_iff h g, nat_eq_iff (group e) h, nat_eq_iff (group e) g)

abbrev pick : List BodyEntry → ℕ → ℕ → List BodyEntry
pick es g h = if nat_eq h g then slice es g else []

slice-collect :
    (es : List BodyEntry) (gs : List ℕ) (g : ℕ)
    → slice (collect (slice es) gs) g ≡ collect (pick es g) gs
unfolding collect slice
slice-collect es [] g = refl
slice-collect es (h ∷ gs) g =
    slice-append (slice es h) (collect (slice es) gs) g
    ∙ ap (λ xs. xs ++ slice (collect (slice es) gs) g) (slice-slice es h g)
    ∙ ap (λ ys. pick es g h ++ ys) (slice-collect es gs g)

-- How often a slice is read.
abbrev times : ℕ → List ℕ → ℕ
times g [] = 0
times g (h ∷ gs) = if nat_eq h g then suc (times g gs) else times g gs

collect-none :
    (es : List BodyEntry) (gs : List ℕ) (g : ℕ) → times g gs ≡ 0 → collect (pick es g) gs ≡ []
unfolding collect
collect-none es [] g h = refl
collect-none es (x ∷ gs) g h = ground (arith, collect-none es gs g)

collect-once :
    (es : List BodyEntry) (gs : List ℕ) (g : ℕ)
    → times g gs ≡ 1
    → collect (pick es g) gs ≡ slice es g
unfolding collect
collect-once es [] g h = absurd (ground arith)
collect-once es (x ∷ gs) g h = elim (Bool-cases (nat_eq x g)) [
  | inl here ↦
      rw here (
        ap (λ ys. slice es g ++ ys) (collect-none es gs g (ground arith)) ∙ append-nil (slice es g))
  | inr there ↦ rw there (collect-once es gs g (ground arith))
]

collect-same :
    (f k : ℕ → List BodyEntry) (gs : List ℕ) → All (λ g. f g ≡ k g) gs → collect f gs ≡ collect k gs
unfolding collect
collect-same f k [] h = refl
collect-same f k (g ∷ gs) h = rw h.0 (ap (λ ys. k g ++ ys) (collect-same f k gs h.1))

slices-again :
    (es : List BodyEntry) (gs : List ℕ)
    → All (λ g. times g canonical ≡ 1) gs
    → All (λ g. slice (order_body_entries es) g ≡ slice es g) gs
unfolding order_body_entries
slices-again es [] h = tt
slices-again es (g ∷ gs) h =
    (slice-collect es canonical g ∙ collect-once es canonical g h.0, slices-again es gs h.1)

pub order_body_entries-again :
    (es : List BodyEntry) → order_body_entries (order_body_entries es) ≡ order_body_entries es
order_body_entries-again es =
    unfold order_body_entries in
    collect-same (slice (order_body_entries es)) (slice es) canonical (
      slices-again es canonical (
        refl,
        (
          refl,
          (
            refl,
            (
              refl,
              (
                refl,
                (
                  refl,
                  (
                    refl,
                    (
                      refl,
                      (
                        refl,
                        (
                          refl,
                          (
                            refl,
                            (
                              refl,
                              (
                                refl,
                                (
                                  refl,
                                  (
                                    refl,
                                    (refl, (refl, (refl, (refl, (refl, (refl, (refl, tt))))))),
                                  ),
                                ),
                              ),
                            ),
                          ),
                        ),
                      ),
                    ),
                  ),
                ),
              ),
            ),
          ),
        ),
      ))
