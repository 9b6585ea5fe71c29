-- ===== src/Dsl/Order/Keeps.antt =====
-- Putting the entries of a target into the canonical order does not change what is compiled.
use go_bake.Base.{
  ℕ, ◌+◌, ◌≡◌, ◌≢◌, refl, sym, ◌∙◌, Bool-cases, inl, inr, List, [], ◌∷◌, ◌++◌, collect, nat_eq,
  nat_eq_iff, append-nil, append_assoc, Option, some, Text, ◌==◌, arith, if◌then◌else◌,
}
use go_bake.Config.{Target, WorkflowSchedule}
use go_bake.Dsl.Ast.{BodyEntry, WorkflowEntry}
use go_bake.Dsl.Compile.{
  compile_entry, compile_body, fold_entries, compile_workflow_entry, compile_schedule,
}
use go_bake.Dsl.Order.{group, slice, canonical, order_body_entries}

-- What the entries of a workflow clause add, whatever the rest of the target is.
abbrev workflow_names : List WorkflowEntry → List Text
workflow_names [] = []
workflow_names (WorkflowEntry.ident name ∷ es) =
    if name == [] then workflow_names es else name ∷ workflow_names es
workflow_names (WorkflowEntry.schedule s ∷ es) = workflow_names es

abbrev last_schedule : Option WorkflowSchedule → List WorkflowEntry → Option WorkflowSchedule
last_schedule s [] = s
last_schedule s (WorkflowEntry.ident name ∷ es) = last_schedule s es
last_schedule s (WorkflowEntry.schedule c ∷ es) = last_schedule (some (compile_schedule c)) es

fold-workflow :
    (es : List WorkflowEntry) (t : Target)
    → fold_entries compile_workflow_entry t es ≡ record t {
      workflow = t.workflow ++ workflow_names es;
      workflow_schedule = last_schedule t.workflow_schedule es;
    }
unfolding compile_workflow_entry fold_entries
fold-workflow [] t = rw append-nil
fold-workflow (WorkflowEntry.ident name ∷ es) t = elim (Bool-cases (name == [])) [
  | inl e ↦ rw e (fold-workflow es t)
  | inr e ↦ rw e (
      rw (fold-workflow es (record t { workflow = t.workflow ++ name ∷ [] }))
        (rw (append_assoc t.workflow (name ∷ []) (workflow_names es)) refl))
]
fold-workflow (WorkflowEntry.schedule s ∷ es) t =
    fold-workflow es (record t { workflow_schedule = some (compile_schedule s) })

-- Entries of different clauses set different fields.
compile_entry_comm :
    (a b : BodyEntry) (t : Target)
    → group a ≢ group b
    → compile_entry (compile_entry t a) b ≡ compile_entry (compile_entry t b) a
unfolding compile_entry group
compile_entry_comm (BodyEntry.workflow _) (BodyEntry.workflow _) t h = absurd (h refl)
compile_entry_comm (BodyEntry.workflow es) b t h = simp fold-workflow
compile_entry_comm a (BodyEntry.workflow es) t h = simp fold-workflow
compile_entry_comm _ _ t h = ground arith

compile_body-cons :
    (t : Target) (e : BodyEntry) (es : List BodyEntry)
    → compile_body (compile_entry t e) es ≡ compile_body t (e ∷ es)
unfolding compile_body fold_entries
compile_body-cons t e es = refl

compile_body-append :
    (t : Target) (xs ys : List BodyEntry)
    → compile_body t (xs ++ ys) ≡ compile_body (compile_body t xs) ys
unfolding compile_body fold_entries
compile_body-append t [] ys = refl
compile_body-append t (x ∷ xs) ys = compile_body-append (compile_entry t x) xs ys

-- An entry moves to the front past entries of another slice.
move_front :
    (e : BodyEntry) (g : ℕ) (es : List BodyEntry) (t : Target)
    → group e ≢ g
    → compile_entry (compile_body t (slice es g)) e ≡ compile_body (compile_entry t e) (slice es g)
unfolding compile_body fold_entries slice
move_front e g [] t h = refl
move_front e g (d ∷ es) t h = elim (Bool-cases (nat_eq (group d) g)) [
  | inl same ↦ rw same (
      rw (move_front e g es (compile_entry t d) h)
        (rw (compile_entry_comm d e t (λ p. h (sym p ∙ (nat_eq_iff (group d) g).0 same))) refl))
  | inr other ↦ rw other (move_front e g es t h)
]

-- How often a slice is read.
abbrev hits : ℕ → List ℕ → ℕ
hits n [] = 0
hits n (g ∷ gs) = (if nat_eq n g then 1 else 0) + hits n gs

slices_absent :
    (e : BodyEntry) (es : List BodyEntry) (gs : List ℕ)
    → hits (group e) gs ≡ 0
    → collect (slice (e ∷ es)) gs ≡ collect (slice es) gs
unfolding collect slice
slices_absent e es [] h = refl
slices_absent e es (g ∷ gs) h = ground (arith, slices_absent e es gs)

-- Reading the slices of `e ∷ es` is reading `e`, and then the slices of `es`.
compile_slices :
    (e : BodyEntry) (es : List BodyEntry) (gs : List ℕ) (t : Target)
    → hits (group e) gs ≡ 1
    → compile_body t (collect (slice (e ∷ es)) gs)
      ≡ compile_body (compile_entry t e) (collect (slice es) gs)
unfolding collect slice
compile_slices e es [] t h = absurd (omega arith)
compile_slices e es (g ∷ gs) t h = elim (Bool-cases (nat_eq (group e) g)) [
  | inl same ↦
      rw same (rw (slices_absent e es gs (ground arith)) (unfold compile_body fold_entries in refl))
  | inr other ↦
      rw (other, compile_body-append)
        (rw
          (
            compile_slices e es gs (compile_body t (slice es g)) (ground arith),
            move_front e g es t (λ p. ground arith),
          )
          (sym (compile_body-append (compile_entry t e) (slice es g) (collect (slice es) gs))))
]

hits-canonical : (e : BodyEntry) → hits (group e) canonical ≡ 1
unfolding group
hits-canonical (BodyEntry.desc _) = refl
hits-canonical _ = refl

slices-nil : (gs : List ℕ) → collect (slice []) gs ≡ []
unfolding collect slice
slices-nil [] = refl
slices-nil (g ∷ gs) = slices-nil gs

-- The canonical order of a body's entries compiles to the same target.
pub compile_body-order_body_entries :
    (t : Target) (es : List BodyEntry) → compile_body t (order_body_entries es) ≡ compile_body t es
unfolding order_body_entries
compile_body-order_body_entries t [] = rw (slices-nil canonical)
compile_body-order_body_entries t (e ∷ es) =
    compile_slices e es canonical t (hits-canonical e)
    ∙ compile_body-order_body_entries (compile_entry t e) es
    ∙ compile_body-cons t e es
