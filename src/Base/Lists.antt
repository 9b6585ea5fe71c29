-- ===== src/Base/Lists.antt =====
-- Lists: length, membership as a Boolean test (a Go `map[string]bool` used as a set), and
-- predicates on all members.
use Prim.Native.Nat.{ℕ, suc, ◌+◌}
use mathlib.Core.Path.{◌≡◌, refl, subst}
use mathlib.Core.Logic.{inl, inr, ◌↔◌}
use mathlib.Core.Bool.{Bool, true, false, ◌||◌}
use mathlib.Core.List.{List, [], ◌∷◌, ◌++◌}
use native.Mathlib.Omega.{arith}
use go_bake.Base.Tests.{Text, ◌==◌, ==_iff, Bool-cases}

module _ {ℓ} {A : Type ℓ} where
  abbrev pub length : List A → ℕ
  length [] = 0
  length (x ∷ xs) = suc (length xs)

  pub length-append : (xs ys : List A) → length (xs ++ ys) ≡ length xs + length ys
  length-append [] ys = omega arith
  length-append (x ∷ xs) ys = omega (arith, length-append xs ys)

-- A predicate on all members, by recursion.
abbrev pub All {ℓ κ} : {A : Type ℓ} → (A → Type κ) → List A → Type κ
All P [] = Unit
All P (x ∷ xs) = P x × All P xs

module _ {ℓ κ} {A : Type ℓ} (P : A → Type κ) where
  pub All-append : (xs ys : List A) → All P xs → All P ys → All P (xs ++ ys)
  All-append [] ys hx hy = hy
  All-append (x ∷ xs) ys hx hy = (hx.0, All-append xs ys hx.1 hy)

  pub All-append_left : (xs ys : List A) → All P (xs ++ ys) → All P xs
  All-append_left [] ys h = tt
  All-append_left (x ∷ xs) ys h = (h.0, All-append_left xs ys h.1)

  pub All-append_right : (xs ys : List A) → All P (xs ++ ys) → All P ys
  All-append_right [] ys h = h
  All-append_right (x ∷ xs) ys h = All-append_right xs ys h.1

pub All-map {ℓ κ μ} :
    {A : Type ℓ} (P : A → Type κ) (Q : A → Type μ) (xs : List A)
    → ((x : A) → P x → Q x)
    → All P xs
    → All Q xs
All-map P Q [] f h = tt
All-map P Q (x ∷ xs) f h = (f x h.0, All-map P Q xs f h.1)

pub All-zip {ℓ κ μ ν} :
    {A : Type ℓ} (P : A → Type κ) (Q : A → Type μ) (R : A → Type ν) (xs : List A)
    → ((x : A) → P x → Q x → R x)
    → All P xs
    → All Q xs
    → All R xs
All-zip P Q R [] f p q = tt
All-zip P Q R (x ∷ xs) f p q = (f x p.0 q.0, All-zip P Q R xs f p.1 q.1)

unfoldable pub contains : List Text → Text → Bool
contains [] a = false
contains (x ∷ xs) a = x == a || contains xs a

abbrev pub Has : List Text → Text → Type 0
Has xs a = contains xs a ≡ true

pub contains-append :
    (xs ys : List Text) (a : Text) → contains (xs ++ ys) a ≡ (contains xs a || contains ys a)
unfolding contains
contains-append [] ys a = refl
contains-append (x ∷ xs) ys a = ground (arith, contains-append xs ys a)

pub contains-cons :
    (x : Text) (xs : List Text) (a : Text) → contains (x ∷ xs) a ≡ (x == a || contains xs a)
unfolding contains
contains-cons x xs a = refl

pub contains-nil : (a : Text) → contains [] a ≡ false
unfolding contains
contains-nil a = refl

pub All-contains {κ} : (P : Text → Type κ) (xs : List Text) (a : Text) → All P xs → Has xs a → P a
unfolding contains
All-contains P [] a h m = absurd (ground arith)
All-contains P (x ∷ xs) a h m = elim (Bool-cases (x == a)) [
  | inl e ↦ subst P ((==_iff x a).0 e) h.0
  | inr e ↦ All-contains P xs a h.1 (ground arith)
]

-- No name twice.
abbrev pub AllDistinct : List Text → Type 0
AllDistinct [] = Unit
AllDistinct (x ∷ xs) = (contains xs x ≡ false) × AllDistinct xs

pub AllDistinct-snoc :
    (xs : List Text) (a : Text)
    → AllDistinct xs
    → contains xs a ≡ false
    → AllDistinct (xs ++ a ∷ [])
unfolding contains
AllDistinct-snoc [] a h m = (refl, tt)
AllDistinct-snoc (x ∷ xs) a h m = (
  ground (arith, contains-append xs (a ∷ []) x, ==_iff x a, ==_iff a x),
  AllDistinct-snoc xs a h.1 (ground arith),
)

-- A loop that appends what it finds for each element.
unfoldable pub collect {ℓ κ} : {A : Type ℓ} {B : Type κ} → (A → List B) → List A → List B
collect f [] = []
collect f (x ∷ xs) = f x ++ collect f xs

pub append-nil_iff {ℓ} : {A : Type ℓ} (xs ys : List A) → (xs ++ ys ≡ []) ↔ ((xs ≡ []) × (ys ≡ []))
append-nil_iff [] ys = (λ h. (refl, h), λ h. h.1)
append-nil_iff (x ∷ xs) ys = (λ h. cc, λ h. cc (h.0))

-- Nothing is collected exactly when no element gives anything.
pub collect-nil_iff {ℓ κ μ} :
    {A : Type ℓ} {B : Type κ} (f : A → List B) (P : A → Type μ) (xs : List A)
    → ((x : A) → (f x ≡ []) ↔ P x)
    → (collect f xs ≡ []) ↔ All P xs
unfolding collect
collect-nil_iff f P [] h = (λ e. tt, λ a. refl)
collect-nil_iff f P (x ∷ xs) h =
    let (to, from) = collect-nil_iff f P xs h in
    let (split, join) = append-nil_iff (f x) (collect f xs) in
    (λ e. ((h x).0 (split e).0, to (split e).1), λ a. join ((h x).1 a.0, from a.1))
