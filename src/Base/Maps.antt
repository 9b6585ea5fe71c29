-- ===== src/Base/Maps.antt =====
-- Go's `map[string]V` as an association list. A write replaces the value in place, so a key stands
-- once; `overlay` is the loop `for k, v := range over { base[k] = v }`.
use mathlib.Core.Path.{◌≡◌, refl}
use mathlib.Core.Option.{Option, none, some}
use mathlib.Core.List.{List, [], ◌∷◌}
use native.Mathlib.Omega.{arith}
use go_bake.Base.Tests.{Text, ◌==◌, ==_iff, if◌then◌else◌}

abbrev pub TextMap {ℓ} : Type ℓ → Type ℓ
TextMap V = List (Text × V)

module _ {ℓ} {V : Type ℓ} where
  unfoldable pub lookup : Text → TextMap V → Option V
  lookup key [] = none
  lookup key ((name, value) ∷ rest) = if name == key then some value else lookup key rest

  unfoldable pub insert : Text → V → TextMap V → TextMap V
  insert key new [] = (key, new) ∷ []
  insert key new ((name, old) ∷ rest) =
      if name == key then (key, new) ∷ rest else (name, old) ∷ insert key new rest

  -- A write is seen under its own key and nowhere else.
  pub lookup-insert :
      (key other : Text) (new : V) (entries : TextMap V)
      → lookup other (insert key new entries)
        ≡ (if key == other then some new else lookup other entries)
  unfolding lookup insert
  lookup-insert key other new [] = refl
  lookup-insert key other new ((name, old) ∷ rest) = ground (
    arith,
    ==_iff key other,
    ==_iff name key,
    ==_iff name other,
    lookup-insert key other new rest,
  )

  unfoldable pub overlay : TextMap V → TextMap V → TextMap V
  unfolding insert
  overlay [] base = base
  overlay ((k, v) ∷ over) base = overlay over (insert k v base)

  -- The value of a key after an overlay with distinct keys is the overlay's, or else the base's.
  abbrev pub or_else : Option V → Option V → Option V
  or_else none b = b
  or_else (some v) b = some v

  pub or_else-none : (o : Option V) → or_else o none ≡ o
  or_else-none none = refl
  or_else-none (some v) = refl

  pub or_else_assoc : (a b c : Option V) → or_else (or_else a b) c ≡ or_else a (or_else b c)
  or_else_assoc none b c = refl
  or_else_assoc (some v) b c = refl

  -- The last binding of a key is the one that a sequence of writes leaves.
  unfoldable pub last_lookup : Text → TextMap V → Option V
  last_lookup k [] = none
  last_lookup k ((j, v) ∷ m) = or_else (last_lookup k m) (if j == k then some v else none)

  pub lookup-overlay :
      (k : Text) (over base : TextMap V)
      → lookup k (overlay over base) ≡ or_else (last_lookup k over) (lookup k base)
  unfolding overlay last_lookup
  lookup-overlay k [] base = refl
  lookup-overlay k ((j, v) ∷ over) base =
      ground (arith, lookup-overlay k over (insert j v base), lookup-insert j k v base)
