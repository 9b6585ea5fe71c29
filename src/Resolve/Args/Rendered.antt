-- ===== src/Resolve/Args/Rendered.antt =====
-- Arguments that are written `--key=value` are read back.
use go_bake.Base.{
  equals, IsKey, cut_equals-append, ◌≡◌, refl, ap, ◌∙◌, false, Option, none, some, List, [], ◌∷◌,
  ◌++◌, map, Text, lookup, lookup-insert, or_else, last_lookup, All, contains, ==_iff, ◌==◌, arith,
  if◌then◌else◌,
}
use go_bake.Config.{ArgDecl}
use go_bake.Resolve.Args.{
  dash, dashes, Turn, with_next, read_long, read, is_declared, Values, store, read_all,
}
use go_bake.Resolve.Args.Blobs.{Plain}

-- `--key=value`
abbrev pub render : Text × Text → Text
render (key, value) = dash ∷ dash ∷ (key ++ equals ∷ value)

render_ne_dashes : (p : Text × Text) → (render p == dashes) ≡ false
unfolding ◌==◌
render_ne_dashes ([], value) = refl
render_ne_dashes (c ∷ key, value) = refl

pub Plain-render : (pairs : List (Text × Text)) → Plain (map render pairs)
unfolding contains
Plain-render [] = refl
Plain-render (p ∷ pairs) = rw (render_ne_dashes p) (Plain-render pairs)

read-render :
    (decls : List ArgDecl) (key value : Text) (next : Option Text)
    → IsKey key
    → read decls (render (key, value)) next ≡ Turn.one key value
unfolding read read_long
read-render decls key value next h = rw (render_ne_dashes (key, value)) (
    ap (λ o. elim o [ some p ↦ Turn.one p.0 p.1 | none ↦ with_next (key ++ equals ∷ value) next ])
      (cut_equals-append key value h))

read_all-last :
    (decls : List ArgDecl) (a key value : Text) (v : Values)
    → read decls a none ≡ Turn.one key value
    → read_all decls (a ∷ []) v ≡ store decls key value v
unfolding read_all
read_all-last decls a key value v e =
    ap
      (λ t. elim t [
        | Turn.stop ↦ v
        | Turn.skip ↦ v
        | Turn.one k w ↦ store decls k w v
        | Turn.two k w ↦ store decls k w v
      ])
      e

read_all-one :
    (decls : List ArgDecl) (a b : Text) (args : List Text) (key value : Text) (v : Values)
    → read decls a (some b) ≡ Turn.one key value
    → read_all decls (a ∷ b ∷ args) v ≡ read_all decls (b ∷ args) (store decls key value v)
unfolding read_all
read_all-one decls a b args key value v e =
    ap
      (λ t. elim t [
        | Turn.stop ↦ v
        | Turn.skip ↦ read_all decls (b ∷ args) v
        | Turn.one k w ↦ read_all decls (b ∷ args) (store decls k w v)
        | Turn.two k w ↦ read_all decls args (store decls k w v)
      ])
      e

abbrev pub store_all : List ArgDecl → List (Text × Text) → Values → Values
store_all decls [] v = v
store_all decls ((key, value) ∷ pairs) v = store_all decls pairs (store decls key value v)

pub read_all-render :
    (decls : List ArgDecl) (pairs : List (Text × Text)) (v : Values)
    → All (λ p. IsKey p.0) pairs
    → read_all decls (map render pairs) v ≡ store_all decls pairs v
unfolding read_all
read_all-render decls [] v h = refl
read_all-render decls ((key, value) ∷ []) v h =
    read_all-last decls (render (key, value)) key value v (read-render decls key value none h.0)
read_all-render decls ((key, value) ∷ p ∷ pairs) v h =
    read_all-one decls (render (key, value)) (render p) (map render pairs) key value v
      (read-render decls key value (some (render p)) h.0)
    ∙ read_all-render decls (p ∷ pairs) (store decls key value v) h.1

pub declared-store_all :
    (decls : List ArgDecl) (pairs : List (Text × Text)) (v : Values) (x : Text)
    → lookup x (store_all decls pairs v).declared
      ≡ or_else (if is_declared decls x then last_lookup x pairs else none) (lookup x v.declared)
unfolding store last_lookup
declared-store_all decls [] v x = ground arith
declared-store_all decls ((key, value) ∷ pairs) v x = ground (
  arith,
  declared-store_all decls pairs (store decls key value v) x,
  lookup-insert key x value v.declared,
  ==_iff key x,
)
