-- ===== src/Env/Merged.antt =====
-- Which of the sources of the environment a variable takes its value from.
use go_bake.Base.{
  ◌≡◌, refl, sym, ap, ◌∙◌, false, Bool-cases, inl, inr, Option, none, some, List, [], ◌∷◌, map,
  Text, TextMap, lookup, insert, overlay, or_else, or_else-none, or_else_assoc, last_lookup,
  lookup-overlay, AllDistinct, contains, ◌==◌, ==_iff, ◌||◌, arith,
}
use go_bake.Env.{parse_line, store_line, read_lines, FileText, Dotenv, load_files, load_dotenv}

-- A map has each key once.
abbrev pub IsMap : TextMap Text → Type 0
IsMap m = AllDistinct (map (λ p. p.0) m)

lookup-missing :
    (k : Text) (m : TextMap Text) → contains (map (λ p. p.0) m) k ≡ false → lookup k m ≡ none
unfolding lookup contains
lookup-missing k [] h = refl
lookup-missing k ((j, v) ∷ m) h = ground (arith, lookup-missing k m)

last_lookup-missing :
    (k : Text) (m : TextMap Text) → contains (map (λ p. p.0) m) k ≡ false → last_lookup k m ≡ none
unfolding last_lookup contains
last_lookup-missing k [] h = refl
last_lookup-missing k ((j, v) ∷ m) h = ground (arith, last_lookup-missing k m)

last_lookup-IsMap : (k : Text) (m : TextMap Text) → IsMap m → last_lookup k m ≡ lookup k m
unfolding last_lookup lookup
last_lookup-IsMap k [] h = refl
last_lookup-IsMap k ((j, v) ∷ m) h =
    ground (arith, last_lookup-IsMap k m h.1, last_lookup-missing k m, ==_iff j k, h.0)

lookup-overlay-IsMap :
    (k : Text) (over base : TextMap Text)
    → IsMap over
    → lookup k (overlay over base) ≡ or_else (lookup k over) (lookup k base)
lookup-overlay-IsMap k over base h =
    lookup-overlay k over base ∙ ap (λ o. or_else o (lookup k base)) (last_lookup-IsMap k over h)

contains-insert :
    (k j : Text) (v : Text) (m : TextMap Text)
    → contains (map (λ p. p.0) (insert k v m)) j ≡ (k == j || contains (map (λ p. p.0) m) j)
unfolding insert contains
contains-insert k j v [] = refl
contains-insert k j v ((i, w) ∷ m) =
    ground (arith, contains-insert k j v m, ==_iff i k, ==_iff i j, ==_iff k j)

insert-IsMap : (k v : Text) (m : TextMap Text) → IsMap m → IsMap (insert k v m)
unfolding insert contains
insert-IsMap k v [] h = (refl, tt)
insert-IsMap k v ((j, w) ∷ m) h = elim (Bool-cases (j == k)) [
  | inl e ↦ rw (e, sym ((==_iff j k).0 e)) h
  | inr e ↦
      rw e (
        ground (arith, contains-insert k j v m, ==_iff k j, ==_iff j k, h.0),
        insert-IsMap k v m h.1,
      )
]

store_line-IsMap : (o : Option (Text × Text)) (m : TextMap Text) → IsMap m → IsMap (store_line o m)
unfolding store_line
store_line-IsMap none m h = h
store_line-IsMap (some (k, v)) m h = insert-IsMap k v m h

pub read_lines-IsMap : (ls : List Text) (m : TextMap Text) → IsMap m → IsMap (read_lines ls m)
unfolding read_lines
read_lines-IsMap [] m h = h
read_lines-IsMap (l ∷ ls) m h =
    read_lines-IsMap ls (store_line (parse_line l) m) (store_line-IsMap (parse_line l) m h)

-- The value that a file gives, and that the files give, the last one first.
abbrev pub in_file : FileText → Text → Option Text
in_file FileText.not_exist k = none
in_file FileText.failed k = none
in_file (FileText.lines ls) k = lookup k (read_lines ls [])

abbrev pub in_files : (Text → Text) → (Text → FileText) → List Text → Text → Option Text
in_files join read [] k = none
in_files join read (name ∷ names) k =
    or_else (in_files join read names k) (in_file (read (join name)) k)

loaded-injective : {a b : TextMap Text} → Dotenv.loaded a ≡ Dotenv.loaded b → a ≡ b
loaded-injective e = cc

load_files-in_files :
    (join : Text → Text) (read : Text → FileText) (names : List Text) (out result : TextMap Text)
    → load_files join read names out ≡ Dotenv.loaded result
    → (k : Text) → lookup k result ≡ or_else (in_files join read names k) (lookup k out)
unfolding load_files
load_files-in_files join read [] out result e k = ap (lookup k) (sym (loaded-injective e))
load_files-in_files join read (name ∷ names) out result e k =
    go (read (join name)) (λ out' h. load_files-in_files join read names out' result h k) e
  where
    go :
        (f : FileText)
        → ((out' : TextMap Text)
            → load_files join read names out' ≡ Dotenv.loaded result
            → lookup k result ≡ or_else (in_files join read names k) (lookup k out'))
        → (elim f [
          | FileText.not_exist ↦ load_files join read names out
          | FileText.failed ↦ Dotenv.load_failed (join name)
          | FileText.lines ls ↦ load_files join read names (overlay (read_lines ls []) out)
        ])
          ≡ Dotenv.loaded result
        → lookup k result
          ≡ or_else (or_else (in_files join read names k) (in_file f k)) (lookup k out)
    go FileText.not_exist ih h =
        ih out h ∙ sym (or_else_assoc (in_files join read names k) none (lookup k out))
    go FileText.failed ih h = cc
    go (FileText.lines ls) ih h =
        let file = read_lines ls [] in
        ih (overlay file out) h
        ∙ ap (or_else (in_files join read names k))
            (lookup-overlay-IsMap k file out (read_lines-IsMap ls [] tt))
        ∙ sym (or_else_assoc (in_files join read names k) (lookup k file) (lookup k out))

-- When LoadDotenv succeeds, a variable has the value of the last of the files that gives one; files
-- that do not exist give none.
pub load_dotenv-in_files :
    (join : Text → Text) (read : Text → FileText) (names : List Text) (result : TextMap Text)
    → load_dotenv join read names ≡ Dotenv.loaded result
    → (k : Text) → lookup k result ≡ in_files join read names k
unfolding load_dotenv lookup
load_dotenv-in_files join read names result e k =
    load_files-in_files join read names [] result e k ∙ or_else-none (in_files join read names k)
