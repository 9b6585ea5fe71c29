-- ===== src/Dsl/Format/Blocks/Read.antt =====
-- What the formatter writes for an environment value and for an entry of a suite, read back.
use go_bake.Base.{
  ℕ, suc, ◌≤◌, ◌≡◌, refl, ap, ◌∙◌, ◌⊎◌, inl, inr, Bool, true, false, ◌&&◌, ◌||◌, Bool-cases, Option,
  none, some, [], ◌∷◌, ◌++◌, Text, nat_eq, leb, arith, if◌then◌else◌,
}
use go_bake.Dsl.Ast.{SuiteEntry}
use go_bake.Dsl.Load.{raw, count_dots, replace_dot}
use go_bake.Dsl.Runes.{valid_runes}
use go_bake.Dsl.Token.{quote, backslash, last_is, capture_text, write_quoted, scan_string, or_retry}
use go_bake.Dsl.Token.RoundTrip.{scan_string-write_quoted, capture_text-write_quoted}
use go_bake.Dsl.Format.{needs_quoting, any_special, write_env_value}
use go_bake.Dsl.Format.Blocks.{replace_space, write_entry_text}

-- The Ident rule of internal/dsl/lexer.go: letters, '_', '.' and '/', and behind the first of them
-- digits and '-'.
abbrev begins_ident : ℕ → Bool
begins_ident c =
    leb 97 c && leb c 122 || leb 65 c && leb c 90 || nat_eq c 95 || nat_eq c 46 || nat_eq c 47

abbrev in_ident : ℕ → Bool
in_ident c = begins_ident c || leb 48 c && leb c 57 || nat_eq c 45

unfoldable pub ident_rest : Text → Text × Text
ident_rest [] = ([], [])
ident_rest (c ∷ s) =
    let (more, rest) = ident_rest s in if in_ident c then (c ∷ more, rest) else ([], c ∷ s)

unfoldable pub scan_ident : Text → Option (Text × Text)
unfolding ident_rest
scan_ident [] = none
scan_ident (c ∷ s) =
    let (more, rest) = ident_rest s in if begins_ident c then some (c ∷ more, rest) else none

abbrev captured : Option (Text × Text) → Option (Text × Text)
captured none = none
captured (some (token, rest)) = some (capture_text token, rest)

-- The grammar of a value: a String or an Ident, with the `Capture` of EnvValue.
unfoldable pub read_value : Text → Option (Text × Text)
unfolding scan_string scan_ident capture_text
read_value t = captured (or_retry (scan_string t) (scan_ident t))

abbrev all_ident : Text → Bool
all_ident [] = true
all_ident (c ∷ s) = in_ident c && all_ident s

abbrev pub is_ident : Text → Bool
is_ident [] = false
is_ident (c ∷ s) = begins_ident c && all_ident s

ident_rest-append :
    (s more : Text) → all_ident s ≡ true → ident_rest (s ++ b' ' ∷ more) ≡ (s, b' ' ∷ more)
unfolding ident_rest
ident_rest-append [] more h = refl
ident_rest-append (c ∷ s) more h =
    let here : in_ident c ≡ true = ground arith in
    rw (ident_rest-append s more (ground arith)) (rw here refl)

ident-capture : (s : Text) → is_ident s ≡ true → capture_text s ≡ s
unfolding capture_text
ident-capture [] h = refl
ident-capture (c ∷ s) h = ground arith

read_value-ident :
    (s more : Text) → is_ident s ≡ true → read_value (s ++ b' ' ∷ more) ≡ some (s, b' ' ∷ more)
unfolding read_value scan_string scan_ident
read_value-ident [] more h = absurd (ground arith)
read_value-ident (c ∷ s) more h =
    let first : nat_eq c quote ≡ false = ground arith in
    let here : begins_ident c ≡ true = ground arith in
    rw first
      (rw (ident_rest-append s more (ground arith)) (rw here (rw (ident-capture (c ∷ s) h) refl)))

read_value-quoted :
    (s more : Text)
    → valid_runes 0 s ≡ true
    → last_is backslash s ≡ false
    → read_value (write_quoted s ++ b' ' ∷ more) ≡ some (s, b' ' ∷ more)
unfolding read_value
read_value-quoted s more valid h =
    ap (λ o. captured (or_retry o (scan_ident (write_quoted s ++ b' ' ∷ more))))
      (scan_string-write_quoted s (b' ' ∷ more) valid h)
    ∙ ap (λ t. some (t, b' ' ∷ more)) (capture_text-write_quoted s valid)

-- An environment value is read back as it was, before the space that the formatter writes behind it,
-- if it is an identifier or is put into quotes, is valid UTF-8, and does not end in a backslash.
pub read_value-write_env_value :
    (v more : Text)
    → (is_ident v ≡ true) ⊎ (needs_quoting v ≡ true)
    → valid_runes 0 v ≡ true
    → last_is backslash v ≡ false
    → read_value (write_env_value v ++ b' ' ∷ more) ≡ some (v, b' ' ∷ more)
unfolding write_env_value
read_value-write_env_value v more h valid l = elim (Bool-cases (needs_quoting v)) [
  | inl quoted ↦ rw quoted (read_value-quoted v more valid l)
  | inr bare ↦ rw bare (read_value-ident v more (ident_of h bare))
]
  where
    ident_of :
        (is_ident v ≡ true) ⊎ (needs_quoting v ≡ true) → needs_quoting v ≡ false → is_ident v ≡ true
    ident_of (inl h) bare = h
    ident_of (inr q) bare = absurd (ground arith)

write_env_value-bare : (v : Text) → needs_quoting v ≡ false → write_env_value v ≡ v
unfolding write_env_value
write_env_value-bare v bare = rw bare refl

digit-bare :
    (c : ℕ) (s : Text)
    → (leb 48 c && leb c 57) ≡ true
    → any_special (c ∷ s) ≡ false
    → needs_quoting (c ∷ s) ≡ false
unfolding needs_quoting
digit-bare c s d h = rw h (ground arith)

read_value-no_token : (c : ℕ) (s : Text) → (leb 48 c && leb c 57) ≡ true → read_value (c ∷ s) ≡ none
unfolding read_value scan_string scan_ident
read_value-no_token c s d =
    let first : nat_eq c quote ≡ false = ground arith in
    let here : begins_ident c ≡ false = ground arith in rw first (rw here refl)

-- An environment value that begins with a digit is written without quotes, unless it has one of the
-- bytes that are looked for; what is written is neither a String nor an Ident, so that it cannot be
-- read back.
pub read_value-digit :
    (c : ℕ) (s more : Text)
    → (leb 48 c && leb c 57) ≡ true
    → any_special (c ∷ s) ≡ false
    → (write_env_value (c ∷ s) ≡ c ∷ s) × (read_value (write_env_value (c ∷ s) ++ more) ≡ none)
read_value-digit c s more d h =
    let written = write_env_value-bare (c ∷ s) (digit-bare c s d h) in
    (written, ap (λ v. read_value (v ++ more)) written ∙ read_value-no_token c (s ++ more) d)

abbrev spaces : Text → ℕ
spaces [] = 0
spaces (c ∷ s) = if nat_eq c b' ' then suc (spaces s) else spaces s

-- An entry that the formatter can write without quotes: no dot, and at most one space.
abbrev pub IsPlain : SuiteEntry → Type 0
IsPlain (SuiteEntry.ident v) = Unit
IsPlain (SuiteEntry.quoted v) = (count_dots v ≡ 0) × (spaces v ≤ 1)

replace_space-none : (v : Text) → spaces v ≡ 0 → replace_space v ≡ v
unfolding replace_space
replace_space-none [] h = refl
replace_space-none (c ∷ v) h = ground (arith, replace_space-none v)

count_dots-replaced : (v : Text) → spaces v ≡ 1 → count_dots (replace_space v) ≡ suc (count_dots v)
unfolding replace_space
count_dots-replaced [] h = absurd (omega (arith, h))
count_dots-replaced (c ∷ v) h = ground (arith, count_dots-replaced v)

replace_dot-replaced :
    (v : Text) → count_dots v ≡ 0 → spaces v ≡ 1 → replace_dot (replace_space v) ≡ v
unfolding replace_space
replace_dot-replaced [] d h = absurd (omega (arith, h))
replace_dot-replaced (c ∷ v) d h = elim (Bool-cases (nat_eq c b' ')) [
  | inl here ↦ ground arith
  | inr there ↦ ground (arith, replace_dot-replaced v)
]

-- What the formatter writes for an entry of a suite names the same target and preset when it is read
-- back as an identifier, if the entry was one, or has no dot and at most one space.
pub raw-write_entry_text :
    (e : SuiteEntry) → IsPlain e → raw (SuiteEntry.ident (write_entry_text e)) ≡ raw e
unfolding raw write_entry_text
raw-write_entry_text (SuiteEntry.ident v) h = refl
raw-write_entry_text (SuiteEntry.quoted v) (d, few) = elim (Bool-cases (nat_eq (spaces v) 1)) [
  | inl one ↦
      let s : spaces v ≡ 1 = ground arith in
      rw (count_dots-replaced v s) (rw d (replace_dot-replaced v d s))
  | inr other ↦ let s : spaces v ≡ 0 = ground arith in rw (replace_space-none v s) (rw d refl)
]
