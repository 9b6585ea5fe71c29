-- ===== src/Runner/Shell/Words.antt =====
-- The words of a command line, as the POSIX shell's rules on quoting describe them, and that
-- joinArgv's command line has the arguments as its words.
use mathlib.Core.Option
use go_bake.Base.{
  ◌≡◌, ◌≢◌, refl, sym, ap, ◌∙◌, ℕ, Bool, true, false, Bool-cases, ◌⊎◌, inl, inr, Option, none, some,
  List, [], ◌∷◌, ◌++◌, append_assoc, append-nil, Text, All, nat_eq, nat_eq_iff, if◌then◌else◌,
  arith,
}
use go_bake.Runner.Shell.{
  needs_quote, escape_single_quoted, has_special, quote_for_shell, join_rest, join_argv,
}

-- Where the shell reads: outside of quotes, in single quotes, behind a backslash.
pub data Mode : Type 0 where
  plain quoted escaped : Mode

-- What is left of the word that is read, and the words behind it.
abbrev pub Words : Type 0
Words = Option (Text × List Text)

abbrev pub grow : ℕ → Words → Words
grow c o = Option.map (λ p. (c ∷ p.0, p.1)) o

-- A space ends a word; between two spaces there is none.
abbrev pub keep : Text → List Text → List Text
keep [] ws = ws
keep (c ∷ w) ws = (c ∷ w) ∷ ws

abbrev pub next_word : Words → Words
next_word o = Option.map (λ p. ([], keep p.0 p.1)) o

-- Outside of quotes only the bytes of `literal` stand for themselves; a byte with another meaning
-- to the shell, such as '$' or ';', is no part of a word here.
module _ (literal : ℕ → Bool) where
  unfoldable pub read_words : Mode → Text → Words
  read_words Mode.plain [] = some ([], [])
  read_words Mode.quoted [] = none
  read_words Mode.escaped [] = none
  read_words Mode.quoted (c ∷ s) =
      let closed = read_words Mode.plain s in
      let further = read_words Mode.quoted s in if nat_eq c b'\'' then closed else grow c further
  read_words Mode.escaped (c ∷ s) = grow c (read_words Mode.plain s)
  read_words Mode.plain (c ∷ s) =
      let same = read_words Mode.plain s in
      let inside = read_words Mode.quoted s in
      let behind = read_words Mode.escaped s in
      if nat_eq c b'\''
      then inside
      else if nat_eq c b'\\'
      then behind
      else if nat_eq c b' '
      then next_word same
      else if literal c
      then grow c same
      else none

  abbrev prepend : Text → Words → Words
  prepend s o = Option.map (λ p. (s ++ p.0, p.1)) o

  grow-prepend : (c : ℕ) (s : Text) (o : Words) → grow c (prepend s o) ≡ prepend (c ∷ s) o
  grow-prepend c s none = refl
  grow-prepend c s (some p) = refl

  prepend-nil : (o : Words) → prepend [] o ≡ o
  prepend-nil none = refl
  prepend-nil (some p) = refl

  read_words-quoted :
      (s rest : Text)
      → read_words Mode.quoted (escape_single_quoted s ++ b'\'' ∷ rest)
        ≡ prepend s (read_words Mode.plain rest)
  unfolding read_words escape_single_quoted
  read_words-quoted [] rest = sym (prepend-nil (read_words Mode.plain rest))
  read_words-quoted (c ∷ s) rest = elim (Bool-cases (nat_eq c b'\'')) [
    | inl e ↦
        let here : c ≡ b'\'' = (nat_eq_iff c b'\'').0 e in
        rw (e, here)
          (ap (grow b'\'') (read_words-quoted s rest)
            ∙ grow-prepend b'\'' s (read_words Mode.plain rest))
    | inr e ↦ rw (e) (
        rw e
          (ap (grow c) (read_words-quoted s rest) ∙ grow-prepend c s (read_words Mode.plain rest)))
  ]

  -- The bytes of an argument that joinArgv leaves as they are.
  abbrev pub IsLiteral : Text → Type 0
  IsLiteral = All (λ c. literal c ≡ true)

  open_quote : (s : Text) → read_words Mode.plain (b'\'' ∷ s) ≡ read_words Mode.quoted s
  unfolding read_words
  open_quote s = refl

  step_plain :
      (c : ℕ) (s : Text)
      → needs_quote c ≡ false
      → literal c ≡ true
      → read_words Mode.plain (c ∷ s) ≡ grow c (read_words Mode.plain s)
  unfolding read_words
  step_plain c s h l = ground (arith)

  read_words-plain :
      (s rest : Text)
      → has_special s ≡ false
      → IsLiteral s
      → read_words Mode.plain (s ++ rest) ≡ prepend s (read_words Mode.plain rest)
  unfolding read_words has_special
  read_words-plain [] rest h l = sym (prepend-nil (read_words Mode.plain rest))
  read_words-plain (c ∷ s) rest h l =
      step_plain c (s ++ rest) (ground arith) l.0
      ∙ ap (grow c) (read_words-plain s rest (ground (arith, Bool-cases (needs_quote c))) l.1)
      ∙ grow-prepend c s (read_words Mode.plain rest)

  -- The argument is not empty, and the shell takes its bytes as they are, or joinArgv puts it in
  -- quotes.
  abbrev pub IsSafe : Text → Type 0
  IsSafe a = (a ≢ []) × ((has_special a ≡ true) ⊎ IsLiteral a)

  read_words-quote_for_shell :
      (a rest : Text)
      → IsSafe a
      → read_words Mode.plain (quote_for_shell a ++ rest) ≡ prepend a (read_words Mode.plain rest)
  unfolding quote_for_shell
  read_words-quote_for_shell a rest safe = elim (Bool-cases (has_special a)) [
    | inl e ↦
        rw (e, append_assoc (escape_single_quoted a) (b'\'' ∷ []) rest)
          (open_quote (escape_single_quoted a ++ b'\'' ∷ rest) ∙ read_words-quoted a rest)
    | inr e ↦
        rw e (read_words-plain a rest e (elim safe.1 [ inl h ↦ absurd (ground arith) | inr l ↦ l ]))
  ]

  keep_word : (a : Text) (argv : List Text) → a ≢ [] → keep a argv ≡ a ∷ argv
  keep_word [] argv h = absurd (h refl)
  keep_word (c ∷ a) argv h = refl

  read_words-join_rest :
      (argv : List Text)
      → All IsSafe argv
      → read_words Mode.plain (join_rest argv) ≡ some ([], argv)
  unfolding join_rest read_words
  read_words-join_rest [] h = refl
  read_words-join_rest (a ∷ argv) h =
      ap next_word (
        read_words-quote_for_shell a (join_rest argv) h.0
        ∙ ap (prepend a) (read_words-join_rest argv h.1))
      ∙ ap (λ w. some ([], keep w argv)) (append-nil a)
      ∙ ap (λ ws. some ([], ws)) (keep_word a argv h.0.0)

  -- When every argument is safe (it is not empty, and it holds a space, a quote or a backslash or only
  -- bytes that the shell takes literally), the words of joinArgv's command line are the arguments.
  pub read_words-join_argv :
      (a : Text) (argv : List Text)
      → All IsSafe (a ∷ argv)
      → read_words Mode.plain (join_argv (a ∷ argv)) ≡ some (a, argv)
  unfolding join_argv
  read_words-join_argv a argv h =
      read_words-quote_for_shell a (join_rest argv) h.0
      ∙ ap (prepend a) (read_words-join_rest argv h.1)
      ∙ ap (λ w. some (w, argv)) (append-nil a)
