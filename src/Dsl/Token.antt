-- ===== src/Dsl/Token.antt =====
-- Quoted tokens: the String rule of internal/dsl/lexer.go, the `Capture` methods of
-- internal/dsl/ast.go that unquote a token, and writeQuoted of internal/dsl/format.go. A text is a
-- list of bytes; writeQuoted copies its runes, which puts U+FFFD in the place of an invalid byte.
pub mod RoundTrip
use go_bake.Base.{
  drop_last, ℕ, Bool, true, false, ◌&&◌, ◌||◌, Option, none, some, List, [], ◌∷◌, ◌++◌, Text,
  length, nat_eq, leb, if◌then◌else◌,
}
use go_bake.Dsl.Ast.{ExecElem}
use go_bake.Dsl.Runes.{copy_runes}

abbrev pub quote : ℕ
quote = 34

abbrev pub backslash : ℕ
backslash = 92

-- The loop of the `Capture` methods: `\"` becomes `"`.
unfoldable pub unescape : Text → Text
unescape [] = []
unescape (c ∷ []) = c ∷ []
unescape (c ∷ d ∷ s) = elim (nat_eq c backslash && nat_eq d quote) [
  | true ↦ quote ∷ unescape s
  | false ↦ c ∷ unescape (d ∷ s)
]

abbrev pub first_is : ℕ → Text → Bool
first_is a [] = false
first_is a (c ∷ s) = nat_eq c a

abbrev pub last_is : ℕ → Text → Bool
last_is a [] = false
last_is a (c ∷ []) = nat_eq c a
last_is a (c ∷ d ∷ s) = last_is a (d ∷ s)

abbrev drop_first : Text → Text
drop_first [] = []
drop_first (c ∷ s) = s

abbrev pub is_quoted : Text → Bool
is_quoted s = leb 2 (length s) && first_is quote s && last_is quote s

-- `Capture` of QuotedString, EnvValue and SuiteEntryToken.
unfoldable pub capture_text : Text → Text
unfolding unescape
capture_text s = if is_quoted s then unescape (drop_last (drop_first s)) else s

-- `Capture` of ExecElem.
unfoldable pub capture_exec_elem : Text → ExecElem
unfolding unescape
capture_exec_elem s =
    if is_quoted s
    then record { value = unescape (drop_last (drop_first s)); quoted = true }
    else record { value = s; quoted = false }

unfoldable pub escape : Text → Text
escape [] = []
escape (c ∷ s) = if nat_eq c quote then backslash ∷ quote ∷ escape s else c ∷ escape s

unfoldable pub write_quoted : Text → Text
unfolding escape copy_runes
write_quoted s = quote ∷ escape (copy_runes 0 s) ++ quote ∷ []

abbrev pub prepend : Text → Option (Text × Text) → Option (Text × Text)
prepend p none = none
prepend p (some (token, rest)) = some (p ++ token, rest)

abbrev pub or_retry : Option (Text × Text) → Option (Text × Text) → Option (Text × Text)
or_retry none b = b
or_retry (some a) b = some a

-- The part `(\\"|[^"])*"` of the rule, from behind the opening quote: the first alternative that
-- lets the rest match, the longer one before the shorter.
unfoldable pub scan_body : Text → Option (Text × Text)
scan_body [] = none
scan_body (c ∷ []) = if nat_eq c quote then some (quote ∷ [], []) else none
scan_body (c ∷ d ∷ s) = elim (nat_eq c quote) [
  | true ↦ some (quote ∷ [], d ∷ s)
  | false ↦
      let plain = prepend (c ∷ []) (scan_body (d ∷ s)) in
      if nat_eq c backslash && nat_eq d quote
      then or_retry (prepend (c ∷ d ∷ []) (scan_body s)) plain
      else plain
]

-- A String token at the start of a text, and the text behind it.
unfoldable pub scan_string : Text → Option (Text × Text)
unfolding scan_body
scan_string [] = none
scan_string (c ∷ s) = if nat_eq c quote then prepend (quote ∷ []) (scan_body s) else none
