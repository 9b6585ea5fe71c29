-- ===== src/Dsl/Token/RoundTrip.antt =====
-- What writeQuoted writes is lexed as one token, and captured as the text that was written.
use go_bake.Base.{
  drop_last-snoc, ℕ, ◌≡◌, refl, ap, true, false, ◌&&◌, Bool-cases, inl, inr, some, [], ◌∷◌, ◌++◌,
  append_assoc, Text, length-append, nat_eq, arith,
}
use go_bake.Dsl.Runes.{copy_runes, valid_runes, copy_runes-valid}
use go_bake.Dsl.Token.{
  quote, backslash, unescape, first_is, last_is, is_quoted, capture_text, capture_exec_elem, escape,
  write_quoted, prepend, scan_body, scan_string,
}

escape-first : (s : Text) → first_is quote (escape s) ≡ false
unfolding escape
escape-first [] = refl
escape-first (c ∷ s) = ground arith

unescape-cons :
    (c : ℕ) (s : Text)
    → (nat_eq c backslash && first_is quote s) ≡ false
    → unescape (c ∷ s) ≡ c ∷ unescape s
unfolding unescape
unescape-cons c [] h = refl
unescape-cons c (d ∷ s) h = ground arith

unescape-escape : (s : Text) → unescape (escape s) ≡ s
unfolding unescape escape
unescape-escape [] = refl
unescape-escape (c ∷ s) =
    ground (arith, unescape-escape s, unescape-cons c (escape s), escape-first s)

last_is-snoc : (s : Text) (c : ℕ) → last_is c (s ++ c ∷ []) ≡ true
last_is-snoc [] c = ground arith
last_is-snoc (d ∷ []) c = ground arith
last_is-snoc (d ∷ e ∷ s) c = last_is-snoc (e ∷ s) c

write_quoted-is_quoted : (s : Text) → is_quoted (write_quoted s) ≡ true
unfolding write_quoted
write_quoted-is_quoted s =
    let t = copy_runes 0 s in
    ground (arith, length-append {0} (escape t) (quote ∷ []), last_is-snoc (quote ∷ escape t) quote)

pub capture_exec_elem-write_quoted :
    (s : Text)
    → valid_runes 0 s ≡ true
    → capture_exec_elem (write_quoted s) ≡ record { value = s; quoted = true }
unfolding capture_exec_elem write_quoted
capture_exec_elem-write_quoted s v =
    let t = copy_runes 0 s in
    rw (write_quoted-is_quoted s, drop_last-snoc (escape t) quote, unescape-escape t)
      (ap (λ u. record { value = u; quoted = true }) (copy_runes-valid 0 s v))

pub capture_text-write_quoted :
    (s : Text) → valid_runes 0 s ≡ true → capture_text (write_quoted s) ≡ s
unfolding capture_text write_quoted
capture_text-write_quoted s v =
    let t = copy_runes 0 s in
    rw (write_quoted-is_quoted s, drop_last-snoc (escape t) quote, unescape-escape t)
      (copy_runes-valid 0 s v)

scan_body-plain :
    (c : ℕ) (t : Text)
    → nat_eq c quote ≡ false
    → (nat_eq c backslash && first_is quote t) ≡ false
    → scan_body (c ∷ t) ≡ prepend (c ∷ []) (scan_body t)
unfolding scan_body
scan_body-plain c [] h k = ground arith
scan_body-plain c (d ∷ t) h k = ground arith

scan_body-end : (rest : Text) → scan_body (quote ∷ rest) ≡ some (quote ∷ [], rest)
unfolding scan_body
scan_body-end [] = refl
scan_body-end (d ∷ rest) = refl

scan_body-escaped :
    (t : Text) {tok rest : Text}
    → scan_body t ≡ some (tok, rest)
    → scan_body (backslash ∷ quote ∷ t) ≡ some (backslash ∷ quote ∷ tok, rest)
unfolding scan_body
scan_body-escaped t h = rw h

escape-first_append : (c : ℕ) (s t : Text) → first_is quote (escape (c ∷ s) ++ t) ≡ false
unfolding escape
escape-first_append c s t = ground arith

scan_body-escape :
    (s t tok rest : Text)
    → (last_is backslash s && first_is quote t) ≡ false
    → scan_body t ≡ some (tok, rest)
    → scan_body (escape s ++ t) ≡ some (escape s ++ tok, rest)
unfolding escape
scan_body-escape [] t tok rest l h = h
scan_body-escape (c ∷ s) t tok rest l h = elim (Bool-cases (nat_eq c quote)) [
  | inl q ↦
      rw q (scan_body-escaped (escape s ++ t) (scan_body-escape s t tok rest (tail_ok s l q) h))
  | inr n ↦
      rw (n, scan_body-plain c (escape s ++ t) n (next_ok s l))
        (rw (scan_body-escape s t tok rest (rest_ok s l) h) refl)
]
  where
    tail_ok :
        (u : Text)
        → (last_is backslash (c ∷ u) && first_is quote t) ≡ false
        → nat_eq c quote ≡ true
        → (last_is backslash u && first_is quote t) ≡ false
    tail_ok [] l q = refl
    tail_ok (d ∷ u) l q = l

    rest_ok :
        (u : Text)
        → (last_is backslash (c ∷ u) && first_is quote t) ≡ false
        → (last_is backslash u && first_is quote t) ≡ false
    rest_ok [] l = refl
    rest_ok (d ∷ u) l = l

    next_ok :
        (u : Text)
        → (last_is backslash (c ∷ u) && first_is quote t) ≡ false
        → (nat_eq c backslash && first_is quote (escape u ++ t)) ≡ false
    next_ok [] l = l
    next_ok (d ∷ u) l = ground (arith, escape-first_append d u t)

pub scan_string-write_quoted :
    (s rest : Text)
    → valid_runes 0 s ≡ true
    → last_is backslash s ≡ false
    → scan_string (write_quoted s ++ rest) ≡ some (write_quoted s, rest)
unfolding scan_string write_quoted
scan_string-write_quoted s rest v h =
    rw (copy_runes-valid 0 s v, append_assoc (escape s) (quote ∷ []) rest)
      (rw (scan_body-escape s (quote ∷ rest) (quote ∷ []) rest (ground arith) (scan_body-end rest))
        refl)

-- A text that the formatter has put into quotes is read back as it was, if it is valid UTF-8 and
-- does not end in a backslash: it is lexed as one token, up to its closing quote, and each of the
-- `Capture` methods gives back the text.
pub write_quoted-read :
    (s rest : Text)
    → valid_runes 0 s ≡ true
    → last_is backslash s ≡ false
    → (scan_string (write_quoted s ++ rest) ≡ some (write_quoted s, rest))
      × (capture_exec_elem (write_quoted s) ≡ record { value = s; quoted = true })
      × (capture_text (write_quoted s) ≡ s)
write_quoted-read s rest v h = (
  scan_string-write_quoted s rest v h,
  capture_exec_elem-write_quoted s v,
  capture_text-write_quoted s v,
)

escape-snoc : (s : Text) → escape (s ++ backslash ∷ []) ≡ escape s ++ backslash ∷ []
unfolding escape
escape-snoc [] = refl
escape-snoc (c ∷ s) = ground (arith, escape-snoc s)

-- A written text that ends in a backslash is not lexed as one token up to its closing quote: when
-- another quote follows, the token runs on over the closing quote, up to where a string that began
-- there would end.
pub scan_string-backslash :
    (s rest tok after : Text)
    → valid_runes 0 (s ++ backslash ∷ []) ≡ true
    → scan_body rest ≡ some (tok, after)
    → scan_string (write_quoted (s ++ backslash ∷ []) ++ rest)
      ≡ some (write_quoted (s ++ backslash ∷ []) ++ tok, after)
unfolding scan_string write_quoted
scan_string-backslash s rest tok after v h =
    let body : scan_body (escape s ++ backslash ∷ quote ∷ rest)
        ≡ some (escape s ++ backslash ∷ quote ∷ tok, after) =
      scan_body-escape s (backslash ∷ quote ∷ rest) (backslash ∷ quote ∷ tok) after (ground arith)
        (scan_body-escaped rest h) in
    rw (copy_runes-valid 0 (s ++ backslash ∷ []) v)
      (simp (escape-snoc, append_assoc) (rw body refl))
