-- ===== src/Env/Lines.antt =====
-- A dotenv line `KEY="value"` is read back.
use go_bake.Base.{
  drop_last-snoc, ◌≡◌, refl, ap, ◌∙◌, ℕ, false, some, [], ◌∷◌, ◌++◌, Text, All, All-map, nat_eq,
  is_space, trim_left, trim_right, trim_space, equals, IsKey, cut_equals-append, if◌then◌else◌,
}
use go_bake.Env.{last_byte, unquote, assignment, trim_pair, parse_trimmed, parse_line}

abbrev pub quote : ℕ
quote = b'"'

-- A name without spaces and '=', that is not empty and does not start a comment.
abbrev pub IsName : Text → Type 0
IsName [] = ⊥
IsName (c ∷ key) =
    (nat_eq c b'#' ≡ false) × All (λ d. (is_space d ≡ false) × (nat_eq d equals ≡ false)) (c ∷ key)

trim_right-cons :
    (c d : ℕ) (s : Text) → trim_right (d ∷ s) ≡ d ∷ s → trim_right (c ∷ d ∷ s) ≡ c ∷ d ∷ s
unfolding trim_right
trim_right-cons c d s h =
    ap (λ r. elim r [ [] ↦ if is_space c then [] else c ∷ [] | e ∷ t ↦ c ∷ e ∷ t ]) h

trim_right-append :
    (xs : Text) (c : ℕ) (ys : Text)
    → trim_right (c ∷ ys) ≡ c ∷ ys
    → trim_right (xs ++ c ∷ ys) ≡ xs ++ c ∷ ys
unfolding trim_right
trim_right-append [] c ys h = h
trim_right-append (x ∷ []) c ys h = trim_right-cons x c ys h
trim_right-append (x ∷ y ∷ xs) c ys h =
    trim_right-cons x y (xs ++ c ∷ ys) (trim_right-append (y ∷ xs) c ys h)

trim_right-plain : (s : Text) → All (λ d. is_space d ≡ false) s → trim_right s ≡ s
unfolding trim_right
trim_right-plain [] h = refl
trim_right-plain (c ∷ []) h = rw h.0 refl
trim_right-plain (c ∷ d ∷ s) h = trim_right-cons c d s (trim_right-plain (d ∷ s) h.1)

trim_left-cons : (c : ℕ) (s : Text) → is_space c ≡ false → trim_left (c ∷ s) ≡ c ∷ s
unfolding trim_left
trim_left-cons c s h = rw h refl

last_byte-snoc : (s : Text) (c : ℕ) → last_byte (s ++ c ∷ []) ≡ c
last_byte-snoc [] c = refl
last_byte-snoc (d ∷ []) c = refl
last_byte-snoc (d ∷ e ∷ s) c = last_byte-snoc (e ∷ s) c

unquote-quote : (value : Text) → unquote (quote ∷ (value ++ quote ∷ [])) ≡ value
unfolding unquote
unquote-quote [] = refl
unquote-quote (c ∷ value) = rw (last_byte-snoc (c ∷ value) quote) (drop_last-snoc (c ∷ value) quote)

trim_space-quote :
    (value : Text) → trim_space (quote ∷ (value ++ quote ∷ [])) ≡ quote ∷ (value ++ quote ∷ [])
trim_space-quote value =
    ap trim_left
      (trim_right-append (quote ∷ value) quote [] (trim_right-plain (quote ∷ []) (refl, tt)))
    ∙ trim_left-cons quote (value ++ quote ∷ []) refl

trim_space-name : (key : Text) → IsName key → trim_space key ≡ key
trim_space-name [] h = absurd h
trim_space-name (c ∷ key) h =
    ap trim_left (trim_right-plain (c ∷ key) (All-map _ _ (c ∷ key) (λ d g. g.0) h.1))
    ∙ trim_left-cons c key h.1.0.0

trim_space-line :
    (c : ℕ) (key value : Text)
    → is_space c ≡ false
    → trim_space (c ∷ (key ++ equals ∷ quote ∷ (value ++ quote ∷ [])))
      ≡ c ∷ (key ++ equals ∷ quote ∷ (value ++ quote ∷ []))
trim_space-line c key value h =
    let end : trim_right (equals ∷ quote ∷ (value ++ quote ∷ []))
        ≡ equals ∷ quote ∷ (value ++ quote ∷ []) =
      trim_right-append (equals ∷ quote ∷ value) quote []
        (trim_right-plain (quote ∷ []) (refl, tt)) in
    ap trim_left (trim_right-append (c ∷ key) equals (quote ∷ (value ++ quote ∷ [])) end)
    ∙ trim_left-cons c (key ++ equals ∷ quote ∷ (value ++ quote ∷ [])) h

-- A line `key="value"` of a dotenv file gives the key and the value, also where the value holds
-- quotes, '=' or spaces: the key is a name that is not empty, without spaces and '=', and does not
-- start a comment.
pub parse_line-quote :
    (key value : Text)
    → IsName key
    → parse_line (key ++ equals ∷ quote ∷ (value ++ quote ∷ [])) ≡ some (key, value)
unfolding parse_line parse_trimmed trim_pair
parse_line-quote [] value h = absurd h
parse_line-quote (c ∷ key) value h =
    let name : IsKey (c ∷ key) = All-map _ _ (c ∷ key) (λ d g. g.1) h.1 in
    ap parse_trimmed (trim_space-line c key value h.1.0.0)
    ∙ rw h.0 (
        ap (λ o. trim_pair (assignment o))
          (cut_equals-append (c ∷ key) (quote ∷ (value ++ quote ∷ [])) name)
        ∙ ap some (
            ap (λ k. (k, unquote (trim_space (quote ∷ (value ++ quote ∷ [])))))
              (trim_space-name (c ∷ key) h)
            ∙ ap (λ v. (c ∷ key, v)) (ap unquote (trim_space-quote value) ∙ unquote-quote value)))
