-- ===== src/Resolve/Args/Supplied.antt =====
-- ParseArgs succeeds when the required arguments are supplied.
use mathlib.Core.Path.{subst}
use go_bake.Base.{
  ◌≡◌, ◌≢◌, refl, sym, ap, ◌∙◌, true, Bool-cases, inl, inr, ◌⊎◌, none, some, List, [], ◌∷◌, ◌++◌,
  map, Text, TextMap, lookup, or_else, last_lookup, All, All-map, IsKey, ==_iff, ◌==◌, arith, ◌&&◌,
  if◌then◌else◌,
}
use go_bake.Config.{Target, ArgDecl}
use go_bake.Resolve.Args.{
  dashes, is_declared, Values, read_all, defaults, text_of, missing, Parsed, finish_parse,
  parse_args, passthrough_slots, passthrough_by_step,
}
use go_bake.Resolve.Args.Blobs.{cut-append}
use go_bake.Resolve.Args.Rendered.{
  render, store_all, Plain-render, read_all-render, declared-store_all,
}

missing-none :
    (args : List ArgDecl) (declared : TextMap Text)
    → All (λ a. a.required ≡ true → (text_of (lookup a.name declared) ≢ []) ⊎ (a.default ≢ [])) args
    → missing args declared ≡ none
unfolding missing
missing-none [] declared h = refl
missing-none (a ∷ args) declared h =
    let s = text_of (lookup a.name declared) in
    elim (Bool-cases (a.required && (s == [] && a.default == []))) [
      | inl unfilled ↦ absurd (elim (h.0 (ground arith)) [
        | inl n ↦ n ((==_iff s []).0 (ground (arith, Bool-cases a.required)))
        | inr n ↦
            n (
              (==_iff a.default []).0 (ground (arith, Bool-cases a.required, Bool-cases (s == []))))
      ])
      | inr filled ↦ rw filled (missing-none args declared h.1)
    ]

finish_parse-parsed :
    (tgt : Target) (v : Values) (rest : List Text)
    → missing tgt.args v.declared ≡ none
    → finish_parse tgt v (some rest)
      ≡ Parsed.parsed v (passthrough_by_step (passthrough_slots tgt) (some rest))
unfolding finish_parse
finish_parse-parsed tgt v rest e =
    ap
      (λ o. elim o [
        | some name ↦ Parsed.required_arg_missing name
        | none ↦ Parsed.parsed v (passthrough_by_step (passthrough_slots tgt) (some rest))
      ])
      e

-- ParseArgs on arguments `--key=value`, with no '=' in a key, a "--" and further arguments succeeds
-- when each required argument has a default that is not empty, or else the last value that is given
-- for it is not empty.
pub parse_args-supplied :
    (tgt : Target) (pairs : List (Text × Text)) (rest : List Text)
    → All (λ p. IsKey p.0) pairs
    → All
        (λ a.
          a.required ≡ true
          → (text_of (
                or_else
                  (if is_declared tgt.args a.name then last_lookup a.name pairs else none)
                  (lookup a.name (defaults tgt.args [])))
              ≢ [])
            ⊎ (a.default ≢ []))
        tgt.args
    → (v : Values) × (parse_args tgt (map render pairs ++ dashes ∷ rest)
        ≡ Parsed.parsed v (passthrough_by_step (passthrough_slots tgt) (some rest)))
unfolding parse_args
parse_args-supplied tgt pairs rest keys supplied =
    let initial : Values = record { declared = defaults tgt.args []; live = [] } in
    let v : Values = store_all tgt.args pairs initial in
    let filled : missing tgt.args v.declared ≡ none = missing-none tgt.args v.declared (
      All-map _ _ tgt.args
        (λ a h r.
          subst (λ o. (text_of o ≢ []) ⊎ (a.default ≢ []))
            (sym (declared-store_all tgt.args pairs initial a.name)) (h r))
        supplied) in
    (
      v,
      ap (λ p. finish_parse tgt (read_all tgt.args p.0 initial) p.1)
            (cut-append (map render pairs) rest (Plain-render pairs))
          ∙ ap (λ u. finish_parse tgt u (some rest)) (read_all-render tgt.args pairs initial keys)
          ∙ finish_parse-parsed tgt v rest filled,
    )
