-- ===== src/Dsl/Format/Blocks/Canonical.antt =====
-- Formatting what is in the formatter's own order: every block is written as before.
use go_bake.Base.{
  ◌≡◌, refl, sym, ap, ◌∙◌, Bool, true, false, ◌||◌, Option, none, some, List, [], ◌∷◌, ◌++◌,
  append-nil, append_assoc, map, Text, collect, sort_by, arith,
}
use go_bake.Base.Sort.Sorted.{sort_by-sort_by, sort_by-map}
use go_bake.Dsl.Ast.{BodyEntry, TargetBlock, ProfileBlock, SuiteBlock, FileEntry, Bakefile}
use go_bake.Dsl.Load.{raw}
use go_bake.Dsl.Order.{order_body_entries}
use go_bake.Dsl.Order.Again.{order_body_entries-again}
use go_bake.Dsl.Format.Blocks.{
  write_body, write_target, write_suite, import_in, suite_in, profile_in, target_in, is_private,
  has_private, blocks_of, blocks, write_dotenv, write_blocks, write_bakefile,
}

-- A file in the order of the formatter: its groups one behind the other, suites, profiles and targets
-- by name, the entries of a suite and of a target's body in their order.
abbrev ordered_body : Option (List BodyEntry) → Option (List BodyEntry)
ordered_body none = none
ordered_body (some es) = some (order_body_entries es)

abbrev ordered_target : TargetBlock → TargetBlock
ordered_target t = record t { body = ordered_body t.body }

abbrev ordered_suite : SuiteBlock → SuiteBlock
ordered_suite s = record s { entries = sort_by raw s.entries }

abbrev private_entry : Bool → List FileEntry
private_entry false = []
private_entry true = FileEntry.private ∷ []

abbrev in_order :
    List Text → Bool → List SuiteBlock → List ProfileBlock → List TargetBlock → List FileEntry
in_order imports private suites profiles targets =
    map FileEntry.import_line imports
    ++ private_entry private
    ++ map FileEntry.suite suites
    ++ map FileEntry.profile profiles
    ++ map FileEntry.target targets

unfoldable pub ordered : Bakefile → Bakefile
unfolding collect has_private
ordered b = record b {
  entries =
      in_order (collect import_in b.entries) (has_private b.entries)
        (map ordered_suite (sort_by (λ s. s.name) (collect suite_in b.entries)))
        (sort_by (λ p. p.name) (collect profile_in b.entries))
        (map ordered_target (sort_by (λ t. t.name) (collect target_in b.entries)));
}

collect-append :
    {A B : Type 0} (f : A → List B) (xs ys : List A)
    → collect f (xs ++ ys) ≡ collect f xs ++ collect f ys
unfolding collect
collect-append f [] ys = refl
collect-append f (x ∷ xs) ys =
    ap (λ zs. f x ++ zs) (collect-append f xs ys)
    ∙ sym (append_assoc (f x) (collect f xs) (collect f ys))

-- A slice of entries of one kind.
collect-kept :
    {A : Type 0} (f : FileEntry → List A) (c : A → FileEntry) (xs : List A)
    → ((x : A) → f (c x) ≡ x ∷ [])
    → collect f (map c xs) ≡ xs
unfolding collect
collect-kept f c [] h = refl
collect-kept f c (x ∷ xs) h = rw (h x) (ap (λ ys. x ∷ ys) (collect-kept f c xs h))

collect-dropped :
    {A B : Type 0} (f : FileEntry → List B) (c : A → FileEntry) (xs : List A)
    → ((x : A) → f (c x) ≡ [])
    → collect f (map c xs) ≡ []
unfolding collect
collect-dropped f c [] h = refl
collect-dropped f c (x ∷ xs) h = rw (h x) (collect-dropped f c xs h)

has_private-append :
    (xs ys : List FileEntry) → has_private (xs ++ ys) ≡ (has_private xs || has_private ys)
unfolding has_private
has_private-append [] ys = refl
has_private-append (x ∷ xs) ys = ground (arith, has_private-append xs ys)

has_private-none :
    {A : Type 0} (c : A → FileEntry) (xs : List A)
    → ((x : A) → is_private (c x) ≡ false)
    → has_private (map c xs) ≡ false
unfolding has_private
has_private-none c [] h = refl
has_private-none c (x ∷ xs) h = rw (h x) (has_private-none c xs h)

private-dropped :
    {A : Type 0} (f : FileEntry → List A) (b : Bool)
    → f FileEntry.private ≡ []
    → collect f (private_entry b) ≡ []
unfolding collect
private-dropped f false h = refl
private-dropped f true h = rw h refl

module _ (is : List Text) (b : Bool) (ss : List SuiteBlock) (ps : List ProfileBlock)
    (ts : List TargetBlock) where
  collect-in_order :
      {A : Type 0} (f : FileEntry → List A) (i p s r t : List A)
      → collect f (map FileEntry.import_line is) ≡ i
      → collect f (private_entry b) ≡ p
      → collect f (map FileEntry.suite ss) ≡ s
      → collect f (map FileEntry.profile ps) ≡ r
      → collect f (map FileEntry.target ts) ≡ t
      → collect f (in_order is b ss ps ts) ≡ i ++ p ++ s ++ r ++ t
  collect-in_order f i p s r t hi hp hs hr ht =
      let a = map FileEntry.import_line is in
      let ab = a ++ private_entry b in
      let abc = ab ++ map FileEntry.suite ss in
      let abcd = abc ++ map FileEntry.profile ps in
      collect-append f abcd (map FileEntry.target ts)
      ∙ rw
          (
            collect-append f abc (map FileEntry.profile ps),
            collect-append f ab (map FileEntry.suite ss),
            collect-append f a (private_entry b),
            hi,
            hp,
            hs,
            hr,
            ht,
          )
          refl

  imports-in_order : collect import_in (in_order is b ss ps ts) ≡ is
  imports-in_order =
      collect-in_order import_in is [] [] [] []
        (collect-kept import_in FileEntry.import_line is (λ x. refl))
        (private-dropped import_in b refl)
        (collect-dropped import_in FileEntry.suite ss (λ x. refl))
        (collect-dropped import_in FileEntry.profile ps (λ x. refl))
        (collect-dropped import_in FileEntry.target ts (λ x. refl))
      ∙ simp append-nil

  suites-in_order : collect suite_in (in_order is b ss ps ts) ≡ ss
  suites-in_order =
      collect-in_order suite_in [] [] ss [] []
        (collect-dropped suite_in FileEntry.import_line is (λ x. refl))
        (private-dropped suite_in b refl) (collect-kept suite_in FileEntry.suite ss (λ x. refl))
        (collect-dropped suite_in FileEntry.profile ps (λ x. refl))
        (collect-dropped suite_in FileEntry.target ts (λ x. refl))
      ∙ simp append-nil

  profiles-in_order : collect profile_in (in_order is b ss ps ts) ≡ ps
  profiles-in_order =
      collect-in_order profile_in [] [] [] ps []
        (collect-dropped profile_in FileEntry.import_line is (λ x. refl))
        (private-dropped profile_in b refl)
        (collect-dropped profile_in FileEntry.suite ss (λ x. refl))
        (collect-kept profile_in FileEntry.profile ps (λ x. refl))
        (collect-dropped profile_in FileEntry.target ts (λ x. refl))
      ∙ simp append-nil

  targets-in_order : collect target_in (in_order is b ss ps ts) ≡ ts
  targets-in_order =
      collect-in_order target_in [] [] [] [] ts
        (collect-dropped target_in FileEntry.import_line is (λ x. refl))
        (private-dropped target_in b refl)
        (collect-dropped target_in FileEntry.suite ss (λ x. refl))
        (collect-dropped target_in FileEntry.profile ps (λ x. refl))
        (collect-kept target_in FileEntry.target ts (λ x. refl))

  private_entry-private : (c : Bool) → has_private (private_entry c) ≡ c
  unfolding has_private
  private_entry-private true = refl
  private_entry-private false = refl

  private-in_order : has_private (in_order is b ss ps ts) ≡ b
  private-in_order =
      let a = map FileEntry.import_line is in
      let ab = a ++ private_entry b in
      let abc = ab ++ map FileEntry.suite ss in
      let abcd = abc ++ map FileEntry.profile ps in
      ground (
        arith,
        has_private-append abcd (map FileEntry.target ts),
        has_private-append abc (map FileEntry.profile ps),
        has_private-append ab (map FileEntry.suite ss),
        has_private-append a (private_entry b),
        has_private-none FileEntry.import_line is (λ x. refl),
        has_private-none FileEntry.suite ss (λ x. refl),
        has_private-none FileEntry.profile ps (λ x. refl),
        has_private-none FileEntry.target ts (λ x. refl),
        private_entry-private b,
      )

write_suite-ordered : (s : SuiteBlock) → write_suite (ordered_suite s) ≡ write_suite s
unfolding write_suite
write_suite-ordered s = rw (sort_by-sort_by raw s.entries) refl

write_body-ordered : (o : Option (List BodyEntry)) → write_body (ordered_body o) ≡ write_body o
unfolding write_body
write_body-ordered none = refl
write_body-ordered (some es) = rw (order_body_entries-again es) refl

write_target-ordered : (t : TargetBlock) → write_target (ordered_target t) ≡ write_target t
unfolding write_target
write_target-ordered t = rw (write_body-ordered t.body) refl

map-map :
    {A : Type 0} (f : A → A) (k : A → Text) (xs : List A)
    → ((x : A) → k (f x) ≡ k x)
    → map k (map f xs) ≡ map k xs
map-map f k [] h = refl
map-map f k (x ∷ xs) h = rw (h x) (ap (λ ys. k x ∷ ys) (map-map f k xs h))

-- Sorting again, and writing each block in its order.
write_sorted :
    {A : Type 0} (key k : A → Text) (f : A → A) (xs : List A)
    → ((x : A) → key (f x) ≡ key x)
    → ((x : A) → k (f x) ≡ k x)
    → map k (sort_by key (map f (sort_by key xs))) ≡ map k (sort_by key xs)
write_sorted key k f xs same h =
    ap (map k) (sort_by-map key f xs same) ∙ map-map f k (sort_by key xs) h

blocks_of-ordered :
    (is : List Text) (b : Bool) (ss : List SuiteBlock) (ps : List ProfileBlock)
    (ts : List TargetBlock)
    → blocks_of is b
        (map ordered_suite (sort_by (λ s. s.name) ss))
        (sort_by (λ p. p.name) ps)
        (map ordered_target (sort_by (λ t. t.name) ts))
      ≡ blocks_of is b ss ps ts
unfolding blocks_of
blocks_of-ordered is b ss ps ts =
    rw
      (
        write_sorted (λ s. s.name) write_suite ordered_suite ss (λ s. refl) write_suite-ordered,
        sort_by-sort_by (λ (p : ProfileBlock). p.name) ps,
        write_sorted (λ t. t.name) write_target ordered_target ts (λ t. refl) write_target-ordered,
      )
      refl

blocks-in_order :
    (is : List Text) (b : Bool) (ss : List SuiteBlock) (ps : List ProfileBlock)
    (ts : List TargetBlock)
    → blocks (in_order is b ss ps ts) ≡ blocks_of is b ss ps ts
unfolding blocks
blocks-in_order is b ss ps ts =
    rw
      (
        imports-in_order is b ss ps ts,
        private-in_order is b ss ps ts,
        suites-in_order is b ss ps ts,
        profiles-in_order is b ss ps ts,
        targets-in_order is b ss ps ts,
      )
      refl

blocks-ordered : (b : Bakefile) → blocks (ordered b).entries ≡ blocks b.entries
unfolding ordered
blocks-ordered b = blocks-in_order _ _ _ _ _ ∙ blocks_of-ordered _ _ _ _ _ ∙ unfold blocks in refl

-- Putting a file into the order of the formatter, groups, suites, profiles and targets, and the
-- entries of suites and of targets, does not change what the formatter writes.
pub write_bakefile-ordered : (b : Bakefile) → write_bakefile (ordered b) ≡ write_bakefile b
unfolding write_bakefile ordered
write_bakefile-ordered b = ap (λ bs. write_dotenv b.dotenv ++ write_blocks bs) (blocks-ordered b)
