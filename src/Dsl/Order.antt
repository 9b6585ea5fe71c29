-- ===== src/Dsl/Order.antt =====
-- orderBodyEntries of internal/dsl/format.go. The switch appends each entry to the slice of its
-- clause (`group`); the slices are then joined in the canonical order.
pub mod Again
pub mod Keeps
use go_bake.Base.{ℕ, Bool, List, [], ◌∷◌, ◌++◌, collect, nat_eq, if◌then◌else◌}
use go_bake.Dsl.Ast.{BodyEntry}

-- The slice of an entry, by the number of its place in the canonical order.
unfoldable pub group : BodyEntry → ℕ
group (BodyEntry.desc _) = 0
group (BodyEntry.deps _) = 1
group (BodyEntry.when_env _) = 2
group (BodyEntry.when_cmd _) = 3
group (BodyEntry.inputs _) = 4
group (BodyEntry.outputs _) = 5
group (BodyEntry.args _) = 6
group (BodyEntry.env _) = 7
group (BodyEntry.cwd _) = 8
group (BodyEntry.tags _) = 9
group BodyEntry.private = 10
group (BodyEntry.passthrough _ _) = 11
group (BodyEntry.pool _) = 12
group (BodyEntry.mutex _) = 13
group (BodyEntry.image _) = 14
group BodyEntry.unsafe = 15
group (BodyEntry.net _) = 16
group (BodyEntry.vol _ _) = 17
group (BodyEntry.steps _) = 18
group (BodyEntry.step _) = 18
group (BodyEntry.workflow _) = 19
group (BodyEntry.daemon _ _ _) = 20
group (BodyEntry.preset _) = 21

-- The entries of one slice, in the order of the source.
unfoldable pub slice : List BodyEntry → ℕ → List BodyEntry
slice [] g = []
slice (e ∷ es) g = if nat_eq (group e) g then e ∷ slice es g else slice es g

abbrev pub canonical : List ℕ
canonical =
    0 ∷ 1 ∷ 2 ∷ 3 ∷ 4 ∷ 5 ∷ 6 ∷ 7 ∷ 8 ∷ 9 ∷ 10 ∷ 11 ∷ 12 ∷ 13 ∷ 14 ∷ 15 ∷ 16 ∷ 17 ∷ 18 ∷ 19 ∷ 20
    ∷ 21 ∷ []

unfoldable pub order_body_entries : List BodyEntry → List BodyEntry
unfolding slice group collect
order_body_entries es = collect (slice es) canonical
