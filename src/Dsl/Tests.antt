-- ===== src/Dsl/Tests.antt =====
-- The syntax tree, its tokens and its compiler on small inputs.
use go_bake.Base.{◌≡◌, refl, true, false, some, List, [], ◌∷◌, ◌++◌, Text}
use go_bake.Config.{new_target}
use go_bake.Dsl.Ast.{BodyEntry, Step}
use go_bake.Dsl.Compile.{compile_body}
use go_bake.Dsl.Order.{order_body_entries}
use go_bake.Dsl.Order.Keeps.{compile_body-order_body_entries}
use go_bake.Dsl.Runes.{valid_runes}
use go_bake.Dsl.Token.{capture_text, capture_exec_elem, write_quoted, scan_string}
use go_bake.Dsl.Token.RoundTrip.{write_quoted-read}

abbrev body : List BodyEntry
body =
    BodyEntry.steps (Step.cmd ((b'm' ∷ []) ∷ []) ∷ [])
    ∷ BodyEntry.deps ((b'a' ∷ []) ∷ [])
    ∷ BodyEntry.private
    ∷ BodyEntry.deps ((b'b' ∷ []) ∷ [])
    ∷ []

abbrev sorted : List BodyEntry
sorted =
    BodyEntry.deps ((b'a' ∷ []) ∷ [])
    ∷ BodyEntry.deps ((b'b' ∷ []) ∷ [])
    ∷ BodyEntry.private
    ∷ BodyEntry.steps (Step.cmd ((b'm' ∷ []) ∷ []) ∷ [])
    ∷ []

order_body_entries-body : order_body_entries body ≡ sorted
unfolding order_body_entries
order_body_entries-body = refl

compile_body-order_body_entries_example :
    compile_body (new_target (b't' ∷ []) false) (order_body_entries body)
    ≡ compile_body (new_target (b't' ∷ []) false) body
compile_body-order_body_entries_example =
    compile_body-order_body_entries (new_target (b't' ∷ []) false) body

-- s"é"
abbrev said : Text
said = b's' ∷ 34 ∷ 195 ∷ 169 ∷ 34 ∷ []

-- A byte in no valid sequence is replaced.
write_quoted-invalid : write_quoted (b's' ∷ 169 ∷ []) ≡ 34 ∷ b's' ∷ 239 ∷ 191 ∷ 189 ∷ 34 ∷ []
unfolding write_quoted
write_quoted-invalid = refl

write_quoted-read_example :
    (scan_string (write_quoted said ++ b',' ∷ []) ≡ some (write_quoted said, b',' ∷ []))
    × (capture_exec_elem (write_quoted said) ≡ record { value = said; quoted = true })
    × (capture_text (write_quoted said) ≡ said)
unfolding valid_runes
write_quoted-read_example = write_quoted-read said (b',' ∷ []) refl refl
