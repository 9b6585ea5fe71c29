-- ===== src/Runner/Shell.antt =====
-- joinArgv of internal/runner/runner.go and its helpers: the command line that a step's runner gets.
pub mod Words
mod Tests
use go_bake.Base.{Bool, true, false, ◌||◌, List, [], ◌∷◌, ◌++◌, Text, nat_eq, if◌then◌else◌, ℕ}

abbrev pub needs_quote : ℕ → Bool
needs_quote c = nat_eq c b' ' || (nat_eq c b'\'' || (nat_eq c b'"' || nat_eq c b'\\'))

unfoldable pub escape_single_quoted : Text → Text
escape_single_quoted [] = []
escape_single_quoted (c ∷ s) =
    let rest = escape_single_quoted s in
    if nat_eq c b'\'' then b'\'' ∷ b'\\' ∷ b'\'' ∷ b'\'' ∷ rest else c ∷ rest

-- The loop looks for a byte that needs quotes.
unfoldable pub has_special : Text → Bool
has_special [] = false
has_special (c ∷ s) = needs_quote c || has_special s

unfoldable pub quote_for_shell : Text → Text
unfolding has_special escape_single_quoted
quote_for_shell s = if has_special s then b'\'' ∷ (escape_single_quoted s ++ b'\'' ∷ []) else s

-- The turns of the loop with an index above 0.
unfoldable pub join_rest : List Text → Text
unfolding quote_for_shell
join_rest [] = []
join_rest (a ∷ argv) = b' ' ∷ (quote_for_shell a ++ join_rest argv)

unfoldable pub join_argv : List Text → Text
unfolding quote_for_shell join_rest
join_argv [] = []
join_argv (a ∷ argv) = quote_for_shell a ++ join_rest argv
