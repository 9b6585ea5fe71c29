-- ===== src/Runner/Shell/Tests.antt =====
-- joinArgv on small arguments.
use go_bake.Base.{◌≡◌, ◌≢◌, refl, ℕ, Bool, true, inl, inr, some, none, [], ◌∷◌, Text, leb, ◌&&◌}
use go_bake.Runner.Shell.{escape_single_quoted, has_special, quote_for_shell, join_rest, join_argv}
use go_bake.Runner.Shell.Words.{Mode, read_words, read_words-join_argv}

abbrev lower : ℕ → Bool
lower c = leb b'a' c && leb c b'z'

abbrev echo : Text
echo = b'e' ∷ b'c' ∷ []

-- `it's $x`
abbrev message : Text
message = b'i' ∷ b'\'' ∷ b's' ∷ b' ' ∷ b'$' ∷ []

join_argv-message :
    join_argv (echo ∷ message ∷ [])
    ≡ b'e' ∷ b'c' ∷ b' ' ∷ b'\'' ∷ b'i' ∷ b'\'' ∷ b'\\' ∷ b'\'' ∷ b'\'' ∷ b's' ∷ b' ' ∷ b'$' ∷ b'\''
      ∷ []
unfolding join_argv quote_for_shell has_special escape_single_quoted join_rest
join_argv-message = refl

-- An argument that only holds a byte with a meaning to the shell is not quoted.
read_words-dollar : read_words lower Mode.plain (join_argv (echo ∷ (b'$' ∷ []) ∷ [])) ≡ none
unfolding join_argv quote_for_shell has_special join_rest read_words
read_words-dollar = refl

-- An empty argument is lost.
read_words-empty :
    read_words lower Mode.plain (join_argv (echo ∷ [] ∷ echo ∷ [])) ≡ some (echo, echo ∷ [])
unfolding join_argv quote_for_shell has_special join_rest read_words
read_words-empty = refl

echo-not_empty : echo ≢ []
echo-not_empty e = cc

message-not_empty : message ≢ []
message-not_empty e = cc

message-special : has_special message ≡ true
unfolding has_special
message-special = refl

read_words-join_argv_example :
    read_words lower Mode.plain (join_argv (echo ∷ message ∷ [])) ≡ some (echo, message ∷ [])
read_words-join_argv_example =
    read_words-join_argv lower echo (message ∷ [])
      ((echo-not_empty, inr (refl, (refl, tt))), ((message-not_empty, inl message-special), tt))
