-- ===== src/Tests/Commands.antt =====
-- The commands of the chat server at concrete values.
use mmocraft.Prelude.{ℕ, ◌≡◌, refl, List, [], ◌∷◌, map}
use mmocraft.Player.{c_string}
use mmocraft.ChatCommand.{parse_tokens, parse_from, is_whitespace}
use mmocraft.ChatCommand.Tokens.{words, parse_tokens-words}

-- "/dm a " in a buffer of 8 characters.
abbrev command : List ℕ
command = b'/' ∷ b'd' ∷ b'm' ∷ b' ' ∷ b'a' ∷ b' ' ∷ 0 ∷ 0 ∷ []

parse_tokens-words_example : (parse_tokens command).1 ≡ map c_string (words command)
parse_tokens-words_example = parse_tokens-words command

-- The message is empty, and there all the same.
empty_message : (parse_tokens command).1 ≡ (b'/' ∷ b'd' ∷ b'm' ∷ []) ∷ (b'a' ∷ []) ∷ [] ∷ []
unfolding parse_tokens parse_from is_whitespace c_string
empty_message = refl
