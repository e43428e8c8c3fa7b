-- ===== src/ChatCommand.antt =====
-- mmocraft-chat/net/chat_command.h and mmocraft-chat/net/chat_command.cpp class ChatCommand: a command
-- that a player types, and the lines that its sender and a receiver get.
pub mod Tokens
use mmocraft.Prelude.{
  ℕ, suc, ◌+◌, ◌-◌, Bool, true, ◌&&◌, ◌||◌, Option, none, some, List, [], ◌∷◌, ◌++◌, map, ltb, leb,
  ◌==◌, if◌then◌else◌, length, take, drop, replicate,
}
use mmocraft.Packet.Field.{Bytes, max_string_length}
use mmocraft.Packet.Extension.{bytes_eq}
use mmocraft.Player.{string_copy, c_string}
use mmocraft.Buffer.Memory.{Memory, write_at}

abbrev pub name_size : ℕ
name_size = 16 + 1

pub record ChatCommand : Type 0 where
  pub sender_player_name : Memory
  pub receiver_player_name : Memory
  pub command : Memory
  pub sender_response : Memory
  pub receiver_response : Memory

abbrev pub new_chat_command : ChatCommand
new_chat_command = record {
  sender_player_name = replicate name_size 0;
  receiver_player_name = replicate name_size 0;
  command = replicate max_string_length 0;
  sender_response = replicate max_string_length 0;
  receiver_response = replicate max_string_length 0;
}

-- util::is_whitespace
unfoldable pub is_whitespace : ℕ → Bool
is_whitespace ch = ch == 32 || (leb 9 ch && leb ch 13)

-- The loop of parse_tokens from position `i` on: the characters after it, and where tokens begin.
unfoldable pub parse_from : Bool → ℕ → List ℕ → List ℕ × List ℕ
unfolding is_whitespace
parse_from token_splited i [] = ([], [])
parse_from token_splited i (ch ∷ later) =
    let (marked, tokens) = parse_from (is_whitespace ch) (suc i) later in
    if is_whitespace ch
    then (0 ∷ marked, tokens)
    else (ch ∷ marked, if token_splited then i ∷ tokens else tokens)

-- The command after the loop, and its tokens as the strings that they are.
unfoldable pub parse_tokens : Memory → Memory × List Bytes
unfolding parse_from c_string
parse_tokens command =
    let (marked, tokens) = parse_from true 0 command in
    (marked, map (λ i. c_string (drop i marked)) tokens)

-- The string that a call of strcpy_s or snprintf leaves in a buffer, cut to its size.
abbrev pub put_string : Bytes → Memory → Memory
put_string text mem = write_at mem 0 (take (length mem - 1) text ++ (0 ∷ []))

-- ERROR_COLOR and BLUE_COLOR
abbrev pub error_color : Bytes
error_color = b'&' ∷ b'c' ∷ []

abbrev pub blue_color : Bytes
blue_color = b'&' ∷ b'9' ∷ []

unfoldable pub set_error : Bytes → ChatCommand → ChatCommand
set_error res c = record c { sender_response = put_string (error_color ++ res) c.sender_response }

unfoldable pub format_from_message : Bytes → Bytes → Bytes
format_from_message from message =
    blue_color
    ++ ((b'[' ∷ b'f' ∷ b'r' ∷ b'o' ∷ b'm' ∷ b' ' ∷ []) ++ (from ++ ((b']' ∷ b' ' ∷ []) ++ message)))

unfoldable pub format_to_message : Bytes → Bytes → Bytes
format_to_message to message =
    blue_color ++ ((b'[' ∷ b't' ∷ b'o' ∷ b' ' ∷ []) ++ (to ++ ((b']' ∷ b' ' ∷ []) ++ message)))

-- `tokens` are the strings of parse_tokens. The last one of a command that fills its 64 bytes has no NUL
-- of its own, and the source reads it on into the response that it writes; here it ends with the command.
unfoldable pub execute_direct_message : List Bytes → ChatCommand → ChatCommand
unfolding set_error format_from_message format_to_message string_copy c_string
execute_direct_message (program ∷ to ∷ message ∷ []) c =
    let name = string_copy name_size c.receiver_player_name to in
    record c {
      receiver_player_name = name;
      sender_response =
          put_string (format_from_message (c_string c.sender_player_name) message)
            c.sender_response;
      receiver_response =
          put_string (format_to_message (c_string name) message) c.receiver_response;
    }
execute_direct_message tokens c =
    set_error
      (b'U' ∷ b's' ∷ b'a' ∷ b'g' ∷ b'e' ∷ b':' ∷ b' ' ∷ b'/' ∷ b'd' ∷ b'm' ∷ b' ' ∷ b'T' ∷ b'O'
        ∷ b' ' ∷ b'M' ∷ b'E' ∷ b'S' ∷ b'S' ∷ b'A' ∷ b'G' ∷ b'E' ∷ [])
      c

-- `none` is a command that memcpy_s refuses.
unfoldable pub execute : Bytes → Bytes → ChatCommand → Option ChatCommand
unfolding parse_tokens execute_direct_message set_error bytes_eq string_copy
execute sender_player_name command c =
    let copied = record c {
      sender_player_name = string_copy name_size c.sender_player_name sender_player_name;
      command = write_at c.command 0 command;
    } in
    let (marked, tokens) = parse_tokens copied.command in
    let parsed = record copied { command = marked } in
    if ltb max_string_length (length command)
    then none
    else some (elim tokens [
      | [] ↦
          set_error
            (b'I' ∷ b'n' ∷ b'v' ∷ b'a' ∷ b'l' ∷ b'i' ∷ b'd' ∷ b' ' ∷ b'c' ∷ b'o' ∷ b'm' ∷ b'm'
              ∷ b'a' ∷ b'n' ∷ b'd' ∷ [])
            parsed
      | program ∷ rest ↦
          if bytes_eq (b'/' ∷ b'd' ∷ b'm' ∷ []) program
          then execute_direct_message (program ∷ rest) parsed
          else set_error
              (b'U' ∷ b'n' ∷ b's' ∷ b'u' ∷ b'p' ∷ b'p' ∷ b'o' ∷ b'r' ∷ b't' ∷ b'e' ∷ b'd' ∷ b' '
                ∷ b'c' ∷ b'o' ∷ b'm' ∷ b'm' ∷ b'a' ∷ b'n' ∷ b'd' ∷ [])
              parsed
    ])
