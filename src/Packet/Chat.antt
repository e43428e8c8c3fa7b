-- ===== src/Packet/Chat.antt =====
-- net/packet.h and net/packet.cpp PacketChatMessage and PacketDisconnectPlayer.
use mmocraft.Prelude.{ℕ, Bool, false, [], ◌∷◌, ◌==◌}
use mmocraft.Packet.Id
use mmocraft.Packet.Field.{
  Bytes, Reader, ◌>>=◌, ◌>>◌, pure, skip_id, read_byte, read_string, write_byte, write_string,
}

pub record PacketChatMessage : Type 0 where
  pub player_id : ℕ
  pub message : Bytes

unfoldable pub parse : Reader PacketChatMessage
parse = do
  skip_id
  player_id ← read_byte
  message ← read_string
  pure (record { player_id = player_id; message = message })

unfoldable pub write : PacketChatMessage → Bytes
write p =
    let buf = write_byte [] Id.chat_message in
    let buf = write_byte buf p.player_id in write_string buf p.message

unfoldable pub is_command : Bytes → Bool
is_command [] = false
is_command (c ∷ cs) = c == b'/'

-- is_commmand_message
unfoldable pub is_command_message : PacketChatMessage → Bool
unfolding is_command
is_command_message p = is_command p.message

-- PacketDisconnectPlayer, by its reason.
unfoldable pub write_disconnect_player : Bytes → Bytes
write_disconnect_player reason = write_string (write_byte [] Id.disconnect_player) reason
