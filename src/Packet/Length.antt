-- ===== src/Packet/Length.antt =====
-- Each packet is written with the size that its structure declares.
use mmocraft.Prelude.{[], ℕ, ◌+◌, ◌%◌, ◌≡◌, ◌∷◌, arith, length, length-append}
use mmocraft.Packet.Field.{Bytes, write_byte, write_scalar, write_string}
use mmocraft.Packet.Field.Scalars.{scalar, length-scalar}
use mmocraft.Packet.Field.Strings.{padded, length-padded}
use mmocraft.Packet.Handshake
use mmocraft.Packet.Handshake.{PacketHandshake}
use mmocraft.Packet.SetBlock
use mmocraft.Packet.SetBlock.{PacketSetBlockClient, PacketSetBlockServer}
use mmocraft.Packet.Chat
use mmocraft.Packet.Chat.{PacketChatMessage}
use mmocraft.Packet.Session
use mmocraft.Packet.Extension
use mmocraft.Packet.Extension.{CpeInfo}
use mmocraft.Packet.Size

pub length-write_byte : (buf : Bytes) (v : ℕ) → length (write_byte buf v) ≡ length buf + 1
unfolding write_byte
length-write_byte buf v = omega (arith, length-append buf ((v % 256) ∷ []))

pub length-write_scalar :
    (n : ℕ) (buf : Bytes) (v : ℕ) → length (write_scalar n buf v) ≡ length buf + n
unfolding write_scalar
length-write_scalar n buf v = omega (arith, length-append buf (scalar n v), length-scalar n v)

pub length-write_string : (buf s : Bytes) → length (write_string buf s) ≡ length buf + 64
unfolding write_string
length-write_string buf s = omega (arith, length-append buf (padded s), length-padded s)

pub ruleset lengths = (arith, length-write_byte, length-write_scalar, length-write_string)

-- Every packet that the server writes fills its local buffer of `packet_size` bytes exactly,
-- whatever its fields are.
pub length-write :
    (h : PacketHandshake) (b : PacketSetBlockClient) (s : PacketSetBlockServer)
    (c : PacketChatMessage) (text : Bytes) (info : CpeInfo) (n : ℕ)
    → (length (Handshake.write h) ≡ Size.handshake)
      × (length (SetBlock.write b) ≡ Size.set_block_client)
      × (length (SetBlock.write_server s) ≡ Size.set_block_server)
      × (length (Chat.write c) ≡ Size.chat_message)
      × (length (Chat.write_disconnect_player text) ≡ Size.disconnect_player)
      × (length (Session.write_set_player_id n) ≡ Size.set_player_id)
      × (length Session.write_level_init ≡ Size.level_init)
      × (length Extension.write_ext_info ≡ Size.ext_info)
      × (length (Extension.write_ext_entry text info) ≡ Size.ext_entry)
      × (length (Extension.write_ext_message n text) ≡ Size.ext_message)
      × (length (Extension.write_ext_ping n) ≡ Size.ext_ping)
length-write h b s c text info n = (
  unfold Handshake.write in omega lengths,
  unfold SetBlock.write in omega lengths,
  unfold SetBlock.write_server in omega lengths,
  unfold Chat.write in omega lengths,
  unfold Chat.write_disconnect_player in omega lengths,
  unfold Session.write_set_player_id in omega lengths,
  unfold Session.write_level_init in omega lengths,
  unfold Extension.write_ext_info in omega lengths,
  unfold Extension.write_ext_entry in omega lengths,
  unfold Extension.write_ext_message in omega lengths,
  unfold Extension.write_ext_ping in omega lengths,
)
