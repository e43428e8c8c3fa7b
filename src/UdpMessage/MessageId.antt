-- ===== src/UdpMessage/MessageId.antt =====
-- net/message_id.h: the ids of the messages between servers.
use mmocraft.Prelude.{ℕ}

abbrev pub server_announcement : ℕ
server_announcement = 2

abbrev pub chat_command : ℕ
chat_command = 3

abbrev pub fetch_config : ℕ
fetch_config = 4

abbrev pub fetch_server_address : ℕ
fetch_server_address = 5

abbrev pub packet_handshake : ℕ
packet_handshake = 6

abbrev pub player_logout : ℕ
player_logout = 7
