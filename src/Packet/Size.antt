-- ===== src/Packet/Size.antt =====
-- The `packet_size` of each packet structure of net/packet.h and net/packet_extension.h.
use mmocraft.Prelude.{ℕ}

abbrev pub handshake : ℕ
handshake = 131

abbrev pub ping : ℕ
ping = 1

abbrev pub level_init : ℕ
level_init = 1

abbrev pub set_block_client : ℕ
set_block_client = 9

abbrev pub set_block_server : ℕ
set_block_server = 8

abbrev pub set_player_position : ℕ
set_player_position = 10

abbrev pub spawn_player : ℕ
spawn_player = 74

abbrev pub despawn_player : ℕ
despawn_player = 2

abbrev pub chat_message : ℕ
chat_message = 66

abbrev pub disconnect_player : ℕ
disconnect_player = 65

abbrev pub set_player_id : ℕ
set_player_id = 2

abbrev pub ext_info : ℕ
ext_info = 67

abbrev pub ext_entry : ℕ
ext_entry = 69

abbrev pub two_way_ping : ℕ
two_way_ping = 4

abbrev pub ext_message : ℕ
ext_message = 66

abbrev pub ext_ping : ℕ
ext_ping = 9
