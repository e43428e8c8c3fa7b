-- ===== src/Packet/Id.antt =====
-- net/packet_id.h, and the table of the packets that a client may send in net/packet.cpp.
use mmocraft.Prelude.{ℕ, [], ◌∷◌, ◌==◌, if◌then◌else◌}
use mmocraft.Packet.Size
use mmocraft.Packet.Field.{Bytes}

-- packet_type_id::value: the identifiers that the server reads or writes.
abbrev pub handshake : ℕ
handshake = 0

abbrev pub ping : ℕ
ping = 1

abbrev pub level_initialize : ℕ
level_initialize = 2

abbrev pub level_datachunk : ℕ
level_datachunk = 3

abbrev pub level_finalize : ℕ
level_finalize = 4

abbrev pub set_block_client : ℕ
set_block_client = 5

abbrev pub set_block_server : ℕ
set_block_server = 6

abbrev pub spawn_player : ℕ
spawn_player = 7

abbrev pub set_player_position : ℕ
set_player_position = 8

abbrev pub update_player_position : ℕ
update_player_position = 9

abbrev pub update_player_coordinate : ℕ
update_player_coordinate = 0xA

abbrev pub update_player_orientation : ℕ
update_player_orientation = 0xB

abbrev pub despawn_player : ℕ
despawn_player = 0xC

abbrev pub chat_message : ℕ
chat_message = 0xD

abbrev pub disconnect_player : ℕ
disconnect_player = 0xE

abbrev pub ext_info : ℕ
ext_info = 0x10

abbrev pub ext_entry : ℕ
ext_entry = 0x11

abbrev pub two_way_ping : ℕ
two_way_ping = 0x2B

abbrev pub set_playerid : ℕ
set_playerid = 0x37

abbrev pub ext_message : ℕ
ext_message = 0x38

abbrev pub ext_ping : ℕ
ext_ping = 0x39

abbrev pub invalid : ℕ
invalid = 0xFF

-- protocol_db: the size of each packet that is accepted from a client, 0 for any other id.
unfoldable pub protocol_db : ℕ → ℕ
protocol_db id =
    if id == handshake
    then Size.handshake
    else if id == ping
    then Size.ping
    else if id == set_block_client
    then Size.set_block_client
    else if id == set_player_position
    then Size.set_player_position
    else if id == chat_message
    then Size.chat_message
    else if id == ext_info
    then Size.ext_info
    else if id == two_way_ping
    then Size.two_way_ping
    else if id == ext_entry
    then Size.ext_entry
    else if id == ext_ping
    then Size.ext_ping
    else 0

-- PacketStructure::parse_packet: the id of the packet at the cursor and its size. The list is what
-- lies in the buffer from the cursor on; the caller checks that it is not empty.
unfoldable pub parse_packet : Bytes → ℕ × ℕ
unfolding protocol_db
parse_packet [] = (invalid, 0)
parse_packet (b ∷ bs) = let size = protocol_db b in (if size == 0 then invalid else b, size)
