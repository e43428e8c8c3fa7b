-- ===== src/Packet/Session.antt =====
-- net/packet.h and net/packet.cpp PacketSetPlayerID and PacketLevelInit.
use mmocraft.Prelude.{ℕ, ◌%◌, []}
use mmocraft.Packet.Id
use mmocraft.Packet.Field.{Bytes, write_byte}

-- PacketSetPlayerID, by its id, which the constructor cuts to a byte.
unfoldable pub write_set_player_id : ℕ → Bytes
write_set_player_id player_id = write_byte (write_byte [] Id.set_playerid) (player_id % 256)

-- PacketLevelInit
unfoldable pub write_level_init : Bytes
write_level_init = write_byte [] Id.level_initialize
