-- ===== src/Tests/Packets.antt =====
-- Packets, positions and names at concrete values.
use mmocraft.Prelude.{
  ℕ, ◌+◌, ◌*◌, ◌^◌, ◌≡◌, refl, ◌≢◌, inl, inr, some, [], ◌∷◌, ◌++◌, arith, replicate,
}
use mmocraft.Player.{Player, PlayerType, new_player, set_position}
use mmocraft.Player.Position.{view, of_view, diff, abs16}
use mmocraft.Packet.Field.{Bytes}
use mmocraft.Packet.Handshake
use mmocraft.Packet.Handshake.{PacketHandshake}
use mmocraft.Packet.SetBlock.{PacketSetBlockClient, PacketSetBlockServer}
use mmocraft.Packet.Chat.{PacketChatMessage}
use mmocraft.Packet.Extension.{CpeInfo}
use mmocraft.Packet.RoundTrip
use mmocraft.Packet.Movement.{write_position, is_far}
use mmocraft.Packet.Movement.Client.{receive, receive-write_position, receive-write_position_ne}

abbrev name : Bytes
name = b'n' ∷ b'o' ∷ b't' ∷ b'c' ∷ b'h' ∷ []

abbrev packet : PacketHandshake
packet = record { protocol_version = 7; username = name; password = []; cpe_magic = 0x42 }

handshake-parse-write_example :
    Handshake.parse (Handshake.write packet ++ (1 ∷ [])) ≡ some (packet, 1 ∷ [])
handshake-parse-write_example = RoundTrip.handshake-parse-write packet (1 ∷ []) (record {
  version_in = omega arith;
  username_fits = omega arith;
  username_clean = inr (omega arith);
  password_fits = omega arith;
  password_clean = inl refl;
  magic_in = omega arith;
})

abbrev block : PacketSetBlockClient
block = record { x = 300; y = 2; z = 65535; mode = 1; block_id = 49 }

abbrev message : PacketChatMessage
message = record { player_id = 5; message = name }

abbrev cpe : CpeInfo
cpe = record { index = 1; version = 1 }

-- A player at the given position, of whom clients know the position `known`.
abbrev player_at : ℕ → ℕ → Player
player_at pos known =
    let p = new_player PlayerType.guest (replicate 17 0) 3 name in
    record (set_position p pos) { last_transferred_pos = known }

abbrev near : Player
near = player_at (2 ^ 32 + 20) 0

receive-write_position_example :
    receive (view near.last_transferred_pos) (write_position [] near)
    ≡ view near.gamedata.latest_pos
unfolding abs16 view diff of_view set_position new_player
receive-write_position_example = receive-write_position near (inr (omega arith))

abbrev astray : Player
astray = player_at (1000 * 2 ^ 32 + 1) 0

receive-write_position_ne_example :
    (receive (view astray.last_transferred_pos) (write_position [] astray)).z
    ≢ (view astray.gamedata.latest_pos).z
unfolding is_far abs16 view diff of_view set_position new_player
receive-write_position_ne_example = receive-write_position_ne astray refl (omega arith)

abbrev server_block : PacketSetBlockServer
server_block = record { x = 1; y = 2; z = 3; block_id = 4 }
