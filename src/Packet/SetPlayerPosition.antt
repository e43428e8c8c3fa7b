-- ===== src/Packet/SetPlayerPosition.antt =====
-- net/packet.cpp PacketSetPlayerPosition::parse.
use mmocraft.Prelude.{ℕ}
use mmocraft.Packet.Field.{Reader, ◌>>=◌, ◌>>◌, pure, skip_id, read_byte, read_scalar}
use mmocraft.Player.Position.{of_view}

pub record PacketSetPlayerPosition : Type 0 where
  pub player_id : ℕ
  pub player_pos : ℕ

unfoldable pub parse : Reader PacketSetPlayerPosition
unfolding of_view
parse = do
  skip_id
  player_id ← read_byte
  x ← read_scalar 2
  y ← read_scalar 2
  z ← read_scalar 2
  yaw ← read_byte
  pitch ← read_byte
  pure (record {
    player_id = player_id;
    player_pos = of_view (record { x = x; y = y; z = z; yaw = yaw; pitch = pitch });
  })
