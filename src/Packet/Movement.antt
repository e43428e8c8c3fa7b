-- ===== src/Packet/Movement.antt =====
-- net/packet.cpp PacketSetPlayerPosition::serialize, PacketSpawnPlayer::serialize and
-- PacketDespawnPlayer::serialize: what the players of the world are told of one another. The list
-- of players stands for the vector of pointers to distinct players.
pub mod Client
pub mod Sizes
use mmocraft.Prelude.{[], Bool, not, ◌&&◌, ◌||◌, List, ◌∷◌, ltb, ◌==◌, if◌then◌else◌}
use mmocraft.Packet.Id
use mmocraft.Packet.Field.{Bytes, write_byte, write_scalar, write_string}
use mmocraft.Player.{Player, username, game_id, update_last_transferred_position}
use mmocraft.Player.Position.{View, view, diff, abs16, raw_coordinate, raw_orientation}

-- set_player_position
unfoldable pub write_absolute : Bytes → Player → View → Bytes
write_absolute buf p latest =
    let buf = write_byte buf Id.set_player_position in
    let buf = write_byte buf (game_id p) in
    let buf = write_scalar 2 buf latest.x in
    let buf = write_scalar 2 buf latest.y in
    let buf = write_scalar 2 buf latest.z in
    let buf = write_byte buf latest.yaw in write_byte buf latest.pitch

-- update_player_position
unfoldable pub write_move : Bytes → Player → View → View → Bytes
write_move buf p latest d =
    let buf = write_byte buf Id.update_player_position in
    let buf = write_byte buf (game_id p) in
    let buf = write_byte buf d.x in
    let buf = write_byte buf d.y in
    let buf = write_byte buf d.z in
    let buf = write_byte buf latest.yaw in write_byte buf latest.pitch

-- update_player_coordinate
unfoldable pub write_coordinate_change : Bytes → Player → View → Bytes
write_coordinate_change buf p d =
    let buf = write_byte buf Id.update_player_coordinate in
    let buf = write_byte buf (game_id p) in
    let buf = write_byte buf d.x in let buf = write_byte buf d.y in write_byte buf d.z

-- update_player_orientation
unfoldable pub write_turn : Bytes → Player → View → Bytes
write_turn buf p latest =
    let buf = write_byte buf Id.update_player_orientation in
    let buf = write_byte buf (game_id p) in
    let buf = write_byte buf latest.yaw in write_byte buf latest.pitch

-- The test of the source names the difference of `y` twice, and that of `z` not at all.
unfoldable pub is_far : View → Bool
is_far d = ltb 32 (abs16 d.x) || (ltb 32 (abs16 d.y) || ltb 32 (abs16 d.y))

-- The body of the loop for the player at `latest_pos`, with the difference from the position that
-- was transferred last.
unfoldable pub write_position : Bytes → Player → Bytes
write_position buf p =
    let latest = p.gamedata.latest_pos in
    let d = diff latest p.last_transferred_pos in
    if is_far (view d)
    then write_absolute buf p (view latest)
    else if not (raw_coordinate d == 0) && not (raw_orientation d == 0)
    then write_move buf p (view latest) (view d)
    else if not (raw_coordinate d == 0)
    then write_coordinate_change buf p (view d)
    else if not (raw_orientation d == 0)
    then write_turn buf p (view latest)
    else buf

-- PacketSetPlayerPosition::serialize, with the bytes written so far: what it writes, and the
-- players as it leaves them.
unfoldable pub serialize_positions : Bytes → List Player → Bytes × List Player
serialize_positions buf [] = (buf, [])
serialize_positions buf (p ∷ ps) =
    let p' = update_last_transferred_position p p.gamedata.latest_pos in
    let (out, rest) = serialize_positions (write_position buf p) ps in (out, p' ∷ rest)

-- The body of the loop of PacketSpawnPlayer::serialize.
unfoldable pub write_spawn : Bytes → Player → Bytes
write_spawn buf p =
    let pos =
      view (
        if not (p.gamedata.latest_pos == 0) then p.gamedata.latest_pos else p.gamedata.spawn_pos) in
    let buf = write_byte buf Id.spawn_player in
    let buf = write_byte buf (game_id p) in
    let buf = write_string buf (username p) in
    let buf = write_scalar 2 buf pos.x in
    let buf = write_scalar 2 buf pos.y in
    let buf = write_scalar 2 buf pos.z in
    let buf = write_byte buf pos.yaw in write_byte buf pos.pitch

-- for (auto player : players) write(buf, player)
unfoldable pub write_all : (Bytes → Player → Bytes) → Bytes → List Player → Bytes
write_all write buf [] = buf
write_all write buf (p ∷ ps) = write_all write (write buf p) ps

unfoldable pub serialize_spawn : List Player → List Player → Bytes
unfolding write_all
serialize_spawn old_players new_players =
    write_all write_spawn (write_all write_spawn [] old_players) new_players

unfoldable pub write_despawn : Bytes → Player → Bytes
write_despawn buf p = write_byte (write_byte buf Id.despawn_player) (game_id p)

unfoldable pub serialize_despawn : List Player → Bytes
unfolding write_all
serialize_despawn players = write_all write_despawn [] players
