-- ===== src/Packet/Movement/Sizes.antt =====
-- No serializer of player lists writes past the buffer that it allocates.
use mmocraft.Prelude.{ℕ, ◌+◌, ◌*◌, ◌≤◌, ◌≡◌, List, [], ◌∷◌, arith, length}
use mmocraft.Packet.Field.{Bytes}
use mmocraft.Packet.Length.{lengths}
use mmocraft.Packet.Size
use mmocraft.Player.{Player}
use mmocraft.Player.Position.{View, view, diff}
use mmocraft.Packet.Movement.{
  write_absolute, write_move, write_coordinate_change, write_turn, write_position,
  serialize_positions, write_spawn, write_all, serialize_spawn, write_despawn, serialize_despawn,
}

module _ (buf : Bytes) (p : Player) (v d : View) where
  length-write_absolute : length (write_absolute buf p v) ≡ length buf + 10
  unfolding write_absolute
  length-write_absolute = omega lengths

  length-write_move : length (write_move buf p v d) ≡ length buf + 7
  unfolding write_move
  length-write_move = omega lengths

  length-write_coordinate_change : length (write_coordinate_change buf p d) ≡ length buf + 5
  unfolding write_coordinate_change
  length-write_coordinate_change = omega lengths

  length-write_turn : length (write_turn buf p v) ≡ length buf + 4
  unfolding write_turn
  length-write_turn = omega lengths

length-write_position : (buf : Bytes) (p : Player) → length (write_position buf p) ≤ length buf + 10
unfolding write_position
length-write_position buf p =
    let latest : ℕ = p.gamedata.latest_pos in
    let v : View = view latest in
    let d : View = view (diff latest p.last_transferred_pos) in
    ground (
      arith,
      length-write_absolute buf p v d,
      length-write_move buf p v d,
      length-write_coordinate_change buf p v d,
      length-write_turn buf p v d,
    )

length-serialize_positions :
    (buf : Bytes) (ps : List Player)
    → length (serialize_positions buf ps).0 ≤ length buf + length ps * 10
unfolding serialize_positions
length-serialize_positions buf [] = omega arith
length-serialize_positions buf (p ∷ ps) =
    omega (arith, length-write_position buf p, length-serialize_positions (write_position buf p) ps)

pub length-write_all :
    (write : Bytes → Player → Bytes) (n : ℕ)
    → ((buf : Bytes) (p : Player) → length (write buf p) ≡ length buf + n)
    → (buf : Bytes) (ps : List Player)
    → length (write_all write buf ps) ≡ length buf + length ps * n
unfolding write_all
length-write_all write n h buf [] = omega arith
length-write_all write n h buf (p ∷ ps) =
    grind (arith, h buf p, length-write_all write n h (write buf p) ps)

pub length-write_spawn : (buf : Bytes) (p : Player) → length (write_spawn buf p) ≡ length buf + 74
unfolding write_spawn
length-write_spawn buf p = omega lengths

length-write_despawn : (buf : Bytes) (p : Player) → length (write_despawn buf p) ≡ length buf + 2
unfolding write_despawn
length-write_despawn buf p = omega lengths

-- The positions of a list of players take at most the `packet_size` bytes for each that are
-- allocated; the spawn packets of two lists and the despawn packets of one take exactly the bytes
-- that are allocated and that the functions return.
pub serialize_fits :
    (ps qs : List Player)
    → (length (serialize_positions [] ps).0 ≤ length ps * Size.set_player_position)
      × (length (serialize_spawn ps qs) ≡ (length ps + length qs) * Size.spawn_player)
      × (length (serialize_despawn ps) ≡ length ps * Size.despawn_player)
unfolding serialize_spawn serialize_despawn
serialize_fits ps qs = (
  omega (arith, length-serialize_positions [] ps),
  omega (
    arith,
    length-write_all write_spawn 74 length-write_spawn [] ps,
    length-write_all write_spawn 74 length-write_spawn (write_all write_spawn [] ps) qs,
  ),
  omega (arith, length-write_all write_despawn 2 length-write_despawn [] ps),
)
