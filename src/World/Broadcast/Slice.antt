-- ===== src/World/Broadcast/Slice.antt =====
-- The bytes of PacketSpawnPlayer::serialize (net/packet.cpp) that World::spawn_player cuts out.
use mmocraft.Prelude.{
  ◌*◌, ◌≡◌, refl, sym, ap, ◌∙◌, List, [], ◌∷◌, ◌++◌, append-nil, append_assoc, arith, length, take,
  drop, drop-append, take-length,
}
use mmocraft.Packet.Field.{Bytes, write_byte, write_scalar, write_string}
use mmocraft.Packet.Size
use mmocraft.Packet.Movement.{write_spawn, write_all, serialize_spawn}
use mmocraft.Packet.Movement.Sizes.{length-write_spawn, length-write_all}
use mmocraft.Player.{Player}

write_spawn-append : (buf : Bytes) (p : Player) → write_spawn buf p ≡ buf ++ write_spawn [] p
unfolding write_spawn write_byte write_scalar write_string
write_spawn-append buf p = simp (append_assoc) refl

write_all-append :
    (buf : Bytes) (ps : List Player)
    → write_all write_spawn buf ps ≡ buf ++ write_all write_spawn [] ps
unfolding write_all
write_all-append buf [] = sym (append-nil buf)
write_all-append buf (p ∷ ps) =
    write_all-append (write_spawn buf p) ps
    ∙ ap (λ b. b ++ write_all write_spawn [] ps) (write_spawn-append buf p)
    ∙ append_assoc buf (write_spawn [] p) (write_all write_spawn [] ps)
    ∙ ap (◌++◌ buf) (sym (write_all-append (write_spawn [] p) ps))

-- The part of the packets that begins behind those of the old players and has the length of those of
-- the new ones is the packets of the new players.
pub serialize_spawn-slice :
    (olds news : List Player)
    → take
        (length news * Size.spawn_player)
        (drop (length olds * Size.spawn_player) (serialize_spawn olds news))
      ≡ serialize_spawn [] news
unfolding serialize_spawn write_all
serialize_spawn-slice olds news =
    let first : Bytes = write_all write_spawn [] olds in
    let second : Bytes = write_all write_spawn [] news in
    let size : (ps : List Player) → length (write_all write_spawn [] ps) ≡ length ps * 74 =
      λ ps. omega (arith, length-write_all write_spawn 74 length-write_spawn [] ps) in
    ap (λ b. take (length news * 74) (drop (length olds * 74) b)) (write_all-append first news)
    ∙ ap (take (length news * 74)) (drop-append (length olds * 74) first second (size olds))
    ∙ take-length (length news * 74) second (omega (arith, size news))
