-- ===== src/Packet/SetBlock.antt =====
-- net/packet.h and net/packet.cpp PacketSetBlockClient and PacketSetBlockServer.
use mmocraft.Prelude.{ℕ, []}
use mmocraft.Packet.Id
use mmocraft.Packet.Field.{
  Bytes, Reader, ◌>>=◌, ◌>>◌, pure, skip_id, read_byte, read_scalar, write_byte, write_short,
}

pub record PacketSetBlockClient : Type 0 where
  pub x : ℕ
  pub y : ℕ
  pub z : ℕ
  pub mode : ℕ
  pub block_id : ℕ

unfoldable pub parse : Reader PacketSetBlockClient
parse = do
  skip_id
  x ← read_scalar 2
  y ← read_scalar 2
  z ← read_scalar 2
  mode ← read_byte
  block_id ← read_byte
  pure (record { x = x; y = y; z = z; mode = mode; block_id = block_id })

unfoldable pub write : PacketSetBlockClient → Bytes
write p =
    let buf = write_byte [] Id.set_block_client in
    let buf = write_short buf p.x in
    let buf = write_short buf p.y in
    let buf = write_short buf p.z in let buf = write_byte buf p.mode in write_byte buf p.block_id

pub record PacketSetBlockServer : Type 0 where
  pub x : ℕ
  pub y : ℕ
  pub z : ℕ
  pub block_id : ℕ

unfoldable pub write_server : PacketSetBlockServer → Bytes
write_server p =
    let buf = write_byte [] Id.set_block_server in
    let buf = write_short buf p.x in
    let buf = write_short buf p.y in let buf = write_short buf p.z in write_byte buf p.block_id
