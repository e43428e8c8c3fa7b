-- ===== src/GameServer/Blocks.antt =====
-- A change of a block that a client asks for is recorded, or the client is told to take it back.
use mmocraft.Prelude.{ℕ, ◌+◌, ◌≤◌, ◌≡◌, ◌++◌, length}
use mmocraft.Packet.Field.{Bytes}
use mmocraft.Packet.SetBlock
use mmocraft.Packet.SetBlock.{PacketSetBlockClient}
use mmocraft.Buffer.Double
use mmocraft.Buffer.Double.{DoubleBuffering}
use mmocraft.Buffer.LockFree
use mmocraft.World.BlockTask
use mmocraft.World.BlockHistory.{Change, record_bytes}
use mmocraft.GameServer.{GameServer, asked, reverted}

-- What is recorded, and what the client gets otherwise.
abbrev pub change_of : PacketSetBlockClient → Change
change_of packet = record { x = packet.x; y = packet.y; z = packet.z; block_id = asked packet }

abbrev pub revert : PacketSetBlockClient → Bytes
revert packet =
    SetBlock.write_server
      (record { x = packet.x; y = packet.y; z = packet.z; block_id = reverted packet })

abbrev pub history : GameServer → DoubleBuffering
history s = s.sync_block_task.block_history

abbrev pub record_size : ℕ
record_size = 8

-- The free bytes of the batch of changes, and of the client's send buffer, are enough.
abbrev pub HasRoom : GameServer → Type 0
HasRoom s = let b = Double.input_buffer (history s) in b.buf_size + record_size ≤ length b.mem

abbrev pub CanSend : GameServer → Type 0
CanSend s = s.conn.send_data.data_tail + record_size ≤ LockFree.capacity s.conn.send_data

-- If the next batch of the world has room, the change is recorded and the connection stays as it is.
-- If not, the batch stays as it is, and the packet that reverts the change is appended to the
-- client's send buffer exactly if that has room for it.
pub data Changed (s s' : GameServer) (packet : PacketSetBlockClient) : Type 0 where
  recorded :
      HasRoom s
      → Double.live_data (history s')
        ≡ Double.live_data (history s) ++ record_bytes (change_of packet)
      → s'.conn ≡ s.conn
      → Changed s s' packet
  taken_back :
      (HasRoom s → ⊥)
      → Double.live_data (history s') ≡ Double.live_data (history s)
      → (CanSend s
          → LockFree.contents s'.conn.send_data
            ≡ LockFree.contents s.conn.send_data ++ revert packet)
      → ((CanSend s → ⊥) → LockFree.contents s'.conn.send_data ≡ LockFree.contents s.conn.send_data)
      → Changed s s' packet
