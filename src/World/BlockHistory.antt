-- ===== src/World/BlockHistory.antt =====
-- game/history_buffer.h, game/history_buffer.cpp: the changes of blocks since the last snapshot, as
-- packets in a double buffer; and World::commit_block_changes of game/world.cpp, which applies them
-- to the map of blocks.
pub mod Commit
use mmocraft.Prelude.{
  length, ℕ, zero, suc, ◌+◌, ◌-◌, ◌*◌, ◌/◌, ◌%◌, ◌^◌, Bool, List, [], ◌∷◌, ◌++◌, ltb, if◌then◌else◌,
  get_or, set, take, drop,
}
use mmocraft.Packet.Field.{Bytes, to_memory, of_memory, byteswap}
use mmocraft.Packet.Id
use mmocraft.Buffer.Double
use mmocraft.Buffer.Double.{DoubleBuffering}

-- The arguments of add_record: the 16-bit coordinates and the block.
pub record Change : Type 0 where
  pub x : ℕ
  pub y : ℕ
  pub z : ℕ
  pub block_id : ℕ

pub record BlockHistoryRecord : Type 0 where
  pub packet_id : ℕ
  pub x : ℕ
  pub y : ℕ
  pub z : ℕ
  pub block_id : ℕ

abbrev pub history_data_unit_size : ℕ
history_data_unit_size = 8

-- The packed record of a change, as it lies in memory.
unfoldable pub record_bytes : Change → Bytes
record_bytes c =
    Id.set_block_server
    ∷ (to_memory 2 (byteswap 2 c.x)
        ++ (to_memory 2 (byteswap 2 c.y)
            ++ (to_memory 2 (byteswap 2 c.z) ++ ((c.block_id % 256) ∷ []))))

unfoldable pub add_record : DoubleBuffering → Change → DoubleBuffering × Bool
add_record d c = Double.push d (record_bytes c)

-- The record at an index of the snapshot's bytes.
unfoldable pub get_record : Bytes → ℕ → BlockHistoryRecord
get_record snapshot index =
    let bytes = drop (index * history_data_unit_size) snapshot in
    record {
      packet_id = get_or bytes 0 0;
      x = of_memory (take 2 (drop 1 bytes));
      y = of_memory (take 2 (drop 3 bytes));
      z = of_memory (take 2 (drop 5 bytes));
      block_id = get_or bytes 7 0;
    }

abbrev pub history_size : Bytes → ℕ
history_size snapshot = length snapshot / history_data_unit_size

-- What of the world's metadata is used here; the numbers are not negative, and below 2 ^ 31 except the
-- volume, which is below 2 ^ 32.
pub record WorldMetadata : Type 0 where
  pub width : ℕ
  pub length : ℕ
  pub volume : ℕ

abbrev pub block_file_header_size : ℕ
block_file_header_size = 4

-- The conversion of a product of two `int`s to std::size_t. The language leaves the overflow of the
-- product undefined; here it wraps around as the machine's multiplication does.
unfoldable pub of_int : ℕ → ℕ
of_int v = let bits = v % 2 ^ 32 in if ltb bits (2 ^ 31) then bits else bits + (2 ^ 64 - 2 ^ 32)

unfoldable pub coordinate_to_block_map_index : WorldMetadata → ℕ → ℕ → ℕ → ℕ
coordinate_to_block_map_index m x y z =
    (block_file_header_size
      + byteswap 2 x
      + of_int (m.width * byteswap 2 z)
      + of_int (m.width * m.length * byteswap 2 y))
    % 2 ^ 64

-- The body of the loop. `block_array` is the mapped file, its header included.
unfoldable pub commit_record : WorldMetadata → BlockHistoryRecord → List ℕ → List ℕ
commit_record m r block_array =
    let block_map_index = coordinate_to_block_map_index m r.x r.y r.z in
    if ltb block_map_index m.volume then set block_array block_map_index r.block_id else block_array

-- The loop for `n` more records from `index` on.
unfoldable pub commit_from : WorldMetadata → Bytes → ℕ → ℕ → List ℕ → List ℕ
commit_from m history zero index block_array = block_array
commit_from m history (suc n) index block_array =
    commit_from m history n (suc index) (commit_record m (get_record history index) block_array)

unfoldable pub commit_block_changes : WorldMetadata → Bytes → List ℕ → List ℕ
commit_block_changes m history block_array =
    commit_from m history (history_size history) 0 block_array
