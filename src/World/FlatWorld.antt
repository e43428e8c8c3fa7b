-- ===== src/World/FlatWorld.antt =====
-- game/world_generator.cpp WorldGenerator::generate_flat_world: the blocks of a new world, without
-- the header of their file. The sizes of a map are small enough for their product to be an int.
pub mod Layers
use mmocraft.Prelude.{ℕ, ◌*◌, ◌/◌, replicate}
use mmocraft.Buffer.Memory.{Memory, write_at}

abbrev pub air : ℕ
air = 0

abbrev pub grass : ℕ
grass = 2

abbrev pub dirt : ℕ
dirt = 3

abbrev pub bedrock : ℕ
bedrock = 7

-- std::memset(mem + off, value, count)
unfoldable pub memset : Memory → ℕ → ℕ → ℕ → Memory
memset mem off value count = write_at mem off (replicate count value)

unfoldable pub generate_flat_world : ℕ → ℕ → ℕ → Memory
unfolding memset
generate_flat_world x y z =
    let plain_size = x * z in
    let blocks = replicate (plain_size * y) air in
    let num_of_dirt_block = plain_size * (y / 2) in
    let blocks = memset blocks 0 dirt num_of_dirt_block in
    let blocks = memset blocks num_of_dirt_block grass plain_size in
    memset blocks 0 bedrock plain_size
