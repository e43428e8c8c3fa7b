-- ===== src/Tests/Worlds.antt =====
-- The world's blocks and the object pool at concrete values.
use mmocraft.Prelude.{
  ℕ, ◌^◌, ◌≡◌, refl, ◌⊎◌, inl, true, false, List, [], ◌∷◌, arith, if◌then◌else◌, replicate,
}
use mmocraft.Buffer.Double
use mmocraft.Buffer.Double.{DoubleBuffering}
use mmocraft.Packet.Field.{to_memory, of_memory, byteswap}
use mmocraft.World.BlockHistory.{
  coordinate_to_block_map_index, of_int, Change, WorldMetadata, add_record, commit_block_changes,
}
use mmocraft.World.BlockHistory.Commit.{IsChange, apply_changes, commit-add_record}
use mmocraft.Player.{Player, PlayerType, new_player}
use mmocraft.Player.Session.{State}
use mmocraft.Task
use mmocraft.World.BlockTask.Order
use mmocraft.World.BlockTask.Order.{run-IsInOrder_blocks}
use mmocraft.World.Session
use mmocraft.World.Session.{Spawn, Event, transit_player_state}
use mmocraft.World.Session.Moves.{IsPlanned}
use mmocraft.World.Session.Progress.{Passes, IsWalk, run-IsWalk, level_sent_disconnecting}
use mmocraft.ObjectPool.{
  ObjectPool, new_pool, new_object, is_free, get_free_object_index, find_free, bit_scan_forward,
  extend_capacity, reserve,
}
use mmocraft.ObjectPool.Slots.{IsValid}
use mmocraft.ObjectPool.Creation.{Created, new_object-Created, new_object-full}
use mmocraft.ObjectPool.Start.{new_pool-IsValid}

abbrev metadata : WorldMetadata
metadata = record { width = 2; length = 2; volume = 8 }

abbrev blocks : List ℕ
blocks = 0 ∷ 0 ∷ 0 ∷ 8 ∷ replicate 8 3

abbrev change : Change
change = record { x = 1; y = 0; z = 1; block_id = 49 }

abbrev change-IsChange : IsChange metadata change
change-IsChange = record {
  x_in = omega arith;
  y_in = omega arith;
  z_in = omega arith;
  block_id_in = omega arith;
  z_fits = omega arith;
  y_fits = omega arith;
}

-- Coordinates outside a world of 256 * 256 blocks whose index is that of its first block.
abbrev wide : WorldMetadata
wide = record { width = 256; length = 256; volume = 2 ^ 22 }

overflow_first_block :
    coordinate_to_block_map_index wide (byteswap 2 0) (byteswap 2 65535) (byteswap 2 256) ≡ 4
unfolding coordinate_to_block_map_index of_int byteswap to_memory of_memory
overflow_first_block = refl

abbrev history : DoubleBuffering
history = record {
  swapped = true;
  first = record { mem = replicate 20 0; buf_size = 0 };
  second = record { mem = replicate 20 0; buf_size = 0 };
}

commit-add_record_example :
    commit_block_changes metadata
      (Double.get_snapshot_data (Double.snapshot (add_record history change).0))
      blocks
    ≡ apply_changes metadata (if (add_record history change).1 then change ∷ [] else []) blocks
unfolding Double.live_data
commit-add_record_example =
    commit-add_record metadata history [] change blocks
      (record { first_fits = omega arith; second_fits = omega arith }) refl tt change-IsChange

new_object-Created_example :
    Created (new_pool 2) (new_object (λ n. true) (new_pool 2))
    × IsValid (new_object (λ n. true) (new_pool 2)).0
new_object-Created_example =
    new_object-Created (λ n. true) (new_pool 2) (new_pool-IsValid 2 0 (omega arith) (omega arith)).0

-- A pool for one object, which is in use.
abbrev used_pool : ObjectPool
used_pool = record {
  capacity = 1;
  max_capacity = 1;
  free_storage_bitmaps = (false ∷ replicate 63 true) ∷ [];
}

used_pool-IsValid : IsValid used_pool
used_pool-IsValid = record {
  within = omega arith;
  words = refl;
  bits = (refl, tt);
  small = omega arith;
  beyond = λ j l m. let e : j ≡ 1 = omega arith in rw e refl;
}

new_object-full_example : is_free used_pool 0 ≡ false
unfolding new_object get_free_object_index find_free bit_scan_forward extend_capacity reserve
new_object-full_example =
    new_object-full (λ n. true) used_pool 0 used_pool-IsValid (λ n. refl) refl (omega arith)

abbrev player : Player
player = new_player PlayerType.guest (replicate 17 0) 7 (b'a' ∷ [])

abbrev spawn : Spawn
spawn = record { spawn_x = 5; spawn_y = 10; spawn_z = 5; spawn_yaw = 0; spawn_pitch = 0 }

abbrev login : List Event
login =
    Session.began false player
    ∷ Session.answered
    ∷ Session.ticked spawn true 10
    ∷ Session.level_sent
    ∷ Session.ticked spawn true 20
    ∷ Session.spawned_to
    ∷ []

run-IsWalk_example :
    IsWalk login player
    × IsPlanned (Session.run login player).state
    × ((Session.run login player).state.cur ≡ State.spawned
        → Passes State.level_initialized login player
          ⊎ ((player.state.cur ≡ State.spawning) ⊎ (player.state.cur ≡ State.spawned)))
    × ((Session.run login player).state.cur ≡ State.disconnected
        → Passes State.disconnecting login player ⊎ (player.state.cur ≡ State.disconnected))
unfolding new_player
run-IsWalk_example = run-IsWalk login player (inl refl)

abbrev loading : Player
loading = record player {
  state = record {
    prev = State.handshaked;
    cur = State.level_initializing;
    next = State.level_initialized;
  };
}

level_sent_disconnecting_example :
    (transit_player_state spawn true 30
      (Session.run (Session.disconnected ∷ Session.level_sent ∷ []) loading)).1
    ≡ Session.closed
level_sent_disconnecting_example = level_sent_disconnecting loading spawn true 30 refl

abbrev sync_events : List (Order.Event ℕ)
sync_events = Order.changed change ∷ Order.waited 3 ∷ Order.looped 9 ∷ Order.completed ∷ []

abbrev sync_start : Order.History ℕ
sync_start = record {
  sync = record {
    task = record { state = Task.unused; interval_ms = 50; cooldown_at = 0 };
    block_history = history;
    level_wait_players = [];
    level_wait_player_queue = [];
  };
  served = [];
  joined = [];
  delivered = [];
  accepted = [];
}
