-- ===== src/World/BlockTask.antt =====
-- game/world_task.h BlockSyncTask: changes of blocks, and players that wait for the level, are handed
-- to the world in one batch. `A` is the type of the pointers to players.
pub mod Order
use mmocraft.Prelude.{ℕ, Bool, not, ◌&&◌, ◌||◌, List, [], ◌∷◌, ◌++◌, ◌==◌, length}
use mmocraft.Task
use mmocraft.Task.{Task}
use mmocraft.Buffer.Double
use mmocraft.Buffer.Double.{DoubleBuffering}
use mmocraft.World.BlockHistory.{Change, add_record}

pub record BlockSyncTask (A : Type 0) : Type 0 where
  pub task : Task
  pub block_history : DoubleBuffering
  pub level_wait_players : List A
  pub level_wait_player_queue : List A

module _ {A : Type 0} where
  unfoldable pub ready : BlockSyncTask A → ℕ → Bool
  ready t now =
      Task.ready t.task now
      && (Double.has_live_data t.block_history || not (length t.level_wait_player_queue == 0))

  unfoldable pub before_scheduling : BlockSyncTask A → ℕ → BlockSyncTask A
  before_scheduling t now = record {
    level_wait_player_queue = t.level_wait_players;
    level_wait_players = t.level_wait_player_queue;
    block_history = Double.snapshot t.block_history;
    task = Task.before_scheduling t.task now;
  }

  unfoldable pub push_player : BlockSyncTask A → A → BlockSyncTask A
  push_player t player = record t {
    level_wait_player_queue = t.level_wait_player_queue ++ (player ∷ []);
  }

  unfoldable pub push_change : BlockSyncTask A → Change → BlockSyncTask A × Bool
  push_change t c =
      let (history, done) = add_record t.block_history c in
      (record t { block_history = history }, done)

  -- on_event_complete: the players and the records that the handler is called with, and the task
  -- after it.
  unfoldable pub on_event_complete : BlockSyncTask A → (List A × List ℕ) × BlockSyncTask A
  on_event_complete t = (
    (t.level_wait_players, Double.get_snapshot_data t.block_history),
    record t {
      level_wait_players = [];
      block_history = Double.clear_snapshot t.block_history;
      task = Task.set_unused t.task;
    },
  )
