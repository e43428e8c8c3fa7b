-- ===== src/Tests/Broadcasts.antt =====
-- What the world sends at concrete values.
use mmocraft.Prelude.{ℕ, ◌+◌, ◌*◌, ◌^◌, refl, true, false, some, [], ◌∷◌, replicate}
use mmocraft.ConnectionKey
use mmocraft.Connection.{Connection}
use mmocraft.Environment.{ConnectionEntry, ConnectionEnvironment}
use mmocraft.Player.{Player, PlayerType}
use mmocraft.Player.Session.{State}
use mmocraft.World.Broadcast.Delivery.{Online}
use mmocraft.World.Broadcast.Spawn

abbrev player : ℕ → State → State → Player
player key cur next = record {
  connection_key = key;
  player_type = PlayerType.guest;
  name_buffer = replicate 17 0;
  gamedata = record { latest_pos = 0; spawn_pos = 0; level = 0; exp = 0 };
  uuid = [];
  pending_extension_count = 0;
  supported_extensions = [];
  last_transferred_pos = 0;
  last_transferred_pos_tmp = 0;
  last_ping_time = 0;
  state = record { prev = State.initialized; cur = cur; next = next };
}

abbrev connection_of : Player → Connection
connection_of p = record {
  key = p.connection_key;
  is_online = true;
  last_offline_tick = 0;
  last_interaction_tick = 0;
  last_error = 0;
  player = some p;
  send_data = record { mem = []; data_head = 0; data_tail = 0 };
}

abbrev entry_of : Player → ℕ → ConnectionEntry
entry_of p tick = record {
  used = true;
  will_delete = false;
  connection = some (connection_of p);
  created_at = tick;
}

abbrev resident : Player
resident = player (7 * 2 ^ 32) State.spawned State.spawned

abbrev newcomer : Player
newcomer = player (1 + 9 * 2 ^ 32) State.spawning State.spawned

abbrev two_players : ConnectionEnvironment
two_players = record {
  table = entry_of resident 7 ∷ entry_of newcomer 9 ∷ [];
  num_of_connections = 2;
}

newcomer_online : Online two_players.table 1
unfolding ConnectionKey.index ConnectionKey.created_at
newcomer_online = record {
  entry = entry_of newcomer 9;
  conn = connection_of newcomer;
  player = newcomer;
  here = refl;
  live = refl;
  holds = refl;
  plays = refl;
  index = refl;
  age = refl;
}
