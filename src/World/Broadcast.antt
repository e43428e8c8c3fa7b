-- ===== src/World/Broadcast.antt =====
-- game/world.h and game/world.cpp: what the world sends to the players, and select_players of
-- net/connection_environment.cpp. A pointer to a player is the slot of its connection. A callback is
-- what it does to its player; none stands for the null pointer.
pub mod Delivery
pub mod Slice
pub mod Spawn
use mmocraft.Prelude.{
  ℕ, suc, ◌*◌, Bool, false, not, ◌&&◌, Option, none, some, List, [], ◌∷◌, if◌then◌else◌, length,
  take, drop,
}
use mmocraft.ConnectionKey
use mmocraft.Buffer.LockFree
use mmocraft.Connection.{Connection}
use mmocraft.Environment.{
  ConnectionEntry, Table, ConnectionEnvironment, connection_at, try_acquire_connection,
}
use mmocraft.Server.{update_connection}
use mmocraft.Packet.Size
use mmocraft.Packet.Extension
use mmocraft.Packet.Movement.{serialize_spawn, serialize_despawn}
use mmocraft.Player.{Player}
use mmocraft.Player.Session.{State, at_least, transit_state}

abbrev pub player_at : Table → ℕ → Option Player
player_at table i = elim (connection_at table i) [ none ↦ none | some c ↦ c.player ]

abbrev pub players_at : Table → List ℕ → List Player
players_at table [] = []
players_at table (i ∷ is) = elim (player_at table i) [
  | none ↦ players_at table is
  | some p ↦ p ∷ players_at table is
]

-- Whether select_players takes the player of an entry.
abbrev pub is_selected : (Player → Bool) → ConnectionEntry → Bool
is_selected filter e = not e.will_delete && (elim e.connection [
  | none ↦ false
  | some c ↦ elim c.player [ none ↦ false | some p ↦ filter p ]
])

-- The loop of select_players from slot `i` on.
unfoldable pub select_from : (Player → Bool) → ℕ → Table → List ℕ
select_from filter i [] = []
select_from filter i (e ∷ es) =
    let rest = select_from filter (suc i) es in if is_selected filter e then i ∷ rest else rest

unfoldable pub select_players : (Player → Bool) → ConnectionEnvironment → List ℕ
select_players filter env = select_from filter 0 env.table

abbrev pub has_reached : State → Player → Bool
has_reached state p = at_least p.state.cur state

abbrev pub Callback : Type 0
Callback = Option (Player → Player)

abbrev pub apply_callback : Callback → Connection → Connection
apply_callback none c = c
apply_callback (some f) c = elim c.player [ none ↦ c | some p ↦ record c { player = some (f p) } ]

-- The callback that send_to_players calls when the data is pushed: the `else` belongs to the inner
-- `if`.
unfoldable pub called : Callback → Callback → Connection → Connection
called none failed c = apply_callback failed c
called (some f) failed c = apply_callback (some f) c

-- The body of the loop of send_to_players.
unfoldable pub send_to_player :
    List ℕ → Callback → Callback → ℕ → ConnectionEnvironment → ConnectionEnvironment
unfolding update_connection
send_to_player bytes successed failed slot env = elim (player_at env.table slot) [
  | none ↦ env
  | some p ↦ elim (try_acquire_connection env p.connection_key) [
    | none ↦ env
    | some c ↦
        let (sent, done) = LockFree.push c.send_data bytes in
        let pushed =
          update_connection (ConnectionKey.index p.connection_key)
            (λ c. record c { send_data = sent }) env.table in
        record env {
          table = if done then update_connection slot (called successed failed) pushed else pushed;
        }
  ]
]

unfoldable pub send_to_players :
    List ℕ → Callback → Callback → List ℕ → ConnectionEnvironment → ConnectionEnvironment
send_to_players bytes successed failed [] env = env
send_to_players bytes successed failed (slot ∷ slots) env =
    send_to_players bytes successed failed slots (send_to_player bytes successed failed slot env)

unfoldable pub send_to_specific_players :
    State → List ℕ → ConnectionEnvironment → ConnectionEnvironment
send_to_specific_players state bytes env =
    send_to_players bytes none none (select_players (has_reached state) env) env

abbrev pub transited : Player → Player
transited p = record p { state = transit_state p.state }

unfoldable pub spawn_player : List ℕ → ConnectionEnvironment → ConnectionEnvironment
spawn_player spawn_wait_players env =
    let old_players = select_players (has_reached State.spawned) env in
    let spawn_packet_data =
      serialize_spawn (players_at env.table old_players)
        (players_at env.table spawn_wait_players) in
    let told = send_to_players spawn_packet_data (some transited) none spawn_wait_players env in
    let new_players_spawn_packet_data =
      take (length spawn_wait_players * Size.spawn_player)
        (drop (length old_players * Size.spawn_player) spawn_packet_data) in
    send_to_players new_players_spawn_packet_data none none old_players told

unfoldable pub despawn_player : List ℕ → ConnectionEnvironment → ConnectionEnvironment
despawn_player spawned_players env =
    send_to_specific_players State.spawned
      (serialize_despawn (players_at env.table spawned_players)) env

-- The players of disconnect_player that the others have seen.
unfoldable pub seen_players : Table → List ℕ → List ℕ
seen_players table [] = []
seen_players table (slot ∷ slots) =
    let rest = seen_players table slots in
    elim (player_at table slot) [
      | none ↦ rest
      | some p ↦ if at_least p.state.prev State.spawned then slot ∷ rest else rest
    ]

-- The second loop of disconnect_player, with the players that are saved.
unfoldable pub save_players : List ℕ → ConnectionEnvironment → ConnectionEnvironment × List Player
unfolding update_connection
save_players [] env = (env, [])
save_players (slot ∷ slots) env = elim (player_at env.table slot) [
  | none ↦ save_players slots env
  | some p ↦ elim (try_acquire_connection env p.connection_key) [
    | none ↦ save_players slots env
    | some c ↦
        let (env', saved) = save_players slots (record env {
          table = update_connection slot (apply_callback (some transited)) env.table;
        }) in
        (env', p ∷ saved)
  ]
]

unfoldable pub disconnect_player :
    List ℕ → ConnectionEnvironment → ConnectionEnvironment × List Player
disconnect_player disconnect_wait_players env =
    save_players disconnect_wait_players
      (despawn_player (seen_players env.table disconnect_wait_players) env)

unfoldable pub broadcast_to_world_player :
    ℕ → List ℕ → ConnectionEnvironment → ConnectionEnvironment
broadcast_to_world_player message_type message env =
    send_to_players (Extension.write_ext_message message_type message) none none
      (select_players (has_reached State.spawned) env) env
