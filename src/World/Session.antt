-- ===== src/World/Session.antt =====
-- How a session moves on: World::tick of game/world.cpp and what completes its tasks, the packets and
-- messages that net/game_server.cpp handles, and Connection::disconnect.
pub mod Moves
pub mod Progress
use mmocraft.Prelude.{ℕ, ◌+◌, ◌*◌, Bool, false, List, [], ◌∷◌, ltb, ◌==◌, if◌then◌else◌}
use mmocraft.Player.{
  Player, PlayerType, new_player, set_spawn_coordinate, set_spawn_orientation,
  decrease_pending_extension_count,
}
use mmocraft.Player.Session.{at_least, State, PlayerState, transit_state, prepare_state_transition}

-- The spawn of the world's metadata.
pub record Spawn : Type 0 where
  pub spawn_x : ℕ
  pub spawn_y : ℕ
  pub spawn_z : ℕ
  pub spawn_yaw : ℕ
  pub spawn_pitch : ℕ

-- What a tick does for a player beside changing the player.
pub data Action : Type 0 where
  nothing extensions_sent level_wait spawn_wait ping_sent disconnect_wait closed : Action

-- world_task_interval::ping
abbrev pub ping : ℕ
ping = 5 * 1000

abbrev pub prepare : State → State → Player → Player
prepare cur next p = record p { state = prepare_state_transition p.state cur next }

abbrev pub transit : Player → Player
transit p = record p { state = transit_state p.state }

-- The switch of transit_player_state; `sent` is whether both packets of the extensions were sent.
unfoldable pub transit_from : State → Spawn → Bool → ℕ → Player → Player × Action
transit_from State.ex_handshaked w sent now p =
    if sent
    then (prepare State.extension_syncing State.extension_synced p, extensions_sent)
    else (p, nothing)
transit_from State.handshaked w sent now p =
    (prepare State.level_initializing State.level_initialized p, level_wait)
transit_from State.extension_synced w sent now p =
    (prepare State.level_initializing State.level_initialized p, level_wait)
transit_from State.level_initialized w sent now p =
    let placed = set_spawn_coordinate p w.spawn_x w.spawn_y w.spawn_z false in
    let turned = set_spawn_orientation placed w.spawn_yaw w.spawn_pitch false in
    (prepare State.spawning State.spawned turned, spawn_wait)
transit_from State.spawned w sent now p =
    if ltb (p.last_ping_time + ping) now
    then (record p { last_ping_time = now }, ping_sent)
    else (p, nothing)
transit_from State.disconnecting w sent now p = (p, disconnect_wait)
transit_from State.disconnected w sent now p = (p, closed)
transit_from State.invaild w sent now p = (p, nothing)
transit_from State.initialized w sent now p = (p, nothing)
transit_from State.handshaking w sent now p = (p, nothing)
transit_from State.ex_handshaking w sent now p = (p, nothing)
transit_from State.extension_syncing w sent now p = (p, nothing)
transit_from State.level_initializing w sent now p = (p, nothing)
transit_from State.spawning w sent now p = (p, nothing)

unfoldable pub transit_player_state : Spawn → Bool → ℕ → Player → Player × Action
transit_player_state w sent now p = transit_from p.state.cur w sent now p

-- handle_handshake_packet, for the new player that it gives the connection.
unfoldable pub begin_handshake : Bool → Player → Player
begin_handshake has_cpe_support p =
    if has_cpe_support
    then prepare State.ex_handshaking State.ex_handshaked p
    else prepare State.handshaking State.handshaked p

-- handle_ext_entry_packet, behind the registration of the extension.
unfoldable pub count_ext_entry : Player → Player
count_ext_entry p =
    let counted = decrease_pending_extension_count p in
    if counted.pending_extension_count == 0 then transit counted else counted

-- Connection::disconnect, for the player of an online connection. A player that has not begun to
-- log in stays as it is, and the connection goes offline.
unfoldable pub disconnect : Player → Player
disconnect p =
    if at_least p.state.cur State.handshaking
    then prepare State.disconnecting State.disconnected p
    else p

-- What happens to the session of a connection. A transition that is planned is made when the login
-- server answered, when the level was sent, when the player was spawned and when the player was
-- saved.
pub data Event : Type 0 where
  began : Bool → Player → Event
  answered level_sent spawned_to saved : Event
  ext_entry : Event
  ticked : Spawn → Bool → ℕ → Event
  disconnected : Event

unfoldable pub step : Event → Player → Player
step (began has_cpe_support new) p = begin_handshake has_cpe_support new
step answered p = transit p
step level_sent p = transit p
step spawned_to p = transit p
step saved p = transit p
step ext_entry p = count_ext_entry p
step (ticked w sent now) p = (transit_player_state w sent now p).0
step disconnected p = disconnect p

unfoldable pub run : List Event → Player → Player
unfolding step
run [] p = p
run (e ∷ es) p = run es (step e p)
