-- ===== src/Server/Answer.antt =====
-- What net/game_server.cpp GameServer::handle_handshake_response_message does with the login server's
-- answer, and Connection::kick of net/connection.cpp. The coroutine waits for the database once: the
-- part before it is `answer_login`, the part behind it `load_gamedata`.
pub mod Acquire
pub mod Duplicate
pub mod Validity
use mmocraft.Prelude.{ℕ, Bool, true, false, not, Option, none, some, [], ◌==◌, if◌then◌else◌}
use mmocraft.Code
use mmocraft.Code.Messages.{error_message}
use mmocraft.ConnectionKey
use mmocraft.Player.{Player, PlayerType, PlayerGamedata}
use mmocraft.Player.Session.{transit_state}
use mmocraft.Packet.Field.{Bytes}
use mmocraft.Packet.Chat
use mmocraft.Buffer.LockFree
use mmocraft.Connection.{Connection}
use mmocraft.Environment.{try_acquire_connection}
use mmocraft.Server.{Server, update, disconnect}
use mmocraft.Login.{Reply, found, document_not_found, failed}

-- protocol::PacketHandshakeResponse, its player type one of the enum's.
pub record HandshakeResponse : Type 0 where
  pub connection_key : ℕ
  pub prev_connection_key : ℕ
  pub error_code : ℕ
  pub player_type : PlayerType
  pub player_uuid : Bytes

-- The text of an error; no caller has an error with none.
abbrev pub text_of : ℕ → Bytes
text_of error = elim (error_message error) [ none ↦ [] | some text ↦ text ]

-- ConnectionIO::send_packet on the connection.
unfoldable pub push_packet : Bytes → Connection → Connection
push_packet bytes c = record c { send_data = (LockFree.push c.send_data bytes).0 }

-- Connection::kick of `c`, the connection in slot `i`.
unfoldable pub kick : Server → ℕ → Connection → ℕ → ℕ → Server
unfolding push_packet
kick s i c error now =
    let packet = Chat.write_disconnect_player (text_of error) in
    disconnect (update s i (push_packet packet)) i (push_packet packet c) now

-- A change of the player of a connection, which the source reaches without a test.
abbrev pub on_player : (Player → Player) → Connection → Connection
on_player f c = elim c.player [ none ↦ c | some p ↦ record c { player = some (f p) } ]

unfoldable pub enter_as_guest : Player → Player
enter_as_guest p = record p { player_type = PlayerType.guest; state = transit_state p.state }

unfoldable pub identify : PlayerType → Bytes → Player → Player
identify type uuid p = record p { player_type = type; uuid = uuid }

unfoldable pub enter_with : Option PlayerGamedata → Player → Player
enter_with none p = record p { state = transit_state p.state }
enter_with (some gamedata) p = record p { gamedata = gamedata; state = transit_state p.state }

-- The earlier connection of the player, if there is one.
unfoldable pub kick_previous : Server → ℕ → ℕ → Server
unfolding kick
kick_previous s key now = elim (try_acquire_connection s.env key) [
  | none ↦ s
  | some prev ↦ kick s (ConnectionKey.index key) prev Code.player_already_login now
]

-- Up to the wait, with whether the handler goes on.
unfoldable pub answer_login : Server → HandshakeResponse → ℕ → Server × Bool
unfolding kick kick_previous enter_as_guest identify
answer_login s msg now =
    let i = ConnectionKey.index msg.connection_key in
    elim (try_acquire_connection s.env msg.connection_key) [
      | none ↦ (s, true)
      | some c ↦
          if msg.error_code == Code.player_not_exist
          then (update s i (on_player enter_as_guest), false)
          else if not (msg.error_code == Code.success)
          then (kick s i c Code.player_login_fail now, false)
          else (
            kick_previous (update s i (on_player (identify msg.player_type msg.player_uuid)))
                msg.prev_connection_key now,
            true,
          )
    ]

-- From the wait on, with what the database gives for the player.
unfoldable pub load_gamedata : Server → ℕ → Reply PlayerGamedata → ℕ → Server
unfolding kick enter_with
load_gamedata s key reply now =
    let i = ConnectionKey.index key in
    elim (try_acquire_connection s.env key) [
      | none ↦ s
      | some c ↦ elim reply [
        | failed ↦ kick s i c Code.player_login_fail now
        | document_not_found ↦ update s i (on_player (enter_with none))
        | found gamedata ↦ update s i (on_player (enter_with (some gamedata)))
      ]
    ]
