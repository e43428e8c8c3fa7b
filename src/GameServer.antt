-- ===== src/GameServer.antt =====
-- The packet handlers of net/game_server.cpp, for one connection. `unset_type` and `unset_name` are
-- what the memory of a new player holds where its constructor leaves it as it is.
pub mod Local
pub mod Blocks
pub mod Errors
use mmocraft.Prelude.{
  ℕ, ◌+◌, ◌-◌, ◌^◌, not, Option, none, some, List, [], ◌∷◌, ltb, ◌==◌, if◌then◌else◌, take,
}
use mmocraft.Code
use mmocraft.Player.{
  Player, PlayerType, new_player, username, set_position, set_extension_count, register_extension,
}
use mmocraft.Packet.Field.{Bytes}
use mmocraft.Packet.Id
use mmocraft.Packet.Handshake
use mmocraft.Packet.SetBlock
use mmocraft.Packet.SetBlock.{PacketSetBlockClient}
use mmocraft.Packet.SetPlayerPosition
use mmocraft.Packet.Chat
use mmocraft.Packet.Extension
use mmocraft.Packet.Extension.{PacketExtEntry}
use mmocraft.Buffer.LockFree
use mmocraft.Connection.{Connection, set_player}
use mmocraft.World.ChatTask
use mmocraft.World.ChatTask.{CommonChatTask}
use mmocraft.World.BlockTask
use mmocraft.World.BlockTask.{BlockSyncTask}
use mmocraft.World.BlockHistory.{Change}
use mmocraft.World.Session.{begin_handshake, count_ext_entry}
use mmocraft.Framing.{Handler}

-- What is handed to the communicator: a packet for the login server, by the key of its connection,
-- and a chat message for the chat server, by the name of its sender.
pub data Message : Type 0 where
  packet_handshake : ℕ → Bytes → Message
  chat_command : Bytes → Bytes → Message

-- What the handlers of a connection's packets reach. The players of the task are named by the keys of
-- their connections, and the last message comes first.
pub record GameServer : Type 0 where
  pub conn : Connection
  pub sync_block_task : BlockSyncTask ℕ
  pub common_chat_transfer_task : CommonChatTask
  pub messages : List Message

-- A change of the player, if there is one.
abbrev pub with_player : (Player → Player) → GameServer → GameServer
with_player f s = elim s.conn.player [
  | none ↦ s
  | some p ↦ record s { conn = record (s.conn) { player = some (f p) } }
]

-- ConnectionIO::send_raw_data and send_packet, whose result no handler reads.
unfoldable pub send : Bytes → GameServer → GameServer
send bytes s = record s {
  conn = record (s.conn) { send_data = (LockFree.push s.conn.send_data bytes).0 };
}

abbrev pub tell : Message → GameServer → GameServer
tell m s = record s { messages = m ∷ s.messages }

abbrev pub air : ℕ
air = 0

-- game::block_creation_mode::set
abbrev pub set_mode : ℕ
set_mode = 1

module _ (unset_type : PlayerType) (unset_name : List ℕ) where
  unfoldable pub handle_handshake_packet : GameServer → Bytes → GameServer × ℕ
  handle_handshake_packet s packet_data = elim (Handshake.parse packet_data) [
    | none ↦ (s, Code.success)
    | some (packet, rest) ↦
        let made = new_player unset_type unset_name s.conn.key packet.username in
        let player = begin_handshake (Handshake.has_cpe_support packet) made in
        (
          tell (packet_handshake s.conn.key packet_data)
              (record s { conn = set_player s.conn player }),
          Code.success,
        )
  ]

unfoldable pub handle_ping_packet : GameServer → Bytes → GameServer × ℕ
unfolding send
handle_ping_packet s packet_data = (send (Id.ping ∷ []) s, Code.success)

unfoldable pub handle_two_way_ping_packet : GameServer → Bytes → GameServer × ℕ
unfolding send
handle_two_way_ping_packet s packet_data = (send packet_data s, Code.success)

unfoldable pub handle_ext_ping_packet : GameServer → Bytes → GameServer × ℕ
unfolding send
handle_ext_ping_packet s packet_data = elim (Extension.parse_ext_ping packet_data) [
  | none ↦ (s, Code.success)
  | some (request_time, rest) ↦ (send (Extension.write_ext_ping request_time) s, Code.success)
]

-- The block that a change asks for, and the one that takes it back.
abbrev pub asked : PacketSetBlockClient → ℕ
asked packet = if packet.mode == set_mode then packet.block_id else air

abbrev pub reverted : PacketSetBlockClient → ℕ
reverted packet = if packet.mode == set_mode then air else packet.block_id

unfoldable pub change_block : GameServer → PacketSetBlockClient → GameServer
change_block s packet =
    let (task, done) =
      BlockTask.push_change s.sync_block_task
        (record { x = packet.x; y = packet.y; z = packet.z; block_id = asked packet }) in
    let tried = record s { sync_block_task = task } in
    if done
    then tried
    else send
        (SetBlock.write_server
          (record { x = packet.x; y = packet.y; z = packet.z; block_id = reverted packet }))
        tried

unfoldable pub handle_set_block_packet : GameServer → Bytes → GameServer × ℕ
unfolding change_block
handle_set_block_packet s packet_data = elim (SetBlock.parse packet_data) [
  | none ↦ (s, Code.success)
  | some (packet, rest) ↦ (change_block s packet, Code.success)
]

unfoldable pub handle_player_position_packet : GameServer → Bytes → GameServer × ℕ
handle_player_position_packet s packet_data = elim (SetPlayerPosition.parse packet_data) [
  | none ↦ (s, Code.success)
  | some (packet, rest) ↦ (with_player (λ p. set_position p packet.player_pos) s, Code.success)
]

unfoldable pub handle_chat_message_packet : GameServer → Bytes → GameServer × ℕ
handle_chat_message_packet s packet_data = elim (Chat.parse packet_data) [
  | none ↦ (s, Code.success)
  | some (packet, rest) ↦
      let pushed = (ChatTask.push s.common_chat_transfer_task packet_data).0 in
      let chatted =
        if not (Chat.is_command_message packet)
        then record s { common_chat_transfer_task = pushed }
        else s in
      let sender : Bytes = elim s.conn.player [ none ↦ [] | some p ↦ username p ] in
      (tell (chat_command packet.message sender) chatted, Code.success)
]

-- The conversion of a 16-bit signed integer to a 32-bit unsigned one.
unfoldable pub extend_sign : ℕ → ℕ
extend_sign v = if ltb v (2 ^ 15) then v else v + (2 ^ 32 - 2 ^ 16)

unfoldable pub handle_ext_info_packet : GameServer → Bytes → GameServer × ℕ
handle_ext_info_packet s packet_data = elim (Extension.parse_ext_info packet_data) [
  | none ↦ (s, Code.success)
  | some (packet, rest) ↦ (
    with_player (λ p. set_extension_count p (extend_sign packet.extension_count)) s,
    Code.success,
  )
]

-- The registration of an extension. What is available has an index, and that is below 64: there are
-- no exceptions.
unfoldable pub register : PacketExtEntry → Player → Player
register packet p =
    if Extension.is_available_cpe packet.extenstion_name packet.version
    then elim (Extension.cpe_index_of packet.extenstion_name) [
      | none ↦ p
      | some index ↦ elim (register_extension p index) [ none ↦ p | some q ↦ q ]
    ]
    else p

unfoldable pub handle_ext_entry_packet : GameServer → Bytes → GameServer × ℕ
unfolding register
handle_ext_entry_packet s packet_data = elim (Extension.parse_ext_entry packet_data) [
  | none ↦ (s, Code.success)
  | some (packet, rest) ↦ (with_player (λ p. count_ext_entry (register packet p)) s, Code.success)
]

module _ (unset_type : PlayerType) (unset_name : List ℕ) where
  -- packet_handler_db; `none` is the null pointer.
  unfoldable pub packet_handler_db : ℕ → Option (GameServer → Bytes → GameServer × ℕ)
  packet_handler_db id =
      if id == Id.handshake
      then some (handle_handshake_packet unset_type unset_name)
      else if id == Id.ping
      then some handle_ping_packet
      else if id == Id.set_block_client
      then some handle_set_block_packet
      else if id == Id.set_player_position
      then some handle_player_position_packet
      else if id == Id.chat_message
      then some handle_chat_message_packet
      else if id == Id.ext_info
      then some handle_ext_info_packet
      else if id == Id.ext_entry
      then some handle_ext_entry_packet
      else if id == Id.two_way_ping
      then some handle_two_way_ping_packet
      else if id == Id.ext_ping
      then some handle_ext_ping_packet
      else none

  -- What handle_packet does with a packet, once its id is known.
  unfoldable pub handle_as : ℕ → GameServer → Bytes → GameServer × ℕ
  unfolding packet_handler_db
  handle_as packet_id s packet_data = elim (packet_handler_db packet_id) [
    | none ↦ (s, Code.unimplemented_packet_id)
    | some handler ↦ handler s packet_data
  ]

  unfoldable pub handle_packet : Handler GameServer
  handle_packet s bytes =
      let (packet_id, packet_size) = Id.parse_packet bytes in
      handle_as packet_id s (take packet_size bytes)
