-- ===== src/Login.antt =====
-- mmocraft-login/net/login_server.cpp class LoginServer. The database is a parameter: its documents
-- are looked up by name, and each call has the outcomes that the handlers tell apart.
pub mod Verdict
pub mod Sessions
use mmocraft.Prelude.{ℕ, ◌≡◌, Bool, true, not, Option, none, some, [], if◌then◌else◌}
use mmocraft.Code
use mmocraft.Packet.Field.{Bytes}
use mmocraft.Packet.Handshake
use mmocraft.Packet.Extension.{bytes_eq}
use mmocraft.UdpMessage.MessageId
use mmocraft.UdpMessage.{Codec, MessageRequest, message_id, set_message, parse_message, datagram}
use mmocraft.Communicator.{PacketHandleRequest}

-- database::collection::PlayerLogin
pub record PlayerLogin : Type 0 where
  pub password : Bytes
  pub identity : Bytes
  pub player_type : ℕ

-- The result of get_document.
pub data Reply (A : Type 0) : Type 0 where
  found : A → Reply A
  document_not_found failed : Reply A

-- The collections player_login and player_login_session of a database whose state is `D`. A session
-- is the key of a connection; a change gives the state after it and whether it was made.
pub record Database (D : Type 0) : Type 0 where
  pub get_login : D → Bytes → Reply PlayerLogin
  pub get_session : D → Bytes → Reply ℕ
  pub upsert_session : D → Bytes → ℕ → D × Bool
  pub remove_session : D → Bytes → D × Bool

-- What the handlers rely on: a session that was put is found, and logins are another collection.
pub record Keeps {D : Type 0} (db : Database D) : Type 0 where
  pub session :
      (d : D) (name : Bytes) (key : ℕ)
      → (db.upsert_session d name key).1 ≡ true
      → db.get_session (db.upsert_session d name key).0 name ≡ found key
  pub logins :
      (d : D) (name : Bytes) (key : ℕ) (other : Bytes)
      → db.get_login (db.upsert_session d name key).0 other ≡ db.get_login d other

pub record PacketHandshakeResponse : Type 0 where
  pub connection_key : ℕ
  pub prev_connection_key : ℕ
  pub error_code : ℕ
  pub player_type : ℕ
  pub player_uuid : Bytes

pub record PlayerLogoutRequest : Type 0 where
  pub username : Bytes

-- What packet_response is at first.
abbrev pub login_failed : ℕ → PacketHandshakeResponse
login_failed key = record {
  connection_key = key;
  prev_connection_key = 0;
  error_code = Code.player_login_fail;
  player_type = 0;
  player_uuid = [];
}

abbrev pub login_succeeded : ℕ → PlayerLogin → PacketHandshakeResponse
login_succeeded key l = record (login_failed key) {
  error_code = Code.success;
  player_type = l.player_type;
  player_uuid = l.identity;
}

module _ {D : Type 0} (db : Database D) where
  -- The block that updates the login session.
  unfoldable pub update_session :
      D → ℕ → Bytes → PacketHandshakeResponse → D × PacketHandshakeResponse
  update_session d key name response = elim (db.get_session d name) [
    | failed ↦ (d, response)
    | document_not_found ↦ ((db.upsert_session d name key).0, response)
    | found prev ↦
        ((db.upsert_session d name key).0, record response { prev_connection_key = prev })
  ]

  -- handle_handshake_packet after its packet is read: the response is sent on every way out.
  unfoldable pub log_in : D → ℕ → Bytes → Bytes → D × PacketHandshakeResponse
  unfolding update_session bytes_eq
  log_in d key name password = elim (db.get_login d name) [
    | document_not_found ↦ (d, record (login_failed key) { error_code = Code.player_not_exist })
    | failed ↦ (d, login_failed key)
    | found l ↦
        if not (bytes_eq l.password password)
        then (d, login_failed key)
        else update_session d key name (login_succeeded key l)
  ]

  -- `none` is a packet that ends before its fields do, or a message that does not parse, which the
  -- handler does not ask for.
  unfoldable pub handle_handshake_packet :
      Codec PacketHandleRequest
      → Codec PacketHandshakeResponse
      → D
      → MessageRequest
      → Option (D × Bytes)
  unfolding log_in
  handle_handshake_packet requests responses d request = elim (parse_message requests request) [
    | none ↦ none
    | some msg ↦ elim (Handshake.parse msg.packet_data) [
      | none ↦ none
      | some (packet, rest) ↦
          let (next, response) = log_in d msg.connection_key packet.username packet.password in
          some (next, datagram (set_message responses response request))
    ]
  ]

  unfoldable pub log_out : D → Bytes → D
  log_out d name = (db.remove_session d name).0

  unfoldable pub handle_player_logout_message : Codec PlayerLogoutRequest → D → MessageRequest → D
  unfolding log_out
  handle_player_logout_message logouts d request = elim (parse_message logouts request) [
    | none ↦ d
    | some msg ↦ log_out d msg.username
  ]
